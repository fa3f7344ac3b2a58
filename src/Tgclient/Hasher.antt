-- ===== src/Tgclient/Hasher.antt =====
-- internal/tgclient/hasher.go: the store of access hashes, a bbolt bucket from the text of a peer to the
-- eight little-endian bytes of its hash.
use langolier_bot.Base.{
  ℕ, ◌+◌, ◌*◌, ◌/◌, ◌%◌, ◌^◌, ◌<◌, Bool, true, false, Option, none, some, List, [], ◌∷◌, ◌++◌, ◌≡◌,
  ◌≢◌, refl, sym, ◌∙◌, ap, arith, nat_eq, list_eq, ◌==◌, same_refl, Bool-cases, inl, inr,
  list_beq_iff,
}
use langolier_bot.Base.Int.{ℤ, pos, negsuc, InInt64, residue, wrap64}
use langolier_bot.Base.Calls.{Answer, got, failed}
use langolier_bot.Base.Maps.{Map, lookup, insert, lookup-insert}
use langolier_bot.Base.Text.{Text, cut_colon, cut_colon-append}
use langolier_bot.Base.Decimal.{format_int, parse_int, parse-format, format_int-NoColon}

abbrev pub Bytes : Type 0
Bytes = List ℕ

abbrev pub Bucket : Type 0
Bucket = Map Text Bytes

-- CreateBucketIfNotExists, of a bucket that may be there already, and newHashStore, for the answer of
-- the database.
abbrev create_bucket : Option Bucket → Bucket
create_bucket none = []
create_bucket (some b) = b

unfoldable pub new_hash_store : Option Bucket → Option Text → Answer Bucket
new_hash_store existing none = got (create_bucket existing)
new_hash_store existing (some e) = failed e

-- binary.LittleEndian.PutUint64
unfoldable pub put_uint64 : ℕ → Bytes
put_uint64 n =
    n % 256
    ∷ n / 2 ^ 8 % 256
    ∷ n / 2 ^ 16 % 256
    ∷ n / 2 ^ 24 % 256
    ∷ n / 2 ^ 32 % 256
    ∷ n / 2 ^ 40 % 256
    ∷ n / 2 ^ 48 % 256
    ∷ n / 2 ^ 56 % 256
    ∷ []

-- binary.LittleEndian.Uint64; `none` is the panic on fewer than eight bytes.
unfoldable pub uint64 : Bytes → Option ℕ
uint64 (a ∷ b ∷ c ∷ d ∷ e ∷ f ∷ g ∷ h ∷ rest) =
    some
      (a + b * 2 ^ 8 + c * 2 ^ 16 + d * 2 ^ 24 + e * 2 ^ 32 + f * 2 ^ 40 + g * 2 ^ 48 + h * 2 ^ 56)
uint64 _ = none

-- A hash, whether one was found, and the error; `none` is a panic.
abbrev pub Got : Type 0
Got = Option (ℤ × Bool × Option Text)

abbrev pub decoded : Option ℕ → Got
decoded none = none
decoded (some n) = some (wrap64 (pos n), true, none)

abbrev pub viewed : Option Bytes → Got
viewed none = some (pos 0, false, none)
viewed (some v) = decoded (uint64 v)

-- Each call takes what the database answers to the transaction.
unfoldable pub get : Bucket → Text → Option Text → Got
get b key (some e) = some (pos 0, false, some e)
get b key none = viewed (lookup key b)

unfoldable pub set : Bucket → Text → ℤ → Option Text → Bucket × Option Text
set b key hash (some e) = (b, some e)
set b key hash none = (insert key (put_uint64 (residue hash)) b, none)

-- The two kinds of peers that have hashes.
pub data Kind : Type 0 where
  channel user : Kind

abbrev pub kind_code : Kind → ℕ
kind_code channel = b'c'
kind_code user = b'u'

-- fmt.Sprintf("c:%d:%d", userID, channelID) and fmt.Sprintf("u:%d:%d", userID, targetUserID)
unfoldable pub peer_key : Kind → ℤ → ℤ → Text
peer_key k user_id id = kind_code k ∷ b':' ∷ (format_int user_id ++ b':' ∷ format_int id)

unfoldable pub set_access_hash : Kind → Bucket → ℤ → ℤ → ℤ → Option Text → Bucket × Option Text
set_access_hash k b user_id id hash outcome = set b (peer_key k user_id id) hash outcome

unfoldable pub get_access_hash : Kind → Bucket → ℤ → ℤ → Option Text → Got
get_access_hash k b user_id id outcome = get b (peer_key k user_id id) outcome

uint64-put_uint64 : (n : ℕ) → n < 2 ^ 64 → uint64 (put_uint64 n) ≡ some n
unfolding uint64 put_uint64
uint64-put_uint64 n h = ap some (omega arith)

wrap64-residue : (z : ℤ) → InInt64 z → wrap64 (pos (residue z)) ≡ z
unfolding wrap64 residue
wrap64-residue (pos n) h = ground arith
wrap64-residue (negsuc n) h = ground arith

residue-lt : (z : ℤ) → residue z < 2 ^ 64
unfolding residue
residue-lt (pos n) = omega arith
residue-lt (negsuc n) = omega arith

abbrev pub Peer : Type 0
Peer = Kind × ℤ × ℤ

abbrev pub key_of : Peer → Text
key_of (k, user_id, id) = peer_key k user_id id

abbrev pub InRange : Peer → Type 0
InRange (k, user_id, id) = InInt64 user_id × InInt64 id

code_of : Text → ℕ
code_of [] = 0
code_of (c ∷ s) = c

rest_of : Text → Text
rest_of (c ∷ d ∷ s) = s
rest_of _ = []

parts_of : Option (Text × Text) → Option ℤ × Option ℤ
parts_of none = (none, none)
parts_of (some (a, b)) = (parse_int a, parse_int b)

kind_code-injective : (k l : Kind) → kind_code k ≡ kind_code l → k ≡ l
kind_code-injective channel channel e = refl
kind_code-injective channel user e = absurd (omega arith)
kind_code-injective user channel e = absurd (omega arith)
kind_code-injective user user e = refl

-- The numbers of a key are read back from it.
parts-key :
    (k : Kind) (u i : ℤ)
    → InInt64 u
    → InInt64 i
    → parts_of (cut_colon (rest_of (peer_key k u i))) ≡ (some u, some i)
unfolding peer_key rest_of parts_of
parts-key k u i hu hi =
    ap parts_of (cut_colon-append (format_int u) (format_int i) (format_int-NoColon u))
    ∙ rw (parse-format u hu, parse-format i hi) refl

key-injective : (p q : Peer) → InRange p → InRange q → key_of p ≡ key_of q → p ≡ q
unfolding peer_key code_of
key-injective (k, u, i) (l, v, j) (hu, hi) (hv, hj) e =
    let numbers : ◌≡◌ {A = Option ℤ × Option ℤ} (some u, some i) (some v, some j) =
      sym (parts-key k u i hu hi)
      ∙ ap (λ s. parts_of (cut_colon (rest_of s))) e
      ∙ parts-key l v j hv hj in
    let kinds : k ≡ l = kind_code-injective k l (ap code_of e) in
    let users : some u ≡ some v = ap (λ (n : Option ℤ × Option ℤ). n.0) numbers in
    let ids : some i ≡ some j = ap (λ (n : Option ℤ × Option ℤ). n.1) numbers in cc

other_key : (p q : Peer) → InRange p → InRange q → q ≢ p → (key_of p == key_of q) ≡ false
other_key p q hp hq n = elim (Bool-cases (key_of p == key_of q)) [
  | inl e ↦ absurd (n (sym (key-injective p q hp hq ((list_beq_iff (key_of p) (key_of q)).0 e))))
  | inr e ↦ e
]

-- A hash that was set for a peer is read back, and what is read for any other peer, of either kind and
-- of any account, is as it was before.
pub get-set :
    (b : Bucket) (k : Kind) (user_id id hash : ℤ)
    → InRange (k, user_id, id)
    → InInt64 hash
    → let after = (set_access_hash k b user_id id hash none).0 in
      (get_access_hash k after user_id id none ≡ some (hash, true, none))
      × ((q : Peer)
          → InRange q
          → q ≢ (k, user_id, id)
          → get_access_hash q.0 after q.1 q.2 none ≡ get_access_hash q.0 b q.1 q.2 none)
unfolding set_access_hash get_access_hash get set
get-set b k u i hash r h =
    let key = peer_key k u i in
    (
      ap viewed (lookup-insert key key _ b)
          ∙ rw (same_refl key) (
              ap decoded (uint64-put_uint64 (residue hash) (residue-lt hash))
              ∙ ap (λ z. some (z, true, none)) (wrap64-residue hash h)),
      λ q hq n.
          ap viewed (lookup-insert key (key_of q) _ b ∙ rw (other_key (k, u, i) q r hq n) refl),
    )
