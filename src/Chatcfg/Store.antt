-- ===== src/Chatcfg/Store.antt =====
-- internal/chatcfg/chatcfg.go: the Store. The bucket is the committed content of the bbolt bucket
-- "chatcfg", and `outcome` is what `db.Update` returns for the transaction: `none` if it was
-- committed, and an error if it was not, which leaves the bucket as it was. `encoding/json` is the
-- parameter `Codec`. Every method holds the mutex from start to end, so it is one step.
use langolier_bot.Base.{
  suc, ◌&&◌, Option, none, some, [], ◌∷◌, ◌++◌, ◌≡◌, length, take, drop, if◌then◌else◌, nat_eq,
  list_eq,
}
use langolier_bot.Base.Int.{ℤ, pos, int_eq, ltb_ℤ, leb_ℤ, pos_part}
use langolier_bot.Base.Maps.{Map, lookup, insert, delete}
use langolier_bot.Base.Text.{Text, trim_space, is_empty}
use langolier_bot.Base.Decimal.{parse_int, format_int}
use langolier_bot.Chatcfg.Config.{Pattern, Config, zero_config, clone}

-- json.Marshal and json.Unmarshal of a Config, with what the store relies on: a value that was
-- written is read back.
pub record Codec : Type 0 where
  pub marshal : Config → Option Text
  pub unmarshal : Text → Option Config
  pub unmarshal-marshal : (c : Config) (d : Text) → marshal c ≡ some d → unmarshal d ≡ some c

pub data Error : Type 0 where
  bad_key : Text → Error
  bad_value : ℤ → Error
  empty_pattern : Error
  encoding : Config → Error
  database : Text → Error

pub data Result {ℓ} (A : Type ℓ) : Type ℓ where
  ok : A → Result A
  err : Error → Result A

abbrev pub Bucket : Type 0
Bucket = Map Text Text

pub record Store : Type 0 where
  pub bucket : Bucket
  pub cache : Map ℤ Config

-- The bytes of the decimal chat id.
abbrev pub key : ℤ → Text
key chat = format_int chat

abbrev pub cached : Map ℤ Config → ℤ → Config
cached m chat = elim (lookup chat m) [ none ↦ zero_config | some c ↦ c ]

unfoldable pub get : Store → ℤ → Config
unfolding lookup clone
get s chat = clone (cached s.cache chat)

copies : Map ℤ Config → Map ℤ Config
copies [] = []
copies ((chat, c) ∷ m) = (chat, clone c) ∷ copies m

unfoldable pub list : Store → Map ℤ Config
unfolding copies
list s = copies s.cache

-- What an operation leaves, and the error that it returns.
abbrev pub Outcome : Type 0
Outcome = Store × Option Error

abbrev pub committed : Option Text → Bucket → Result (Map ℤ Config) → Result Store
committed outcome b (err e) = err e
committed (some e) b (ok cache) = err (database e)
committed none b (ok cache) = ok (record { bucket = b; cache = cache })

abbrev pub create_bucket : Option Bucket → Bucket
create_bucket none = []
create_bucket (some b) = b

abbrev pub write : Store → ℤ → Config → Text → Option Text → Outcome
write s chat c encoded (some e) = (s, some (database e))
write s chat c encoded none =
    (record { bucket = insert (key chat) encoded s.bucket; cache = insert chat c s.cache }, none)

-- if minutes < 0 { minutes = 0 }
abbrev pub at_least_zero : ℤ → ℤ
at_least_zero minutes = if ltb_ℤ minutes (pos 0) then pos 0 else minutes

abbrev pub with_ttl : ℤ → Config → Config
with_ttl minutes c = record c { ttl_minutes = minutes }

abbrev pub with_pattern : Pattern → Config → Config
with_pattern p c = record c { patterns = c.patterns ++ p ∷ [] }

-- c.Patterns[:i] and c.Patterns[i+1:], if the index is in range
abbrev pub without_pattern : ℤ → Config → Config
without_pattern i c =
    if leb_ℤ (pos 0) i && ltb_ℤ i (pos (length c.patterns))
    then record c { patterns = take (pos_part i) c.patterns ++ drop (suc (pos_part i)) c.patterns }
    else c

module _ (codec : Codec) where
  open codec use {marshal, unmarshal}

  -- The callback of ForEach, for the entries in the order of the bucket.
  unfoldable pub load : Bucket → Map ℤ Config → Result (Map ℤ Config)
  load [] cache = ok cache
  load ((k, v) ∷ b) cache = elim (parse_int k) [
    | none ↦ err (bad_key k)
    | some chat ↦ elim (unmarshal v) [
      | none ↦ err (bad_value chat)
      | some c ↦ load b (insert chat c cache)
    ]
  ]

  -- `New`, over a database that may hold the bucket already.
  unfoldable pub open_store : Option Bucket → Option Text → Result Store
  open_store existing outcome = let b = create_bucket existing in committed outcome b (load b [])

  unfoldable pub mutate : Store → ℤ → (Config → Config) → Option Text → Outcome
  mutate s chat fn outcome =
      let c = fn (clone (cached s.cache chat)) in
      elim (marshal c) [
        | none ↦ (s, some (encoding c))
        | some encoded ↦ write s chat c encoded outcome
      ]

  unfoldable pub set_ttl : Store → ℤ → ℤ → Option Text → Outcome
  set_ttl s chat minutes outcome = mutate s chat (with_ttl (at_least_zero minutes)) outcome

  unfoldable pub add_pattern : Store → ℤ → Pattern → Option Text → Outcome
  add_pattern s chat p outcome =
      let value = trim_space p.value in
      if is_empty value
      then (s, some empty_pattern)
      else mutate s chat (with_pattern (record p { value = value })) outcome

  unfoldable pub remove_pattern : Store → ℤ → ℤ → Option Text → Outcome
  remove_pattern s chat i outcome = mutate s chat (without_pattern i) outcome

unfoldable pub disable : Store → ℤ → Option Text → Outcome
disable s chat (some e) = (s, some (database e))
disable s chat none =
    (record { bucket = delete (key chat) s.bucket; cache = delete chat s.cache }, none)
