-- ===== src/Cleaner/Due.antt =====
-- internal/cleaner/cleaner.go: the sweep asks for the deletion of the messages whose age has reached
-- the TTL of their chat, and of no others.
use langolier_bot.Base.{
  ℕ, ◌+◌, ◌*◌, ◌≤◌, ◌<◌, Bool, true, false, Option, none, some, List, [], ◌∷◌, ◌≡◌, refl, ◌∙◌, ap,
  ◌&&◌, ◌||◌, not, nat_eq, nat_beq_iff, ◌==◌, contains, arith, All, ◌↔◌, Option-cases, inl, inr,
}
use langolier_bot.Base.Int.{ℤ, pos, int_eq, int_beq_iff, leb_ℤ}
use langolier_bot.Base.Maps.{lookup, IsUnique, contains-keys}
use langolier_bot.Chatcfg.Config.{ttl}
use langolier_bot.Chatcfg.Ttl.{max_minutes, ttl_exact}
use langolier_bot.Chatcfg.Store.{Store, get}
use langolier_bot.Cleaner.State.{Index, Messages}
use langolier_bot.Cleaner.Sweep.{since, is_due, due_ids, add_job, collect}
use langolier_bot.Cleaner.Lookup.{sent_at}

-- Whether some job asks for the deletion of a message.
abbrev pub asks : List (ℤ × List ℕ) → ℤ → ℕ → Bool
asks [] marked id = false
asks ((m, ids) ∷ jobs) marked id = ((m == marked) && contains ids id) || asks jobs marked id

-- No chat is twice in the index, and no message twice in a chat.
abbrev pub IsKeyed : Index → Type 0
IsKeyed index = IsUnique index × All (λ (x : ℤ × Messages). IsUnique x.1) index

abbrev due_at : ℤ → ℕ → Option ℕ → Bool
due_at t now none = false
due_at t now (some sent) = is_due t now sent

contains-due_ids :
    (t : ℤ) (now : ℕ) (msgs : Messages) (id : ℕ)
    → IsUnique msgs
    → contains (due_ids t now msgs) id ≡ due_at t now (lookup id msgs)
unfolding due_ids lookup
contains-due_ids t now [] id u = refl
contains-due_ids t now ((x, sent) ∷ msgs) id u =
    ground (arith, contains-due_ids t now msgs id u.1, nat_beq_iff x id, contains-keys id msgs)

asks-add_job :
    (m marked : ℤ) (ids : List ℕ) (rest : List (ℤ × List ℕ)) (id : ℕ)
    → asks (add_job m ids rest) marked id
      ≡ (((m == marked) && contains ids id) || asks rest marked id)
asks-add_job m marked [] rest id = ground arith
asks-add_job m marked (x ∷ ids) rest id = refl

-- What the jobs should ask for.
abbrev pub wanted : Store → ℕ → Index → ℤ → ℕ → Bool
wanted cfg now index marked id =
    let t = ttl (get cfg marked) in not (leb_ℤ t (pos 0)) && due_at t now (sent_at index marked id)

pub asks-collect :
    (cfg : Store) (now : ℕ) (index : Index) (marked : ℤ) (id : ℕ)
    → IsKeyed index
    → asks (collect cfg now index) marked id ≡ wanted cfg now index marked id
unfolding collect lookup
asks-collect cfg now [] marked id k = ground arith
asks-collect cfg now ((m, msgs) ∷ index) marked id ((fresh, u), (um, us)) = ground (
  arith,
  asks-collect cfg now index marked id (u, us),
  asks-add_job m marked (due_ids (ttl (get cfg m)) now msgs) (collect cfg now index) id,
  contains-due_ids (ttl (get cfg m)) now msgs id um,
  int_beq_iff m marked,
  contains-keys marked index,
)

is_due-exact :
    (n now sent : ℕ)
    → 0 < n
    → n ≤ max_minutes
    → (is_due (pos (n * 60000000000)) now sent ≡ true) ↔ (sent + n * 60000000000 ≤ now)
unfolding since
is_due-exact n now sent p h = ground arith

module _ (cfg : Store) (now n : ℕ) (index : Index) (marked : ℤ) (id : ℕ) (k : IsKeyed index)
    (e : (get cfg marked).ttl_minutes ≡ pos n) (h : n ≤ max_minutes) where
  asks-wanted : asks (collect cfg now index) marked id ≡ (
      not (leb_ℤ (pos (n * 60000000000)) (pos 0))
      && due_at (pos (n * 60000000000)) now (sent_at index marked id))
  asks-wanted =
      asks-collect cfg now index marked id k
      ∙ ap (λ t. not (leb_ℤ t (pos 0)) && due_at t now (sent_at index marked id))
          (ttl_exact (get cfg marked) n e h)

  -- For a chat with a TTL of `n` minutes, up to the largest that does not overflow, a sweep asks for
  -- the deletion of a message exactly if the message is in the index and was sent at least `n`
  -- minutes before; for `n` zero it asks for nothing.
  pub sweep_exact : (asks (collect cfg now index) marked id ≡ true) ↔ (
      (0 < n)
      × ((sent : ℕ) × (sent_at index marked id ≡ some sent) × (sent + n * 60000000000 ≤ now)))
  sweep_exact = (only, all)
    where
      only :
          asks (collect cfg now index) marked id ≡ true
          → (0 < n)
            × ((sent : ℕ) × (sent_at index marked id ≡ some sent) × (sent + n * 60000000000 ≤ now))
      only q = elim (Option-cases (sent_at index marked id)) [
        | inl f ↦ absurd (ground (arith, asks-wanted))
        | inr (sent, f) ↦
            let p : 0 < n = ground (arith, asks-wanted) in
            (p, (sent, f, (is_due-exact n now sent p h).0 (ground (arith, asks-wanted))))
      ]

      all :
          (0 < n)
            × ((sent : ℕ) × (sent_at index marked id ≡ some sent) × (sent + n * 60000000000 ≤ now))
          → asks (collect cfg now index) marked id ≡ true
      all (p, (sent, f, le)) = ground (arith, asks-wanted, is_due-exact n now sent p h)
