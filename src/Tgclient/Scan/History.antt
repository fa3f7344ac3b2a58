-- ===== src/Tgclient/Scan/History.antt =====
-- internal/tgclient/tgclient.go: the own messages of a chat, newest first, and the smallest id of a
-- page of them.
use langolier_bot.Base.{
  ℕ, ◌≤◌, ◌<◌, Bool, true, false, ◌||◌, List, [], ◌∷◌, ◌++◌, ltb, nat_beq, if◌then◌else◌, All,
  arith,
}
use langolier_bot.Tgclient.Scan.{Message, message, min_id_from}

-- An own message: its id, and its date in seconds.
abbrev pub Own : Type 0
Own = ℕ × ℕ

abbrev pub to_message : Own → Message
to_message (id, date) = message id date

abbrev pub to_messages : List Own → List Message
to_messages [] = []
to_messages (x ∷ xs) = to_message x ∷ to_messages xs

-- A history, newest first: ids are positive and fall.
abbrev pub IsHistory : List Own → Type 0
IsHistory [] = Unit
IsHistory (x ∷ xs) = (0 < x.0) × (All (λ (y : Own). y.0 < x.0) xs × IsHistory xs)

by_cases : (Q : ℕ → Type 0) (b : Bool) (x y : ℕ) → Q x → Q y → Q (if b then x else y)
by_cases Q true x y hx hy = hx
by_cases Q false x y hx hy = hy

-- The smallest id of a page is the id of one of its messages, and no other is smaller.
pub min_id-All :
    (Q : ℕ → Type 0) (m : ℕ) (xs : List Own)
    → Q m
    → All (λ (x : Own). Q x.0) xs
    → Q (min_id_from m (to_messages xs))
unfolding min_id_from
min_id-All Q m [] q h = q
min_id-All Q m (x ∷ xs) q h =
    min_id-All Q (if nat_beq m 0 || ltb x.0 m then x.0 else m) xs (by_cases Q _ x.0 m h.0 q) h.1

pub min_id-le :
    (m : ℕ) (xs : List Own)
    → 0 < m
    → All (λ (x : Own). 0 < x.0) xs
    → (min_id_from m (to_messages xs) ≤ m)
      × All (λ (x : Own). min_id_from m (to_messages xs) ≤ x.0) xs
unfolding min_id_from
min_id-le m [] p h = (omega arith, tt)
min_id-le m (x ∷ xs) p h =
    let smaller : ℕ = if nat_beq m 0 || ltb x.0 m then x.0 else m in
    let (le, all) = min_id-le smaller xs (by_cases (λ k. 0 < k) _ x.0 m h.0 p) h.1 in
    (ground (arith, le), (ground (arith, le), all))

pub IsHistory-positive : (xs : List Own) → IsHistory xs → All (λ (x : Own). 0 < x.0) xs
IsHistory-positive [] h = tt
IsHistory-positive (x ∷ xs) h = (h.0, IsHistory-positive xs h.1.1)

pub All-split : (Q : Own → Type 0) (xs ys : List Own) → All Q (xs ++ ys) → All Q xs × All Q ys
All-split Q [] ys h = (tt, h)
All-split Q (x ∷ xs) ys h = let (a, b) = All-split Q xs ys h.1 in ((h.0, a), b)

-- All that stands behind is below all that stands before.
pub IsHistory-append :
    (xs ys : List Own)
    → IsHistory (xs ++ ys)
    → All (λ (x : Own). All (λ (y : Own). y.0 < x.0) ys) xs × IsHistory xs × IsHistory ys
IsHistory-append [] ys h = (tt, tt, h)
IsHistory-append (x ∷ xs) ys h =
    let (a, b) = All-split (λ (y : Own). y.0 < x.0) xs ys h.1.0 in
    let (c, d, e) = IsHistory-append xs ys h.1.1 in ((b, c), (h.0, (a, d)), e)
