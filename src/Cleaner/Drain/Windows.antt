-- ===== src/Cleaner/Drain/Windows.antt =====
-- internal/cleaner/cleaner.go: what one pass of drainChat sees of a history, and what it leaves. The
-- newest messages of the history are young; the older ones are due, and the pass sees some of them.
use langolier_bot.Base.{
  ℕ, suc, ◌≤◌, ◌<◌, ◌-◌, ◌||◌, zero, ltb, nat_beq, true, false, not, List, [], ◌∷◌, ◌++◌, ◌≡◌, refl,
  sym, subst, ap, ◌∙◌, length, contains, nat_eq, take, keep, keep-All, keep_nothing, keep-append,
  All, All-append, All-weaken, All-swap, arith, if◌then◌else◌,
}
use langolier_bot.Base.Int.{ℤ}
use langolier_bot.Base.Calls.{Visit}
use langolier_bot.Cleaner.Sweep.{is_due, due_ids}
use langolier_bot.Cleaner.Drain.{oldest_from}
use langolier_bot.Tgclient.Scan.{min_id_from}
use langolier_bot.Tgclient.Scan.History.{
  to_messages, IsHistory, min_id-All, min_id-le, IsHistory-positive, All-split, IsHistory-append,
}

abbrev pub ids_of : List Visit → List ℕ
ids_of [] = []
ids_of ((id, sent) ∷ visits) = id ∷ ids_of visits

-- The smallest id of a drain and that of a scan are the same.
oldest_from-min_id :
    (m : ℕ) (visits : List Visit) → oldest_from m visits ≡ min_id_from m (to_messages visits)
unfolding oldest_from min_id_from
oldest_from-min_id m [] = refl
oldest_from-min_id m ((id, sent) ∷ visits) =
    oldest_from-min_id (if nat_beq m 0 || ltb id m then id else m) visits

-- The smallest id of what a pass sees is below no message that it sees, and above every one behind.
pub oldest-bounds :
    (visits rest : List Visit)
    → 0 < length visits
    → IsHistory (visits ++ rest)
    → All (λ (v : Visit). oldest_from 0 visits ≤ v.0) visits
      × All (λ (v : Visit). v.0 < oldest_from 0 visits) rest
unfolding min_id_from
oldest-bounds [] rest p h = absurd (omega arith)
oldest-bounds (x ∷ xs) rest p h =
    let (below, seen, behind) = IsHistory-append (x ∷ xs) rest h in
    let positive = IsHistory-positive (x ∷ xs) seen in
    let (le, all) = min_id-le x.0 xs positive.0 positive.1 in
    subst (λ o. All (λ (v : Visit). o ≤ v.0) (x ∷ xs) × All (λ (v : Visit). v.0 < o) rest)
      (sym (oldest_from-min_id 0 (x ∷ xs)))
      ((le, all), min_id-All (λ k. All (λ (v : Visit). v.0 < k) rest) x.0 xs below.0 below.1)

-- A pass that sees `n` messages sees the young ones, and due ones for the rest.
pub take_window :
    (n : ℕ) (young due : List Visit)
    → length young ≤ n
    → take n (young ++ due) ≡ young ++ take (n - length young) due
take_window n [] due h = ap (λ k. take k due) (omega arith)
take_window zero (y ∷ young) due h = absurd (omega arith)
take_window (suc n) (y ∷ young) due h =
    ap (λ t. y ∷ t)
      (take_window n young due (omega arith) ∙ ap (λ k. young ++ take k due) (omega arith))

pub due_ids_window :
    (t : ℤ) (now : ℕ) (young due : List Visit)
    → All (λ (v : Visit). is_due t now v.1 ≡ false) young
    → All (λ (v : Visit). is_due t now v.1 ≡ true) due
    → due_ids t now (young ++ due) ≡ ids_of due
unfolding due_ids
due_ids_window t now [] [] hy hd = refl
due_ids_window t now [] (d ∷ due) hy hd =
    rw hd.0 (ap (λ u. d.0 ∷ u) (due_ids_window t now [] due tt hd.1))
due_ids_window t now (y ∷ young) due hy hd = rw hy.0 (due_ids_window t now young due hy.1 hd)

contains_above :
    (n : ℕ) (visits : List Visit)
    → All (λ (v : Visit). v.0 < n) visits
    → contains (ids_of visits) n ≡ false
contains_above n [] h = refl
contains_above n (v ∷ visits) h = ground (arith, contains_above n visits h.1)

contains_below :
    (n : ℕ) (visits : List Visit)
    → All (λ (v : Visit). n < v.0) visits
    → contains (ids_of visits) n ≡ false
contains_below n [] h = refl
contains_below n (v ∷ visits) h = ground (arith, contains_below n visits h.1)

contains_own :
    (visits : List Visit) → All (λ (v : Visit). contains (ids_of visits) v.0 ≡ true) visits
contains_own [] = tt
contains_own (v ∷ visits) = (
  ground arith,
  All-weaken (λ (u : Visit). contains (ids_of visits) u.0 ≡ true) _ visits (λ u e. ground arith)
      (contains_own visits),
)

-- The messages that a deletion of some ids leaves.
abbrev pub leave : List ℕ → List Visit → List Visit
leave ids visits = keep (λ (v : Visit). not (contains ids v.0)) visits

-- The deletion of what a pass has seen leaves the young messages and those that it has not seen.
pub leave_window :
    (young seen rest : List Visit)
    → IsHistory (young ++ (seen ++ rest))
    → leave (ids_of seen) (young ++ (seen ++ rest)) ≡ young ++ rest
leave_window young seen rest h =
    let p = λ (v : Visit). not (contains (ids_of seen) v.0) in
    let (above, new, old) = IsHistory-append young (seen ++ rest) h in
    let (between, middle, last) = IsHistory-append seen rest old in
    let stays = keep-All p young (
      All-weaken (λ (y : Visit). All (λ (v : Visit). v.0 < y.0) (seen ++ rest)) _ young
        (λ y q.
          ap not (contains_above y.0 seen (All-split (λ (v : Visit). v.0 < y.0) seen rest q).0))
        above) in
    let goes = keep_nothing p seen (
      All-weaken (λ (v : Visit). contains (ids_of seen) v.0 ≡ true) _ seen (λ v e. ap not e)
        (contains_own seen)) in
    let waits = keep-All p rest (
      All-weaken (λ (r : Visit). All (λ (v : Visit). r.0 < v.0) seen) _ rest
        (λ r q. ap not (contains_below r.0 seen q))
        (All-swap (λ (v r : Visit). r.0 < v.0) seen rest between)) in
    rw (keep-append p young (seen ++ rest), keep-append p seen rest, stays, goes, waits) refl

IsHistory-glue :
    (xs ys : List Visit)
    → All (λ (x : Visit). All (λ (y : Visit). y.0 < x.0) ys) xs
    → IsHistory xs
    → IsHistory ys
    → IsHistory (xs ++ ys)
IsHistory-glue [] ys h hx hy = hy
IsHistory-glue (x ∷ xs) ys h hx hy = (
  hx.0,
  (All-append (λ (y : Visit). y.0 < x.0) xs ys hx.1.0 h.0, IsHistory-glue xs ys h.1 hx.1.1 hy),
)

-- What is left is a history.
pub IsHistory-left :
    (young seen rest : List Visit) → IsHistory (young ++ (seen ++ rest)) → IsHistory (young ++ rest)
IsHistory-left young seen rest h =
    let (above, new, old) = IsHistory-append young (seen ++ rest) h in
    IsHistory-glue young rest
      (All-weaken (λ (y : Visit). All (λ (v : Visit). v.0 < y.0) (seen ++ rest)) _ young
        (λ y q. (All-split (λ (v : Visit). v.0 < y.0) seen rest q).1) above)
      new (IsHistory-append seen rest old).2
