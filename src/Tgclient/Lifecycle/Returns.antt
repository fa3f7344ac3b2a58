-- ===== src/Tgclient/Lifecycle/Returns.antt =====
-- internal/tgclient/tgclient.go: what a call of Start or Stop has seen when it returns, whatever other
-- calls do meanwhile.
use langolier_bot.Base.{
  ℕ, ◌≤◌, ◌<◌, true, Option, none, some, ◌≡◌, refl, ap, ◌∙◌, subst, arith, Bool-cases, nat_beq,
  nat_beq_iff, is_some, inl, inr,
}
use langolier_bot.Tgclient.Lifecycle.{
  Fault, recorded, ended, Run, fresh_run, update, Memory, with_run, begin, cancel_run, send_run,
  move_run, store_err, reset, reset_client, Result, no_call, started, already_running, not_built,
  start_failed, was_stopped, stopped, Pc, rest, selecting, failing, resetting, cancelling, stopping,
  Move, start_refused, start_unbuilt, start_begun, start_ready, start_error, start_waited,
  start_done, stop_idle, stop_begun, stop_cancels, stop_waited, reset_done, Work, sends, breaks,
  returns, closes, System, Step, calls, works, initial, Steps, here, later,
}

pub update-case {ℓ κ} :
    {A : Type ℓ} (Q : A → Type κ) (f : ℕ → A) (k : ℕ) (a : A) (j : ℕ)
    → (k ≡ j → Q a)
    → Q (f j)
    → Q (update f k a j)
update-case Q f k a j new old = elim (Bool-cases (nat_beq k j)) [
  | inl e ↦ rw e (new ((nat_beq_iff k j).0 e))
  | inr e ↦ rw e old
]

-- What is known of a run stays so.
abbrev RunGrows : Run → Run → Type 0
RunGrows r r' =
    (r.phase ≡ ended → r'.phase ≡ ended)
    × ((o : Option Fault) → r.ready ≡ some o → r'.ready ≡ some o)
    × (r.is_cancelled ≡ true → r'.is_cancelled ≡ true)

abbrev pub Grows : Memory → Memory → Type 0
Grows m m' = (m.next ≤ m'.next) × ((k : ℕ) → k < m.next → RunGrows (m.runs k) (m'.runs k))

same-RunGrows : (r : Run) → RunGrows r r
same-RunGrows r = (λ e. e, λ o e. e, λ e. e)

with_run-Grows :
    (k : ℕ) (f : Run → Run) (m : Memory)
    → RunGrows (m.runs k) (f (m.runs k))
    → Grows m (with_run k f m)
with_run-Grows k f m h = (
  omega arith,
  λ j lt.
      update-case (RunGrows (m.runs j)) m.runs k (f (m.runs k)) j
        (λ e. subst (λ i. RunGrows (m.runs i) (f (m.runs k))) e h) (same-RunGrows (m.runs j)),
)

pub Move-Grows : {m m' : Memory} {p p' : Pc} → Move m p m' p' → Grows m m'
Move-Grows {m} (start_refused r e) = (omega arith, λ k lt. same-RunGrows (m.runs k))
Move-Grows {m} (start_unbuilt r f e) = (omega arith, λ k lt. same-RunGrows (m.runs k))
Move-Grows {m} (start_begun r e) = (
  omega arith,
  λ k lt.
      update-case (RunGrows (m.runs k)) m.runs m.next fresh_run k (λ q. absurd (omega arith))
        (same-RunGrows (m.runs k)),
)
Move-Grows {m} (start_ready k e) = (omega arith, λ j lt. same-RunGrows (m.runs j))
Move-Grows {m} (start_error k f e) = with_run-Grows k cancel_run m (λ e. e, λ o e. e, λ e. refl)
Move-Grows {m} (start_waited k f e) = (omega arith, λ j lt. same-RunGrows (m.runs j))
Move-Grows {m} (start_done k e) = with_run-Grows k cancel_run m (λ e. e, λ o e. e, λ e. refl)
Move-Grows {m} (stop_idle r e) = (omega arith, λ k lt. same-RunGrows (m.runs k))
Move-Grows {m} (stop_begun r k e c) = (omega arith, λ j lt. same-RunGrows (m.runs j))
Move-Grows {m} (stop_cancels k) = with_run-Grows k cancel_run m (λ e. e, λ o e. e, λ e. refl)
Move-Grows {m} (stop_waited k e) = (omega arith, λ j lt. same-RunGrows (m.runs j))
Move-Grows {m} (reset_done r) = (omega arith, λ k lt. same-RunGrows (m.runs k))

pub Work-Grows : {m : Memory} (k : ℕ) {m' : Memory} → Work m k m' → Grows m m'
Work-Grows {m} k (sends err p r) =
    with_run-Grows k (send_run err) m (λ e. e, λ o e. absurd cc, λ e. e)
Work-Grows {m} k (breaks err p) =
    with_run-Grows k (move_run recorded) (store_err err m) (λ e. absurd cc, λ o e. e, λ e. e)
Work-Grows {m} k (returns err p c) =
    with_run-Grows k (move_run recorded) (store_err err m) (λ e. absurd cc, λ o e. e, λ e. e)
Work-Grows {m} k (closes p) = with_run-Grows k (move_run ended) m (λ e. refl, λ o e. e, λ e. e)

-- What a returned call has seen.
abbrev pub Returned : Memory → Result → Type 0
Returned m no_call = Unit
Returned m (started k) = (k < m.next) × ((m.runs k).ready ≡ some none)
Returned m already_running = Unit
Returned m (not_built e) = Unit
Returned m (start_failed k e) =
    (k < m.next) × ((m.runs k).phase ≡ ended) × ((m.runs k).is_cancelled ≡ true)
Returned m was_stopped = Unit
Returned m (stopped k e) =
    (k < m.next) × ((m.runs k).phase ≡ ended) × ((m.runs k).is_cancelled ≡ true)

-- What a caller knows where it is.
abbrev pub Knows : Memory → Pc → Type 0
Knows m (rest r) = Returned m r
Knows m (selecting k) = k < m.next
Knows m (failing k e) = (k < m.next) × ((m.runs k).is_cancelled ≡ true)
Knows m (resetting r) = Returned m r
Knows m (cancelling k) = k < m.next
Knows m (stopping k) = (k < m.next) × ((m.runs k).is_cancelled ≡ true)

Returned-stays : (m m' : Memory) (r : Result) → Grows m m' → Returned m r → Returned m' r
Returned-stays m m' no_call g h = tt
Returned-stays m m' (started k) g h = (omega (arith, g.0), (g.1 k h.0).1 none h.1)
Returned-stays m m' already_running g h = tt
Returned-stays m m' (not_built e) g h = tt
Returned-stays m m' (start_failed k e) g h =
    (omega (arith, g.0), (g.1 k h.0).0 h.1, (g.1 k h.0).2 h.2)
Returned-stays m m' was_stopped g h = tt
Returned-stays m m' (stopped k e) g h = (omega (arith, g.0), (g.1 k h.0).0 h.1, (g.1 k h.0).2 h.2)

pub Knows-stays : (m m' : Memory) (p : Pc) → Grows m m' → Knows m p → Knows m' p
Knows-stays m m' (rest r) g h = Returned-stays m m' r g h
Knows-stays m m' (selecting k) g h = omega (arith, g.0)
Knows-stays m m' (failing k e) g h = (omega (arith, g.0), (g.1 k h.0).2 h.1)
Knows-stays m m' (resetting r) g h = Returned-stays m m' r g h
Knows-stays m m' (cancelling k) g h = omega (arith, g.0)
Knows-stays m m' (stopping k) g h = (omega (arith, g.0), (g.1 k h.0).2 h.1)

pub update_self {ℓ} : {A : Type ℓ} (f : ℕ → A) (k : ℕ) (a : A) → update f k a k ≡ a
update_self f k a = rw ((nat_beq_iff k k).1 refl) refl

-- The fields of the client name a run that has begun, or none while it does not run.
abbrev pub HasRun : Memory → Type 0
HasRun m =
    (m.client.running ≡ is_some m.client.current)
    × ((k : ℕ) → m.client.current ≡ some k → k < m.next)

pub Move-HasRun : {m m' : Memory} {p p' : Pc} → Move m p m' p' → HasRun m → HasRun m'
unfolding begin reset
Move-HasRun (start_refused r e) h = h
Move-HasRun (start_unbuilt r f e) h = h
Move-HasRun (start_begun r e) h = (refl, λ k q. ground arith)
Move-HasRun (start_ready k e) h = h
Move-HasRun (start_error k f e) h = h
Move-HasRun (start_waited k f e) h = h
Move-HasRun (start_done k e) h = h
Move-HasRun (stop_idle r e) h = h
Move-HasRun (stop_begun r k e c) h = h
Move-HasRun (stop_cancels k) h = h
Move-HasRun (stop_waited k e) h = h
Move-HasRun (reset_done r) h = (refl, λ k q. absurd cc)

pub Work-HasRun : {m : Memory} (k : ℕ) {m' : Memory} → Work m k m' → HasRun m → HasRun m'
Work-HasRun k (sends err p r) h = h
Work-HasRun k (breaks err p) h = h
Work-HasRun k (returns err p c) h = h
Work-HasRun k (closes p) h = h

Move-Knows : {m m' : Memory} {p p' : Pc} → Move m p m' p' → HasRun m → Knows m p → Knows m' p'
unfolding reset
Move-Knows (start_refused r e) h q = tt
Move-Knows (start_unbuilt r f e) h q = tt
Move-Knows (start_begun r e) h q = omega arith
Move-Knows (start_ready k e) h q = (q, e)
Move-Knows {m} (start_error k f e) h q =
    (q, ap (λ r. r.is_cancelled) (update_self m.runs k (cancel_run (m.runs k))))
Move-Knows (start_waited k f e) h q = (q.0, e, q.1)
Move-Knows {m} (start_done k e) h q =
    let new = update_self m.runs k (cancel_run (m.runs k)) in
    (q, ap (λ r. r.phase) new ∙ e, ap (λ r. r.is_cancelled) new)
Move-Knows (stop_idle r e) h q = tt
Move-Knows (stop_begun r k e c) h q = h.1 k c
Move-Knows {m} (stop_cancels k) h q =
    (q, ap (λ r. r.is_cancelled) (update_self m.runs k (cancel_run (m.runs k))))
Move-Knows (stop_waited k e) h q = (q.0, e, q.1)
Move-Knows {m} (reset_done r) h q =
    Returned-stays m (reset_client m) r (omega arith, λ k lt. same-RunGrows (m.runs k)) q

abbrev pub Inv : System → Type 0
Inv s = HasRun s.memory × ((i : ℕ) → Knows s.memory (s.pc i))

Step-Inv : {n : ℕ} {s t : System} → Step n s t → Inv s → Inv t
Step-Inv {s = s} (calls i {m} {p} lt mv) h = (
  Move-HasRun mv h.0,
  λ j.
      update-case (Knows m) s.pc i p j (λ e. Move-Knows mv h.0 (h.1 i))
        (Knows-stays s.memory m (s.pc j) (Move-Grows mv) (h.1 j)),
)
Step-Inv {s = s} (works k {m} lt w) h =
    (Work-HasRun k w h.0, λ j. Knows-stays s.memory m (s.pc j) (Work-Grows k w) (h.1 j))

pub Steps-Inv : {n : ℕ} {s t : System} → Steps n s t → Inv s → Inv t
Steps-Inv here h = h
Steps-Inv (later r st) h = Step-Inv st (Steps-Inv r h)

pub initial-Inv : Inv initial
initial-Inv = ((refl, λ k e. absurd cc), λ i. tt)

-- However many callers there are, and in whatever order they and the goroutines go on: a call of Start
-- that has returned nil has seen its run get ready; a call of Start that has returned the error of a
-- run, and a call of Stop that has found a run, have cancelled that run and seen its goroutine end.
pub Steps-Returned :
    (n : ℕ) (s : System) (i : ℕ) (r : Result)
    → Steps n initial s
    → s.pc i ≡ rest r
    → Returned s.memory r
Steps-Returned n s i r h e = subst (Knows s.memory) e ((Steps-Inv h initial-Inv).1 i)
