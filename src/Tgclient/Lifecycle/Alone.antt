-- ===== src/Tgclient/Lifecycle/Alone.antt =====
-- internal/tgclient/tgclient.go: Start and Stop when no two calls overlap.
use langolier_bot.Base.{
  ℕ, ◌<◌, true, false, some, ◌≡◌, ◌≢◌, Bool-cases, ◌⊎◌, refl, sym, ap, ◌∙◌, subst, arith, inl, inr,
  is_some, nat_beq_iff, nat_beq,
}
use langolier_bot.Tgclient.Lifecycle.{
  recorded, ended, with_run, send_run, move_run, store_err, Run, fresh_run, update, Memory,
  begin_run, begin, cancel, reset, Pc, rest, selecting, failing, resetting, cancelling, stopping,
  Move, start_refused, start_unbuilt, start_begun, start_ready, start_error, start_waited,
  start_done, stop_idle, stop_begun, stop_cancels, stop_waited, reset_done, Work, sends, breaks,
  returns, closes, System, Step, calls, works, initial, Steps, here, later,
}
use langolier_bot.Tgclient.Lifecycle.Returns.{
  update-case, update_self, Grows, Move-Grows, Work-Grows, HasRun, Move-HasRun, Work-HasRun,
}

-- Every goroutine has ended, or every one but that of the run that is in the fields.
abbrev pub AllEnded : Memory → Type 0
AllEnded m = (k : ℕ) → k < m.next → (m.runs k).phase ≡ ended

abbrev pub OthersEnded : Memory → Type 0
OthersEnded m = (k : ℕ) → k < m.next → ((m.runs k).phase ≡ ended) ⊎ (m.client.current ≡ some k)

abbrev IsAlone : Memory → Pc → Type 0
IsAlone m (rest r) = OthersEnded m
IsAlone m (selecting k) = (m.client.current ≡ some k) × OthersEnded m
IsAlone m (failing k e) = (m.client.current ≡ some k) × OthersEnded m
IsAlone m (resetting r) = AllEnded m
IsAlone m (cancelling k) = (m.client.current ≡ some k) × OthersEnded m
IsAlone m (stopping k) = (m.client.current ≡ some k) × OthersEnded m

module _ (m m' : Memory) (g : Grows m m') (same : m'.next ≡ m.next)
    (current : m'.client.current ≡ m.client.current) where
  OthersEnded-stays : OthersEnded m → OthersEnded m'
  OthersEnded-stays h k lt = elim (h k (omega arith)) [
    | inl e ↦ inl ((g.1 k (omega arith)).0 e)
    | inr e ↦ inr (current ∙ e)
  ]

  AllEnded-stays : AllEnded m → AllEnded m'
  AllEnded-stays h k lt = (g.1 k (omega arith)).0 (h k (omega arith))

  IsAlone-stays : (p : Pc) → IsAlone m p → IsAlone m' p
  IsAlone-stays (rest r) h = OthersEnded-stays h
  IsAlone-stays (selecting k) h = (current ∙ h.0, OthersEnded-stays h.1)
  IsAlone-stays (failing k e) h = (current ∙ h.0, OthersEnded-stays h.1)
  IsAlone-stays (resetting r) h = AllEnded-stays h
  IsAlone-stays (cancelling k) h = (current ∙ h.0, OthersEnded-stays h.1)
  IsAlone-stays (stopping k) h = (current ∙ h.0, OthersEnded-stays h.1)

all_ended :
    (m : Memory) (k : ℕ)
    → m.client.current ≡ some k
    → OthersEnded m
    → (m.runs k).phase ≡ ended
    → AllEnded m
all_ended m k c h e j lt = elim (h j lt) [
  | inl d ↦ d
  | inr d ↦ let same : k ≡ j = cc in subst (λ i. (m.runs i).phase ≡ ended) same e
]

not_set : (m : Memory) (k : ℕ) → HasRun m → m.client.running ≡ false → m.client.current ≢ some k
not_set m k s off d = let on : m.client.running ≡ true = s.0 ∙ ap is_some d in cc

begin_run-OthersEnded :
    (m : Memory) → HasRun m → m.client.running ≡ false → OthersEnded m → OthersEnded (begin_run m)
unfolding begin
begin_run-OthersEnded m s off h k lt = elim (Bool-cases (nat_beq m.next k)) [
  | inl e ↦ inr (ap some ((nat_beq_iff m.next k).0 e))
  | inr e ↦
      update-case (λ (r : Run). (r.phase ≡ ended) ⊎ (some m.next ≡ some k)) m.runs m.next fresh_run
        k (λ q. inr (ap some q))
        (elim (h k (ground arith)) [ inl d ↦ inl d | inr d ↦ absurd (not_set m k s off d) ])
]

cancel-OthersEnded : (m : Memory) (k : ℕ) → OthersEnded m → OthersEnded (cancel k m)
cancel-OthersEnded m k h =
    OthersEnded-stays m (cancel k m) (Move-Grows {m = m} (stop_cancels k)) refl refl h

Move-IsAlone : {m m' : Memory} {p p' : Pc} → Move m p m' p' → HasRun m → IsAlone m p → IsAlone m' p'
unfolding begin reset
Move-IsAlone (start_refused r e) s h = h
Move-IsAlone (start_unbuilt r f e) s h = h
Move-IsAlone {m} (start_begun r e) s h = (refl, begin_run-OthersEnded m s e h)
Move-IsAlone (start_ready k e) s h = h.1
Move-IsAlone {m} (start_error k f e) s h = (h.0, cancel-OthersEnded m k h.1)
Move-IsAlone {m} (start_waited k f e) s h = all_ended m k h.0 h.1 e
Move-IsAlone {m} (start_done k e) s h =
    AllEnded-stays m (cancel k m) (Move-Grows {m = m} (stop_cancels k)) refl refl
      (all_ended m k h.0 h.1 e)
Move-IsAlone (stop_idle r e) s h = h
Move-IsAlone (stop_begun r k e c) s h = (c, h)
Move-IsAlone {m} (stop_cancels k) s h = (h.0, cancel-OthersEnded m k h.1)
Move-IsAlone {m} (stop_waited k e) s h = all_ended m k h.0 h.1 e
Move-IsAlone (reset_done r) s h = λ k lt. inl (h k lt)

Work-IsAlone :
    {m : Memory} (k : ℕ) {m' : Memory} (p : Pc) → Work m k m' → IsAlone m p → IsAlone m' p
Work-IsAlone {m} k p (sends err q r) h =
    IsAlone-stays m (with_run k (send_run err) m) (Work-Grows {m = m} k (sends err q r)) refl refl p
      h
Work-IsAlone {m} k p (breaks err q) h =
    IsAlone-stays m (with_run k (move_run recorded) (store_err err m))
      (Work-Grows {m = m} k (breaks err q)) refl refl p h
Work-IsAlone {m} k p (returns err q c) h =
    IsAlone-stays m (with_run k (move_run recorded) (store_err err m))
      (Work-Grows {m = m} k (returns err q c)) refl refl p h
Work-IsAlone {m} k p (closes q) h =
    IsAlone-stays m (with_run k (move_run ended) m) (Work-Grows {m = m} k (closes q)) refl refl p h

-- With one caller, calls follow one another.
pub Alone : System → Type 0
Alone s = HasRun s.memory × IsAlone s.memory (s.pc 0)

Step-Alone : {s t : System} → Step 1 s t → Alone s → Alone t
unfolding Alone
Step-Alone {s} (calls i {m} {p} lt mv) h =
    let zero : i ≡ 0 = omega arith in
    let before : IsAlone s.memory (s.pc i) =
      subst (λ j. IsAlone s.memory (s.pc j)) (sym zero) h.1 in
    let after : IsAlone m (update s.pc i p i) =
      subst (IsAlone m) (sym (update_self s.pc i p)) (Move-IsAlone mv h.0 before) in
    (Move-HasRun mv h.0, subst (λ j. IsAlone m (update s.pc i p j)) zero after)
Step-Alone {s} (works k lt w) h = (Work-HasRun k w h.0, Work-IsAlone k (s.pc 0) w h.1)

Steps-Alone : {s : System} → Steps 1 initial s → Alone s
unfolding Alone
Steps-Alone here = ((refl, λ k e. absurd cc), λ k lt. absurd (omega arith))
Steps-Alone (later r st) = Step-Alone st (Steps-Alone r)

OthersEnded-IsAlone : (m : Memory) (p : Pc) → IsAlone m p → OthersEnded m
OthersEnded-IsAlone m (rest r) h = h
OthersEnded-IsAlone m (selecting k) h = h.1
OthersEnded-IsAlone m (failing k e) h = h.1
OthersEnded-IsAlone m (resetting r) h = λ k lt. inl (h k lt)
OthersEnded-IsAlone m (cancelling k) h = h.1
OthersEnded-IsAlone m (stopping k) h = h.1

-- If the calls of Start and Stop follow one another, then while the client does not run, no goroutine
-- of a run is left; and while it runs, at most one is, that of the run whose stack is in the fields.
pub Steps-OneRun :
    (s : System)
    → Steps 1 initial s
    → OthersEnded s.memory × (s.memory.client.running ≡ false → AllEnded s.memory)
unfolding Alone
Steps-OneRun s r =
    let (set, alone) = Steps-Alone r in
    let others = OthersEnded-IsAlone s.memory (s.pc 0) alone in
    (
      others,
      λ off k lt. elim (others k lt) [ inl e ↦ e | inr e ↦ absurd (not_set s.memory k set off e) ],
    )
