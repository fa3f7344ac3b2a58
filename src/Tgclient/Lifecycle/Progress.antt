-- ===== src/Tgclient/Lifecycle/Progress.antt =====
-- internal/tgclient/tgclient.go: no call of Start or Stop is stuck.
use langolier_bot.Base.{
  ℕ, ◌<◌, none, some, true, ◌≡◌, ◌≢◌, ◌⊎◌, refl, sym, ap, ◌∙◌, subst, inl, inr, Option-cases,
}
use langolier_bot.Tgclient.Lifecycle.{
  Fault, Phase, working, recorded, ended, update, Memory, with_run, move_run, send_run, cancel_run,
  store_err, cancel, reset_client, Result, started, Pc, rest, selecting, failing, resetting,
  cancelling, stopping, Move, start_ready, start_error, start_waited, start_done, stop_cancels,
  stop_waited, reset_done, Work, sends, breaks, returns, closes, System, initial, Steps,
}
use langolier_bot.Tgclient.Lifecycle.Returns.{
  update-case, update_self, Knows, Steps-Inv, initial-Inv,
}

-- A step of a goroutine that the program can count on: the stack does not come back by itself.
abbrev pub IsWilling : {m : Memory} {k : ℕ} {m' : Memory} → Work m k m' → Type 0
IsWilling (breaks err e) = ⊥
IsWilling (sends err e r) = Unit
IsWilling (returns err e c) = Unit
IsWilling (closes e) = Unit

-- Steps of the caller `i`, and such steps of the goroutines.
pub data Orderly (i : ℕ) (s : System) : System → Type 0 where
  here : Orderly i s s
  calls_on :
      {t : System} {m : Memory} {p : Pc}
      → Orderly i s t
      → Move t.memory (t.pc i) m p
      → Orderly i s (record { memory = m; pc = update t.pc i p })
  works_on :
      {t : System} {m : Memory} (k : ℕ)
      → Orderly i s t
      → k < t.memory.next
      → (w : Work t.memory k m) → IsWilling w
      → Orderly i s (record t { memory = m })

Orderly-trans : {i : ℕ} {s t u : System} → Orderly i s t → Orderly i t u → Orderly i s u
Orderly-trans p here = p
Orderly-trans p (calls_on q mv) = calls_on (Orderly-trans p q) mv
Orderly-trans p (works_on k q lt w h) = works_on k (Orderly-trans p q) lt w h

Phase-cases : (p : Phase) → (p ≡ working) ⊎ ((p ≡ recorded) ⊎ (p ≡ ended))
Phase-cases working = inl refl
Phase-cases recorded = inr (inl refl)
Phase-cases ended = inr (inr refl)

-- A goroutine ends without a step of another caller.
Ends : ℕ → System → ℕ → Type 0
Ends i s k =
    (m : Memory) × Orderly i s (record s { memory = m })
    × ((m.runs k).phase ≡ ended)
    × (m.next ≡ s.memory.next)

phase-move : (m : Memory) (k : ℕ) (p : Phase) → ((with_run k (move_run p) m).runs k).phase ≡ p
phase-move m k p = ap (λ r. r.phase) (update_self m.runs k (move_run p (m.runs k)))

recorded-Ends :
    (i : ℕ) (s : System) (k : ℕ)
    → k < s.memory.next
    → (s.memory.runs k).phase ≡ recorded
    → Ends i s k
unfolding Ends
recorded-Ends i s k lt e = (
  with_run k (move_run ended) s.memory,
  works_on k here lt (closes e) tt,
  phase-move s.memory k ended,
  refl,
)

working-Ends :
    (i : ℕ) (s : System) (k : ℕ)
    → k < s.memory.next
    → (s.memory.runs k).is_cancelled ≡ true
    → (s.memory.runs k).phase ≡ working
    → Ends i s k
unfolding Ends
working-Ends i s k lt c e =
    let stored = store_err none s.memory in
    let back = with_run k (move_run recorded) stored in
    let (m, steps, over, next) =
      recorded-Ends i (record s { memory = back }) k lt (phase-move stored k recorded) in
    (m, Orderly-trans (works_on k here lt (returns none e c) tt) steps, over, next)

-- The goroutine of a run that has been cancelled.
run-Ends :
    (i : ℕ) (s : System) (k : ℕ)
    → k < s.memory.next
    → (s.memory.runs k).is_cancelled ≡ true
    → Ends i s k
unfolding Ends
run-Ends i s k lt c = elim (Phase-cases (s.memory.runs k).phase) [
  | inl e ↦ working-Ends i s k lt c e
  | inr (inl e) ↦ recorded-Ends i s k lt e
  | inr (inr e) ↦ (s.memory, here, e, refl)
]

-- A caller can return without a step of another caller, and without a failure of the stack.
abbrev pub CanReturn : System → ℕ → Type 0
CanReturn s i =
    (t : System) × Orderly i s t
    × ((r : Result) × (t.pc i ≡ rest r))
    × ((j : ℕ) → i ≢ j → t.pc j ≡ s.pc j)

module _ (i : ℕ) where
  -- If the caller can return after a step of its own, it can return.
  return_later :
      (s : System) (m : Memory) (p q : Pc)
      → s.pc i ≡ p
      → Move s.memory p m q
      → CanReturn (record { memory = m; pc = update s.pc i q }) i
      → CanReturn s i
  return_later s m p q e mv (t, steps, back, others) = (
    t,
    Orderly-trans (calls_on here (subst (λ x. Move s.memory x m q) (sym e) mv)) steps,
    back,
    λ j ne. others j ne ∙ update-case (λ x. x ≡ s.pc j) s.pc i q j (λ e. absurd (ne e)) refl,
  )

  reset-CanReturn : (s : System) (r : Result) → s.pc i ≡ resetting r → CanReturn s i
  reset-CanReturn s r e =
      let t : System = record { memory = reset_client s.memory; pc = update s.pc i (rest r) } in
      return_later s (reset_client s.memory) (resetting r) (rest r) e (reset_done r)
        (t, here, (r, update_self s.pc i (rest r)), λ j ne. refl)

  -- A caller that waits for a run which ends.
  waits-CanReturn :
      (s : System) (k : ℕ) (p : Pc)
      → Ends i s k
      → s.pc i ≡ p
      → ((m : Memory)
          → (m.runs k).phase ≡ ended
          → (m' : Memory) × (r : Result) × Move m p m' (resetting r))
      → CanReturn s i
  unfolding Ends
  waits-CanReturn s k p (m, steps, over, same) e next =
      let (m', r, mv) = next m over in
      let s1 : System = record s { memory = m } in
      let s2 : System = record { memory = m'; pc = update s.pc i (resetting r) } in
      let (t, more, back, others) =
        return_later s1 m' p (resetting r) e mv
          (reset-CanReturn s2 r (update_self s.pc i (resetting r))) in
      (t, Orderly-trans steps more, back, others)

  cancel_self : (m : Memory) (k : ℕ) → ((cancel k m).runs k).is_cancelled ≡ true
  cancel_self m k = ap (λ r. r.is_cancelled) (update_self m.runs k (cancel_run (m.runs k)))

  stopping-CanReturn :
      (s : System) (k : ℕ)
      → k < s.memory.next
      → (s.memory.runs k).is_cancelled ≡ true
      → s.pc i ≡ stopping k
      → CanReturn s i
  stopping-CanReturn s k lt c e =
      waits-CanReturn s k (stopping k) (run-Ends i s k lt c) e
        (λ m over. (m, _, stop_waited k over))

  failing-CanReturn :
      (s : System) (k : ℕ) (f : Fault)
      → k < s.memory.next
      → (s.memory.runs k).is_cancelled ≡ true
      → s.pc i ≡ failing k f
      → CanReturn s i
  failing-CanReturn s k f lt c e =
      waits-CanReturn s k (failing k f) (run-Ends i s k lt c) e
        (λ m over. (m, _, start_waited k f over))

  -- The run has become ready.
  ready-CanReturn :
      (s : System) (k : ℕ)
      → (s.memory.runs k).ready ≡ some none
      → s.pc i ≡ selecting k
      → CanReturn s i
  ready-CanReturn s k h e =
      return_later s s.memory (selecting k) (rest (started k)) e (start_ready k h) (
        record { memory = s.memory; pc = update s.pc i (rest (started k)) },
        here,
        (started k, update_self s.pc i (rest (started k))),
        λ j ne. refl,
      )

  -- The startup has failed: the run is cancelled and waited for.
  error-CanReturn :
      (s : System) (k : ℕ) (f : Fault)
      → k < s.memory.next
      → (s.memory.runs k).ready ≡ some (some f)
      → s.pc i ≡ selecting k
      → CanReturn s i
  error-CanReturn s k f lt h e =
      let t : System = record { memory = cancel k s.memory; pc = update s.pc i (failing k f) } in
      return_later s (cancel k s.memory) (selecting k) (failing k f) e (start_error k f h)
        (failing-CanReturn t k f lt (cancel_self s.memory k) (update_self s.pc i (failing k f)))

  -- Nothing has been sent yet: the goroutine gets ready, or it is about to end.
  silent-CanReturn :
      (s : System) (k : ℕ)
      → k < s.memory.next
      → (s.memory.runs k).ready ≡ none
      → s.pc i ≡ selecting k
      → CanReturn s i
  unfolding Ends
  silent-CanReturn s k lt h e = elim (Phase-cases (s.memory.runs k).phase) [
    | inl w ↦
        let m = with_run k (send_run none) s.memory in
        let (t, steps, back, others) =
          ready-CanReturn (record s { memory = m }) k
            (ap (λ r. r.ready) (update_self s.memory.runs k (send_run none (s.memory.runs k)))) e in
        (t, Orderly-trans (works_on k here lt (sends none w h) tt) steps, back, others)
    | inr (inl w) ↦
        waits-CanReturn s k (selecting k) (recorded-Ends i s k lt w) e
          (λ m over. (cancel k m, _, start_done k over))
    | inr (inr w) ↦
        waits-CanReturn s k (selecting k) (s.memory, here, w, refl) e
          (λ m over. (cancel k m, _, start_done k over))
  ]

  selecting-CanReturn :
      (s : System) (k : ℕ) → k < s.memory.next → s.pc i ≡ selecting k → CanReturn s i
  selecting-CanReturn s k lt e = elim (Option-cases (s.memory.runs k).ready) [
    | inl h ↦ silent-CanReturn s k lt h e
    | inr (none, h) ↦ ready-CanReturn s k h e
    | inr (some f, h) ↦ error-CanReturn s k f lt h e
  ]

  at-CanReturn : (s : System) (p : Pc) → s.pc i ≡ p → Knows s.memory p → CanReturn s i
  at-CanReturn s (rest r) e h = (s, here, (r, e), λ j ne. refl)
  at-CanReturn s (selecting k) e h = selecting-CanReturn s k h e
  at-CanReturn s (failing k f) e h = failing-CanReturn s k f h.0 h.1 e
  at-CanReturn s (resetting r) e h = reset-CanReturn s r e
  at-CanReturn s (cancelling k) e h =
      let m = cancel k s.memory in
      let t : System = record { memory = m; pc = update s.pc i (stopping k) } in
      return_later s m (cancelling k) (stopping k) e (stop_cancels k)
        (stopping-CanReturn t k h (cancel_self s.memory k) (update_self s.pc i (stopping k)))
  at-CanReturn s (stopping k) e h = stopping-CanReturn s k h.0 h.1 e

  -- No call of Start or Stop is stuck: from every state that the callers and the goroutines can reach,
  -- every caller can return by steps of its own and of a goroutine, while every other caller stays
  -- where it is. It takes no failure of the stack for this: the stack of a run comes back only when
  -- the context of the run has been cancelled.
  pub Steps-CanReturn : (n : ℕ) (s : System) → Steps n initial s → CanReturn s i
  Steps-CanReturn n s r = at-CanReturn s (s.pc i) refl ((Steps-Inv r initial-Inv).1 i)
