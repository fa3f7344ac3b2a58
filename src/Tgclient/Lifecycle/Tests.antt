-- ===== src/Tgclient/Lifecycle/Tests.antt =====
-- The theorems on Start and Stop of internal/tgclient/tgclient.go at concrete inputs, and a trace.
use langolier_bot.Base.{ℕ, ◌<◌, false, none, some, ◌≡◌, refl, arith}
use langolier_bot.Tgclient.Lifecycle.{
  no_call, started, stopped, rest, stopping, start_begun, start_ready, stop_begun, stop_cancels,
  stop_waited, reset_done, sends, returns, closes, System, calls, works, initial, Steps, here,
  later, cancelled, begin, reset,
}
use langolier_bot.Tgclient.Lifecycle.Returns.{Returned, Steps-Returned}
use langolier_bot.Tgclient.Lifecycle.Api.{Agree, Steps-Agree}
use langolier_bot.Tgclient.Lifecycle.Alone.{AllEnded, OthersEnded, Steps-OneRun}
use langolier_bot.Tgclient.Lifecycle.Progress.{CanReturn, Steps-CanReturn}

-- The first of `n` callers has started a run and waits in Stop for its end.
stop_waits : (n : ℕ) → 0 < n → (s : System) × Steps n initial s × (s.pc 0 ≡ stopping 0)
unfolding begin reset
stop_waits n lt =
    let p0 : Steps n initial initial = here in
    let p1 = later p0 (calls 0 lt (start_begun no_call refl)) in
    let p2 = later p1 (works 0 (omega arith) (sends none refl refl)) in
    let p3 = later p2 (calls 0 lt (start_ready 0 refl)) in
    let p4 = later p3 (calls 0 lt (stop_begun (started 0) 0 refl refl)) in
    let p5 = later p4 (calls 0 lt (stop_cancels 0)) in (_, p5, refl)

-- The stack comes back cancelled, and Stop returns.
stops_one : (n : ℕ) → 0 < n → (s : System) × Steps n initial s × (s.pc 0 ≡ rest (stopped 0 none))
unfolding begin reset stop_waits
stops_one n lt =
    let p5 = (stop_waits n lt).1 in
    let p6 = later p5 (works 0 (omega arith) (returns (some cancelled) refl refl)) in
    let p7 = later p6 (works 0 (omega arith) (closes refl)) in
    let p8 = later p7 (calls 0 lt (stop_waited 0 refl)) in
    let p9 = later p8 (calls 0 lt (reset_done (stopped 0 none))) in (_, p9, refl)

Steps-Returned_example : Returned (stops_one 2 (omega arith)).0.memory (stopped 0 none)
Steps-Returned_example =
    Steps-Returned 2 (stops_one 2 (omega arith)).0 0 (stopped 0 none) (stops_one 2 (omega arith)).1
      (stops_one 2 (omega arith)).2

Steps-OneRun_example :
    OthersEnded (stops_one 1 (omega arith)).0.memory
    × ((stops_one 1 (omega arith)).0.memory.client.running ≡ false
        → AllEnded (stops_one 1 (omega arith)).0.memory)
Steps-OneRun_example = Steps-OneRun (stops_one 1 (omega arith)).0 (stops_one 1 (omega arith)).1

Steps-CanReturn_example : CanReturn (stop_waits 2 (omega arith)).0 0
Steps-CanReturn_example =
    Steps-CanReturn 0 2 (stop_waits 2 (omega arith)).0 (stop_waits 2 (omega arith)).1

Steps-Agree_example : Agree (stop_waits 2 (omega arith)).0.memory
Steps-Agree_example = Steps-Agree 2 (stop_waits 2 (omega arith)).0 (stop_waits 2 (omega arith)).1
