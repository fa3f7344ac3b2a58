-- ===== src/Tgclient/Lifecycle/Overlap.antt =====
-- internal/tgclient/tgclient.go: two calls of Stop that overlap, and a Start between their ends.
use langolier_bot.Base.{false, none, some, ◌≡◌, refl, arith}
use langolier_bot.Tgclient.Lifecycle.{
  working, no_call, started, stopped, rest, start_begun, start_ready, stop_begun, stop_cancels,
  stop_waited, reset_done, sends, returns, closes, System, calls, works, initial, Steps, here,
  later, cancelled, begin, reset,
}

-- Both callers have found run 0; the second resets the client after the first has started run 1. The
-- client then counts as stopped, Stop does nothing, and the goroutine of run 1 goes on.
overlapping_stops :
    (s : System) × Steps 2 initial s
    × (s.pc 0 ≡ rest (started 1))
    × (s.memory.client.running ≡ false)
    × ((s.memory.runs 1).phase ≡ working)
unfolding begin reset
overlapping_stops =
    let p0 : Steps 2 initial initial = here in
    let p1 = later p0 (calls 0 (omega arith) (start_begun no_call refl)) in
    let p2 = later p1 (works 0 (omega arith) (sends none refl refl)) in
    let p3 = later p2 (calls 0 (omega arith) (start_ready 0 refl)) in
    let p4 = later p3 (calls 0 (omega arith) (stop_begun (started 0) 0 refl refl)) in
    let p5 = later p4 (calls 1 (omega arith) (stop_begun no_call 0 refl refl)) in
    let p6 = later p5 (calls 0 (omega arith) (stop_cancels 0)) in
    let p7 = later p6 (calls 1 (omega arith) (stop_cancels 0)) in
    let p8 = later p7 (works 0 (omega arith) (returns (some cancelled) refl refl)) in
    let p9 = later p8 (works 0 (omega arith) (closes refl)) in
    let q1 = later p9 (calls 0 (omega arith) (stop_waited 0 refl)) in
    let q2 = later q1 (calls 0 (omega arith) (reset_done (stopped 0 none))) in
    let q3 = later q2 (calls 0 (omega arith) (start_begun (stopped 0 none) refl)) in
    let q4 = later q3 (works 1 (omega arith) (sends none refl refl)) in
    let q5 = later q4 (calls 0 (omega arith) (start_ready 1 refl)) in
    let q6 = later q5 (calls 1 (omega arith) (stop_waited 0 refl)) in
    let q7 = later q6 (calls 1 (omega arith) (reset_done (stopped 0 none))) in
    (_, q7, refl, refl, refl)
