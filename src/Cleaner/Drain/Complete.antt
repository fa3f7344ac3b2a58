-- ===== src/Cleaner/Drain/Complete.antt =====
-- internal/cleaner/cleaner.go: drainChat deletes every message that is due, pass by pass.
use langolier_bot.Base.{
  ℕ, zero, suc, ◌+◌, ◌*◌, ◌-◌, ◌≤◌, ◌<◌, true, false, Option, none, List, [], ◌∷◌, ◌++◌, ◌≡◌, refl,
  sym, ap, ◌∙◌, subst, arith, length, take, drop, All, take-append-drop, length-drop, length_cut,
  ◌⊎◌, inl, inr,
}
use mathlib.Core.List.{append-nil}
use native.Mathlib.Nat.{suc-mul}
use langolier_bot.Base.Int.{ℤ, pos, leb_ℤ}
use langolier_bot.Base.Text.{Text}
use langolier_bot.Base.Calls.{Visit}
use langolier_bot.Chatcfg.Config.{ttl}
use langolier_bot.Chatcfg.Store.{Store, get}
use langolier_bot.Tgclient.Group.{Group}
use langolier_bot.Tgclient.Scan.History.{IsHistory, All-split}
use langolier_bot.Cleaner.Env.{Tg, Host}
use langolier_bot.Cleaner.State.{Cleaner, mark_active}
use langolier_bot.Cleaner.Sweep.{Report, is_due}
use langolier_bot.Cleaner.Drain.{
  drain_pass, drain_loop, drain_chat, max_drain_passes, Pass, stop, again, no_report, resolve_group,
}
use langolier_bot.Cleaner.Drain.Windows.{take_window, IsHistory-left}
use langolier_bot.Cleaner.Drain.Passes.{IsQuiet, AlwaysDue, Ends, Stops, pass-Ends, last-Stops}

module _ {W : Type 0} (tg : Tg W) (host : Host W) (marked : ℤ) (g : Group) (window : ℕ)
    (own : W → List Visit) (s : IsQuiet tg host marked g window own) (t : ℤ)
    (young : List Visit) where
  -- A drain has ended without an error, has deleted `n` messages, and has left the young ones.
  abbrev Drained : ℕ → (Report × Option Text) × Cleaner × W → Type 0
  Drained n r = (r.0.1 ≡ none) × (r.0.0.deleted ≡ n) × (own r.2 ≡ young)

  abbrev after_pass : ℕ → Pass W → (Report × Option Text) × Cleaner × W
  after_pass left p = elim p [
    | stop rep err c w ↦ ((rep, err), c, w)
    | again rep oldest c w ↦ drain_loop tg host left g marked t oldest rep c w
  ]

  after_stop-Drained :
      (left : ℕ) (n : ℕ) (p : Pass W)
      → Stops tg host marked g window own s young n p
      → Drained n (after_pass left p)
  after_stop-Drained left n (stop rep err c w) h = h
  after_stop-Drained left n (again rep oldest c w) h = absurd h

  after_again-Drained :
      (left : ℕ) (rest : List Visit) (n m : ℕ) (p : Pass W)
      → Ends tg host marked g window own s (young ++ rest) rest n p
      → ((rep : Report) (oldest : ℕ) (c : Cleaner) (w : W)
          → rep.deleted ≡ n
          → own w ≡ young ++ rest
          → All (λ (v : Visit). v.0 < oldest) rest
          → Drained m (drain_loop tg host left g marked t oldest rep c w))
      → Drained m (after_pass left p)
  after_again-Drained left rest n m (stop rep err c w) h rec = absurd h
  after_again-Drained left rest n m (again rep oldest c w) h rec = rec rep oldest c w h.0 h.1 h.2

  -- The due messages that are left, and what is known of them before a pass.
  abbrev Remains : ℕ → ℕ → List Visit → W → Type 0
  Remains left prev due w =
      (own w ≡ young ++ due)
      × IsHistory (young ++ due)
      × AlwaysDue host t true due
      × (length due ≤ left * (window - length young))
      × ((prev ≡ 0) ⊎ All (λ (v : Visit). v.0 < prev) due)

  module _ (lt : length young < window) (hy : AlwaysDue host t false young) where
    -- What a pass over the due messages `d ∷ more` leaves for the passes that follow.
    rest-Remains :
        (left prev k : ℕ) (d : Visit) (ds : List Visit) (w w' : W) (oldest : ℕ)
        → window - length young ≡ suc k
        → Remains (suc left) prev (d ∷ ds) w
        → own w' ≡ young ++ drop k ds
        → All (λ (v : Visit). v.0 < oldest) (drop k ds)
        → Remains left oldest (drop k ds) w'
    rest-Remains left prev k d ds w w' oldest size (o, h, hd, le, q) o' q' =
        let cut = sym (take-append-drop k ds) in
        (
          o',
          IsHistory-left young (d ∷ take k ds) (drop k ds)
              (subst (λ x. IsHistory (young ++ (d ∷ x))) cut h),
          λ u.
              (All-split (λ (v : Visit). is_due t (host.now u) v.1 ≡ true) (take k ds) (drop k ds)
                (subst (All (λ (v : Visit). is_due t (host.now u) v.1 ≡ true)) cut (hd u).1)).1,
          omega (arith, length-drop k ds, suc-mul left (window - length young)),
          inr q',
        )

    drain_loop-Drained :
        (left prev : ℕ) (due : List Visit) (rep : Report) (c : Cleaner) (w : W)
        → Remains left prev due w
        → Drained (rep.deleted + length due) (drain_loop tg host left g marked t prev rep c w)
    unfolding drain_loop
    drain_loop-Drained zero prev [] rep c w r = (refl, omega arith, r.0 ∙ append-nil young)
    drain_loop-Drained zero prev (d ∷ ds) rep c w r = absurd (omega (arith, r.3))
    drain_loop-Drained (suc left) prev [] rep c w r =
        after_stop-Drained left (rep.deleted + 0) (drain_pass tg host g marked t prev rep c w) (
          subst
            (λ n.
              Stops tg host marked g window own s young n
                (drain_pass tg host g marked t prev rep c w))
            (omega arith)
            (last-Stops tg host marked g window own s young t prev rep c w (omega arith) hy r.0))
    drain_loop-Drained (suc left) prev (d ∷ ds) rep c w r =
        let k = window - length young - 1 in
        let size : (window - length young ≡ suc k) = omega arith in
        let cut = sym (take-append-drop k ds) in
        after_again-Drained left (drop k ds) (rep.deleted + suc (length (take k ds)))
          (rep.deleted + suc (length ds)) (drain_pass tg host g marked t prev rep c w)
          (pass-Ends tg host marked g window own s young (take k ds) (drop k ds) d t
            (subst (λ x. IsHistory (young ++ (d ∷ x))) cut r.1) hy
            (λ u. (
              (r.2 u).0,
              (All-split (λ (v : Visit). is_due t (host.now u) v.1 ≡ true) (take k ds) (drop k ds)
                  (subst (All (λ (v : Visit). is_due t (host.now u) v.1 ≡ true)) cut (r.2 u).1)).0,
            ))
            prev rep c w (r.0 ∙ ap (λ x. young ++ (d ∷ x)) cut)
            (rw r.0 (
              take_window window young (d ∷ ds) (omega arith)
              ∙ ap (λ n. young ++ take n (d ∷ ds)) size))
            (elim r.4 [ inl z ↦ inl z | inr q ↦ inr q.0 ]))
          (λ rep' oldest c' w' e o q.
            subst (λ n. Drained n (drain_loop tg host left g marked t oldest rep' c' w'))
              (omega (arith, e, length_cut k ds))
              (drain_loop-Drained left oldest (drop k ds) rep' c' w'
                (rest-Remains left prev k d ds w w' oldest size r o q)))

-- A chat with a positive TTL has some messages that are due, whatever the clock shows, and newer ones
-- that never are. The search shows the newest `window` messages, more than the young ones; the server
-- deletes what it is asked to delete; nothing else changes the messages, and no context is done. If
-- there are no more due messages than fifty times what a search shows beside the young ones, then a
-- drain ends without an error, its report counts every due message, and the young ones are left.
pub drain_chat_complete :
    {W : Type 0} (tg : Tg W) (host : Host W) (cfg : Store) (marked : ℤ) (g : Group) (window : ℕ)
    (own : W → List Visit) (young due : List Visit) (c : Cleaner) (w : W)
    → IsQuiet tg host marked g window own
    → leb_ℤ (ttl (get cfg marked)) (pos 0) ≡ false
    → own w ≡ young ++ due
    → IsHistory (young ++ due)
    → AlwaysDue host (ttl (get cfg marked)) false young
    → AlwaysDue host (ttl (get cfg marked)) true due
    → length young < window
    → length due ≤ max_drain_passes * (window - length young)
    → let r = drain_chat tg host cfg marked c w in
      (r.0.1 ≡ none) × (r.0.0.deleted ≡ length due) × (own r.2 ≡ young)
unfolding drain_chat resolve_group
drain_chat_complete tg host cfg marked g window own young due c w s t o h hy hd lt le =
    rw (s.finds w, t, drain_chat, resolve_group)
      (let (ok, counted, left) =
          drain_loop-Drained tg host marked g window own s (ttl (get cfg marked)) young lt hy
            max_drain_passes 0 due (record no_report { title = g.title }) (mark_active marked c) w
            (o, h, hd, le, inl refl) in
        (ok, counted ∙ omega arith, left))
