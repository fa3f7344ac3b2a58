-- ===== src/Program/Keeps/Events.antt =====
-- cmd/langolier/main.go: every event, and so every run of the program, keeps a property that lasts.
use langolier_bot.Base.{
  ℕ, suc, Option, none, some, List, [], ◌∷◌, take, drop, get_elem?, keep, Bool-cases, inl, inr,
  refl, arith,
}
use langolier_bot.Base.Int.{ℤ, pos, ltb_ℤ}
use langolier_bot.Base.Lists.{All, All-append, All-take, All-drop, All-keep, All-get_elem?}
use langolier_bot.Base.Text.{Text}
use langolier_bot.Chatcfg.Store.{Codec, list}
use langolier_bot.Tgclient.Updates.{Callbacks, handle}
use langolier_bot.Cleaner.State.{Cleaner, run}
use langolier_bot.Chatcfg.Config.{Config}
use langolier_bot.Base.Maps.{Map}
use langolier_bot.Bot.State.{
  System, Output, Api, Handled, reconciles, drain_chan, ask, ask_phone, ask_code, ask_password,
  take_reply, asked, on_bot, clear_pending,
}
use langolier_bot.Bot.Commands.{spawn_all, run_reconcile}
use langolier_bot.Bot.Handlers.{on_update}
use langolier_bot.Bot.Moves.{resolves}
use langolier_bot.Bot.Keeps.{run_reconcile-Kept}
use langolier_bot.Bot.Keeps.Updates.{on_update-Kept}
use langolier_bot.Bot.Jobs.{start_done, enable_all, on_ready, tick, poked_round}
use langolier_bot.Program.{
  Running, Question, phone, code, password, Event, updated, told, questions, replied, came_up,
  readied, swept, loop_left, ticked, poked, goes, ask_owner, happen, left, is_goroutine, step,
  taken,
}
use langolier_bot.Program.Keeps.{IsLasting, IsHonest, PutsOwn, handle-CallsOwn}
use langolier_bot.Program.Keeps.Bodies.{Safe, Kept-Safe, call_all-Safe, run_job-Safe}

module _ {W : Type 0} (codec : Codec) (api : Api W) (fns : Callbacks) where
  -- The state after a list of events.
  abbrev pub after_all : List Event → Running W → Running W
  after_all [] r = r
  after_all (e ∷ es) r = after_all es (step codec api fns e r)

  module _ (K : ℤ → ℕ → Type 0) (P : System W → Type 0) (lasting : IsLasting codec api K P) where
    abbrev SafeNow : Handled W → Type 0
    SafeNow h = Safe codec api fns K P lasting h

    abbrev Puts : Output → Type 0
    Puts o = PutsOwn K o

    ask_owner-Safe : (q : Question) (s : System W) → P s → SafeNow (ask_owner codec api fns q s)
    unfolding ask_owner ask_phone ask_code ask_password ask
    ask_owner-Safe phone s h = (lasting.closed.talks s _ refl (inl refl) h, (tt, tt))
    ask_owner-Safe code s h = (lasting.closed.talks s _ refl (inl refl) h, (tt, tt))
    ask_owner-Safe (password hint) s h = (lasting.closed.talks s _ refl (inl refl) h, (tt, tt))

    replied-Safe :
        (reply : Option (Option Text)) (s : System W)
        → P s
        → SafeNow (taken codec api fns s (asked reply s.bot))
    unfolding clear_pending
    replied-Safe none s h = (h, tt)
    replied-Safe (some none) s h = (h, tt)
    replied-Safe (some (some v)) s h = (lasting.closed.talks s _ refl (inr (omega arith)) h, tt)

    start_done-Safe : (err : Option Text) (s : System W) → P s → SafeNow (start_done err s)
    unfolding start_done
    start_done-Safe none s h = (lasting.closed.talks s _ refl (inl refl) h, (tt, tt))
    start_done-Safe (some e) s h = (h, (tt, tt))

    enable_all-own : (m : Map ℤ Config) → All Puts (enable_all m)
    unfolding enable_all
    enable_all-own [] = tt
    enable_all-own ((marked, cfg) ∷ m) = elim (Bool-cases (ltb_ℤ (pos 0) cfg.ttl_minutes)) [
      | inl e ↦ rw e (tt, enable_all-own m)
      | inr e ↦ rw e (enable_all-own m)
    ]

    run-own : (c : Cleaner) → All Puts (spawn_all (run c).1)
    unfolding run spawn_all
    run-own c = elim (Bool-cases c.looping) [
      | inl e ↦ rw (run, e) tt
      | inr e ↦ rw (run, e) (tt, tt)
    ]

    on_ready-Safe : (s : System W) → P s → SafeNow (on_ready api s)
    unfolding on_ready
    on_ready-Safe s h = (
      lasting.closed.moves (record s { cl = (run s.cl).0 }) resolves (lasting.runs s h),
      All-append Puts (spawn_all (run s.cl).1) _ (run-own s.cl) (
          All-append Puts (enable_all (list s.cfg)) (reconciles ∷ []) (enable_all-own (list s.cfg))
            (tt, tt)),
    )

    rounds-Safe : (s : System W) → P s → SafeNow (tick api s)
    unfolding tick
    rounds-Safe s h =
        Kept-Safe codec api fns K P lasting (run_reconcile api s)
          (run_reconcile-Kept codec api P lasting.closed s h)

    happen-Safe :
        (e : Event) (jobs : List Output) (s : System W)
        → IsHonest K e
        → All Puts jobs
        → P s
        → SafeNow (happen codec api fns e jobs s)
    unfolding happen poked_round tick drain_chan take_reply
    happen-Safe (updated u) jobs s k p h =
        Kept-Safe codec api fns K P lasting (on_update codec api u s)
          (on_update-Kept codec api P lasting.closed u s h)
    happen-Safe (told u) jobs s k p h =
        call_all-Safe codec api fns K P lasting (handle fns u) s (handle-CallsOwn K fns u k) h
    happen-Safe (questions q) jobs s k p h = ask_owner-Safe q s h
    happen-Safe replied jobs s k p h = replied-Safe s.bot.auth_reply s h
    happen-Safe (came_up err) jobs s k p h = start_done-Safe err s h
    happen-Safe readied jobs s k p h = on_ready-Safe s h
    happen-Safe swept jobs s k p h = (lasting.sweeps s h, tt)
    happen-Safe loop_left jobs s k p h = (lasting.ends s h, tt)
    happen-Safe ticked jobs s k p h = rounds-Safe s h
    happen-Safe poked jobs s k p h =
        rounds-Safe (on_bot drain_chan s) (lasting.closed.talks s _ refl (inl refl) h)
    happen-Safe (goes n) jobs s k p h =
        run_job-Safe codec api fns K P lasting (get_elem? jobs n) s (All-get_elem? Puts jobs n p) h

    left-own :
        (e : Event) (jobs : List Output) → All Puts jobs → All Puts (left codec api fns e jobs)
    left-own (goes n) jobs h =
        All-append Puts (take n jobs) (drop (suc n) jobs) (All-take Puts n jobs h)
          (All-drop Puts (suc n) jobs h)
    left-own (updated u) jobs h = h
    left-own (told u) jobs h = h
    left-own (questions q) jobs h = h
    left-own replied jobs h = h
    left-own (came_up err) jobs h = h
    left-own readied jobs h = h
    left-own swept jobs h = h
    left-own loop_left jobs h = h
    left-own ticked jobs h = h
    left-own poked jobs h = h

    -- The state is safe, and so are the goroutines that have not run.
    abbrev pub AllSafe : Running W → Type 0
    AllSafe r = P r.system × All Puts r.jobs

    pub step-AllSafe :
        (e : Event) (r : Running W) → IsHonest K e → AllSafe r → AllSafe (step codec api fns e r)
    unfolding step
    step-AllSafe e r k h =
        let one = happen-Safe e r.jobs r.system k h.1 h.0 in
        let out = (happen codec api fns e r.jobs r.system).1 in
        (
          one.0,
          All-append Puts (left codec api fns e r.jobs) (keep is_goroutine out)
              (left-own e r.jobs h.1) (All-keep Puts is_goroutine out one.1),
        )

    pub after_all-AllSafe :
        (es : List Event) (r : Running W)
        → All (IsHonest K) es
        → AllSafe r
        → AllSafe (after_all es r)
    after_all-AllSafe [] r k h = h
    after_all-AllSafe (e ∷ es) r k h =
        after_all-AllSafe es (step codec api fns e r) k.1 (step-AllSafe e r k.0 h)
