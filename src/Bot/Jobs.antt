-- ===== src/Bot/Jobs.antt =====
-- internal/bot/bot.go: the bodies of what the handlers start with `go`, and what the client calls when
-- it is ready. Each is one step here, from the state in which it begins.
use langolier_bot.Base.{Option, none, some, List, [], ◌∷◌, ◌++◌, true, if◌then◌else◌}
use langolier_bot.Base.Int.{ℤ, pos, ltb_ℤ}
use langolier_bot.Base.Maps.{Map}
use langolier_bot.Base.Text.{Text, codes}
use langolier_bot.Base.Calls.{Answer}
use langolier_bot.Chatcfg.Config.{Config}
use langolier_bot.Chatcfg.Store.{list}
use langolier_bot.Tgclient.Group.{Group}
use langolier_bot.Tgclient.Updates.{Callbacks, set_on_membership}
use langolier_bot.Cleaner.State.{Cleaner, Spawn, run}
use langolier_bot.Cleaner.Sweep.{Report}
use langolier_bot.Cleaner.Drain.{enable_chat, purge_now}
use langolier_bot.Bot.State.{
  System, Output, enables, reconciles, Api, Handled, and_then, say, on_bot, drain_chan,
}
use langolier_bot.Bot.Menus.{format_report}
use langolier_bot.Bot.Commands.{group_title, spawn_all, run_reconcile}

-- Attach: the bot takes the pokes of the client.
unfoldable pub attach : Callbacks → Callbacks
unfolding set_on_membership
attach fns = set_on_membership fns

-- Start, before the updates come in.
unfoldable pub start : {W : Type 0} → System W → Handled W
start s = say (codes "Service bot ready. Send /start to launch the user client.") s

-- The end of the goroutine of cmdStart, for the result of the client's Start.
unfoldable pub start_done : {W : Type 0} → Option Text → System W → Handled W
start_done (some e) s = say (codes "Start failed: " ++ (e ++ codes "\nSend /start to try again.")) s
start_done none s =
    say (codes "User client authorized and running.") (on_bot (λ b. record b { running = true }) s)

-- The chats whose TTL is positive, for each of which onReady starts a scan.
unfoldable pub enable_all : Map ℤ Config → List Output
enable_all [] = []
enable_all ((marked, cfg) ∷ m) =
    let rest = enable_all m in if ltb_ℤ (pos 0) cfg.ttl_minutes then enables marked ∷ rest else rest

pub data Wake : Type 0 where
  timer poke : Wake

module _ {W : Type 0} (api : Api W) where
  abbrev client_stopped : System W → Option Text × W → System W
  client_stopped s (err, w) = record s { world = w }

  -- Stop, which drops the error of the client.
  unfoldable pub stop : System W → System W
  stop s = client_stopped s (api.stop_client s.world)

  abbrev resolved : System W → Answer (List Group) × W → System W
  resolved s (answer, w) = record s { world = w }

  -- The cleaner's goroutine starts before the chats are resolved; an error of ResolveGroups is logged.
  abbrev readied : System W → Cleaner × List Spawn → Handled W
  readied s (cl, jobs) = (
    resolved (record s { cl = cl }) (api.tg.resolve_groups s.world),
    spawn_all jobs ++ (enable_all (list s.cfg) ++ reconciles ∷ []),
  )

  unfoldable pub on_ready : System W → Handled W
  on_ready s = readied s (run s.cl)

  -- A round of reconcileLoop: after a tick of the timer, or after a poke, which takes all pokes.
  unfoldable pub tick : System W → Handled W
  tick s = run_reconcile api s

  unfoldable pub poked_round : System W → Handled W
  poked_round s = run_reconcile api (on_bot drain_chan s)

  -- What a round of reconcileLoop waits for.
  abbrev round : Wake → System W → Handled W
  round timer s = tick s
  round poke s = poked_round s

  -- reconcileLoop, until its context is done: before each round the other goroutines go on.
  unfoldable pub reconcile_loop : List ((System W → System W) × Wake) → System W → Handled W
  unfolding tick poked_round
  reconcile_loop [] s = (s, [])
  reconcile_loop ((others, wake) ∷ rounds) s =
      and_then (round wake (others s)) (reconcile_loop rounds)

  abbrev pub reported : Text → Text → System W → (Report × Option Text) × Cleaner × W → Handled W
  reported failure kind s ((rep, some e), cl, w) =
      say (failure ++ e) (record s { cl = cl; world = w })
  reported failure kind s ((rep, none), cl, w) =
      say (format_report kind rep) (record s { cl = cl; world = w })

  unfoldable pub clean_history : ℤ → System W → Handled W
  clean_history marked s =
      reported (codes "History cleanup failed: ") (codes "History cleanup") s
        (purge_now api.tg api.host s.cfg marked s.cl s.world)

  unfoldable pub purge_chat : ℤ → System W → Handled W
  purge_chat marked s =
      reported (codes "Purge error: ") (codes "Purge") s
        (purge_now api.tg api.host s.cfg marked s.cl s.world)

  abbrev pub scanned : ℤ → System W → Option Text × Cleaner × W → Handled W
  scanned marked s (some e, cl, w) =
      say (codes "History scan failed: " ++ e) (record s { cl = cl; world = w })
  scanned marked s (none, cl, w) =
      let t = record s { cl = cl; world = w } in
      say (codes "History scan complete for " ++ (group_title api t marked ++ codes ".")) t

  unfoldable pub scan_chat : ℤ → System W → Handled W
  scan_chat marked s = scanned marked s (enable_chat api.tg api.host marked s.cl s.world)

  -- A scan that onReady has started; its error is logged.
  abbrev enabled : System W → Option Text × Cleaner × W → System W
  enabled s (err, cl, w) = record s { cl = cl; world = w }

  unfoldable pub enable_job : ℤ → System W → System W
  enable_job marked s = enabled s (enable_chat api.tg api.host marked s.cl s.world)
