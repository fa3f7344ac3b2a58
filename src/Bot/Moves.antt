-- ===== src/Bot/Moves.antt =====
-- internal/bot/bot.go: the calls with which the handlers change the cleaner and the world, and what
-- they put out without them.
use langolier_bot.Base.{List, [], ◌∷◌, ◌++◌, Option, none, some}
use langolier_bot.Base.Int.{ℤ}
use langolier_bot.Base.Text.{Text}
use langolier_bot.Base.Lists.{All, All-append}
use langolier_bot.Cleaner.State.{Cleaner, Spawn, disable_chat, reset}
use langolier_bot.Cleaner.Reconcile.{reconcile}
use langolier_bot.Cleaner.Own.Reconciling.{DeletesNothing}
use langolier_bot.Bot.State.{System, EditTarget, Output, spawns, Api}
use langolier_bot.Bot.Commands.{stop_error, lost_lines, rejoined_lines, spawn_all}

pub data Move : Type 0 where
  commits : Move
  rewrites : EditTarget → Move
  resolves : Move
  stops : Move
  leaves : ℤ → Move
  compares : Move

module _ {W : Type 0} (api : Api W) where
  abbrev pub cleaner_after : Move → System W → Cleaner
  cleaner_after stops s = reset s.cl
  cleaner_after (leaves marked) s = disable_chat marked s.cl
  cleaner_after compares s = (reconcile api.tg s.cfg s.cl s.world).1.0
  cleaner_after _ s = s.cl

  abbrev pub world_after : Move → System W → W
  world_after commits s = (api.commit s.world).1
  world_after (rewrites t) s = (api.edit t s.world).1
  world_after resolves s = (api.tg.resolve_groups s.world).1
  world_after stops s = (api.stop_client s.world).1
  world_after (leaves marked) s = s.world
  world_after compares s = (reconcile api.tg s.cfg s.cl s.world).2

  abbrev pub after_move : Move → System W → System W
  after_move m s = record s { cl = cleaner_after m s; world = world_after m s }

-- Everything but a goroutine that deletes given messages.
abbrev pub IsHarmless : Output → Type 0
IsHarmless (spawns j) = DeletesNothing j
IsHarmless other = Unit

pub stop_error-IsHarmless : (err : Option Text) → All IsHarmless (stop_error err)
stop_error-IsHarmless none = tt
stop_error-IsHarmless (some e) = (tt, tt)

lost_lines-IsHarmless : (ts : List Text) → All IsHarmless (lost_lines ts)
unfolding lost_lines
lost_lines-IsHarmless [] = tt
lost_lines-IsHarmless (t ∷ ts) = (tt, lost_lines-IsHarmless ts)

rejoined_lines-IsHarmless : (ts : List Text) → All IsHarmless (rejoined_lines ts)
unfolding rejoined_lines
rejoined_lines-IsHarmless [] = tt
rejoined_lines-IsHarmless (t ∷ ts) = (tt, rejoined_lines-IsHarmless ts)

pub lines-IsHarmless :
    (lost rejoined : List Text) → All IsHarmless (lost_lines lost ++ rejoined_lines rejoined)
lines-IsHarmless lost rejoined =
    All-append IsHarmless (lost_lines lost) (rejoined_lines rejoined) (lost_lines-IsHarmless lost)
      (rejoined_lines-IsHarmless rejoined)

pub spawn_all-IsHarmless :
    (jobs : List Spawn) → All DeletesNothing jobs → All IsHarmless (spawn_all jobs)
unfolding spawn_all
spawn_all-IsHarmless [] h = tt
spawn_all-IsHarmless (j ∷ jobs) h = (h.0, spawn_all-IsHarmless jobs h.1)
