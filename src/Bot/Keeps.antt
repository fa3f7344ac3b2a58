-- ===== src/Bot/Keeps.antt =====
-- internal/bot/bot.go: what the handlers can do to the system. They change the cleaner and the world
-- by the moves of Bot/Moves, talk to the owner, and call the store for the chat of the conversation or
-- for an int64; a property that these leave alone is kept by every update, and what the handlers put
-- out deletes no messages of their choice.
-- The updates are those of the child Updates.
pub mod Updates
use langolier_bot.Base.{
  Bool, true, false, Option, List, [], ◌∷◌, ◌≡◌, refl, ◌⊎◌, inl, nat_beq, nat_eq, list_eq,
  if◌then◌else◌,
}
use langolier_bot.Base.Int.{ℤ, InInt64}
use langolier_bot.Base.Text.{Text}
use langolier_bot.Base.Calls.{Answer, got, failed}
use langolier_bot.Chatcfg.Store.{Codec}
use langolier_bot.Chatcfg.Spec.{Call, call}
use langolier_bot.Tgclient.Group.{Group}
use langolier_bot.Cleaner.State.{Cleaner, Spawn}
use langolier_bot.Cleaner.Reconcile.{ReconcileResult}
use langolier_bot.Cleaner.Stats.{stats}
use langolier_bot.Bot.State.{Bot, System, Keyboard, EditTarget, Api, Handled, and_then, say}
use langolier_bot.Bot.Moves.{
  Move, rewrites, resolves, stops, compares, after_move, IsHarmless, stop_error-IsHarmless,
  lines-IsHarmless, spawn_all-IsHarmless,
}
use langolier_bot.Cleaner.Own.Reconciling.{DeletesNothing, reconcile-DeletesNothing}
use langolier_bot.Base.Lists.{All, All-append}
use langolier_bot.Bot.Commands.{
  edited, stop_error, status_text, spawn_all, render, groups_shown, cmd_config, cmd_start, cmd_stop,
  reconciled, run_reconcile, cmd_status,
}

-- A chat that the store may be called for.
abbrev pub IsCallable : ℤ → Bot → Type 0
IsCallable marked b = (marked ≡ b.convo_chat) ⊎ InInt64 marked

pub record IsClosed {W : Type 0} (codec : Codec) (api : Api W) (P : System W → Type 0)
    : Type 0 where
  pub moves : (s : System W) (m : Move) → P s → P (after_move api m s)
  pub talks :
      (s : System W) (b : Bot)
      → b.owner_id ≡ s.bot.owner_id
      → (b.convo_chat ≡ s.bot.convo_chat) ⊎ InInt64 b.convo_chat
      → P s
      → P (record s { bot = b })
  pub stores :
      (s : System W) (marked : ℤ) (c : Call) (answer : Option Text)
      → IsCallable marked s.bot
      → P s
      → P (record s { cfg = (call codec s.cfg marked answer c).0 })

module _ {W : Type 0} (codec : Codec) (api : Api W) (P : System W → Type 0)
    (closed : IsClosed codec api P) where
  abbrev pub Kept : Handled W → Type 0
  Kept h = P h.0 × All IsHarmless h.1

  pub by_test : (b : Bool) (x y : Handled W) → Kept x → Kept y → Kept (if b then x else y)
  by_test true x y hx hy = hx
  by_test false x y hx hy = hy

  edited-Kept :
      (t : EditTarget) (text : Text) (k : Keyboard) (s : System W) (r : Bool × W)
      → P (record s { world = r.1 })
      → Kept (edited api t text k s r)
  edited-Kept t text k s (true, w) h = (h, (tt, tt))
  edited-Kept t text k s (false, w) h = (h, (tt, tt))

  pub render-Kept :
      (t : EditTarget) (text : Text) (k : Keyboard) (s : System W)
      → P s
      → Kept (render api t text k s)
  unfolding render
  render-Kept t text k s h =
      by_test (nat_beq t.msg_id 0) _ _ (h, (tt, tt))
        (edited-Kept t text k s (api.edit t s.world) (closed.moves s (rewrites t) h))

  groups_shown-Kept :
      (p : ℤ) (t : EditTarget) (s : System W) (r : Answer (List Group))
      → P s
      → Kept (groups_shown api p t s r)
  groups_shown-Kept p t s (failed e) h = (h, (tt, tt))
  groups_shown-Kept p t s (got []) h = (h, (tt, tt))
  groups_shown-Kept p t s (got (g ∷ gs)) h = render-Kept t _ _ s h

  pub cmd_config-Kept : (p : ℤ) (t : EditTarget) (s : System W) → P s → Kept (cmd_config api p t s)
  unfolding cmd_config
  cmd_config-Kept p t s h =
      by_test s.bot.running _ _ (groups_shown-Kept p t _ _ (closed.moves s resolves h))
        (h, (tt, tt))

  pub cmd_start-Kept : (s : System W) → P s → Kept (cmd_start s)
  unfolding cmd_start
  cmd_start-Kept s h = by_test s.bot.running _ _ (h, (tt, tt)) (h, (tt, (tt, tt)))

  pub cmd_stop-Kept : (s : System W) → P s → Kept (cmd_stop api s)
  unfolding cmd_stop
  cmd_stop-Kept s h =
      by_test s.bot.running _ _
        (
          closed.talks _ (record s.bot { running = false }) refl (inl refl)
              (closed.moves s stops h),
          All-append IsHarmless (stop_error (api.stop_client s.world).0) _
              (stop_error-IsHarmless (api.stop_client s.world).0) (tt, tt),
        )
        (h, (tt, tt))

  reconciled-Kept :
      (s : System W) (r : Answer ReconcileResult × (Cleaner × List Spawn) × W)
      → P (record s { cl = r.1.0; world = r.2 })
      → All DeletesNothing r.1.1
      → Kept (reconciled api s r)
  reconciled-Kept s (failed e, (cl, jobs), w) h k = (h, spawn_all-IsHarmless jobs k)
  reconciled-Kept s (got res, (cl, jobs), w) h k = (
    h,
    All-append IsHarmless (spawn_all jobs) _ (spawn_all-IsHarmless jobs k)
        (lines-IsHarmless res.lost res.rejoined),
  )

  pub run_reconcile-Kept : (s : System W) → P s → Kept (run_reconcile api s)
  unfolding run_reconcile
  run_reconcile-Kept s h =
      reconciled-Kept s _ (closed.moves s compares h)
        (reconcile-DeletesNothing api.tg s.cfg s.cl s.world)

  says_also : (h : Handled W) (f : System W → Text) → Kept h → Kept (and_then h (λ t. say (f t) t))
  says_also h f k = (k.0, All-append IsHarmless h.1 _ k.1 (tt, tt))

  pub cmd_status-Kept : (s : System W) → P s → Kept (cmd_status api s)
  unfolding cmd_status
  cmd_status-Kept s h =
      says_also _ (λ t. status_text (stats api.tg t.cfg t.cl t.world))
        (by_test s.bot.running _ _ (run_reconcile-Kept s h) (h, tt))
