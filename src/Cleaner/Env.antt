-- ===== src/Cleaner/Env.antt =====
-- internal/cleaner/cleaner.go: the interface TG, and the clock and context that the cleaner reads.
-- `W` is the state of everything outside the process that a call may read or change.
use langolier_bot.Base.{ℕ, Option, List, ◌≡◌, contains, nat_eq, true}
use langolier_bot.Base.Int.{ℤ}
use langolier_bot.Base.Text.{Text}
use langolier_bot.Base.Calls.{Answer, Visit}
use langolier_bot.Tgclient.Group.{Group}

-- ScanOwn returns the messages that it has handed to its callback, in order, and its error.
pub record Tg (W : Type 0) : Type 0 where
  pub group : W → ℤ → Option Group
  pub resolve_groups : W → Answer (List Group) × W
  pub scan_own : Group → W → (List Visit × Option Text) × W
  pub delete : Group → List ℕ → W → (List ℕ × Option Text) × W
  pub message_link : Group → ℕ → Text

-- What the client promises: the ids that `delete` returns as failed are among those that it was
-- given.
abbrev pub FailsWithin : {W : Type 0} → Tg W → Type 0
FailsWithin {W} tg =
    (g : Group) (ids : List ℕ) (w : W) (id : ℕ)
    → contains (tg.delete g ids w).0.0 id ≡ true
    → contains ids id ≡ true

-- time.Now, ctx.Err, and a wait of some length: it returns the error of the context if that is done
-- before the time is up.
pub record Host (W : Type 0) : Type 0 where
  pub now : W → ℕ
  pub ctx_err : W → Option Text
  pub wait : ℕ → W → Option Text × W
