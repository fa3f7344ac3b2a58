-- ===== src/Tgclient/Auth.antt =====
-- internal/tgclient/tgclient.go: authorize and retryPassword. `flow` stands for gotd's IfNecessary with
-- a new flow, `ask` for the relay's AskPassword, and `password` for gotd's Password. The
-- hint that retryPassword asks Telegram for is a part of `ask`.
use langolier_bot.Base.{ℕ, zero, suc, ◌+◌, ◌≤◌, ◌<◌, Option, none, some, ◌≡◌, ◌≢◌, refl, arith}
use langolier_bot.Base.Text.{Text}
use langolier_bot.Base.Calls.{Answer, got, failed}

-- The errors that the source tells apart: AUTH_RESTART, auth.ErrPasswordInvalid, and the others.
pub data Failure : Type 0 where
  auth_restart password_invalid : Failure
  failure : Text → Failure

abbrev pub Attempt : Type 0 → Type 0
Attempt W = Option Failure × W

abbrev pub auth_restart_limit : ℕ
auth_restart_limit = 3

module _ {W : Type 0} (flow : W → Attempt W) (ask : W → Answer Text × W)
    (password : Text → W → Attempt W) where
  -- The attempts that are left after an attempt.
  unfoldable pub restarts : ℕ → Attempt W → Attempt W
  restarts zero (err, w) = (err, w)
  restarts (suc n) (none, w) = (none, w)
  restarts (suc n) (some auth_restart, w) = restarts n (flow w)
  restarts (suc n) (some password_invalid, w) = (some password_invalid, w)
  restarts (suc n) (some (failure e), w) = (some (failure e), w)

  abbrev pub enter : Answer Text × W → Attempt W
  enter (failed e, w) = (some (failure e), w)
  enter (got pw, w) = password pw w

  -- What follows an attempt with a password: another one if the password was wrong.
  abbrev pub unless_wrong : (W → Option (Attempt W)) → Attempt W → Option (Attempt W)
  unless_wrong retry (none, w) = some (none, w)
  unless_wrong retry (some auth_restart, w) = some (some auth_restart, w)
  unless_wrong retry (some password_invalid, w) = retry w
  unless_wrong retry (some (failure e), w) = some (some (failure e), w)

  -- The loop, with fuel; `none` means that the fuel has run out.
  unfoldable pub retry_password : ℕ → W → Option (Attempt W)
  retry_password zero w = none
  retry_password (suc fuel) w = unless_wrong (retry_password fuel) (enter (ask w))

  unfoldable pub authorize : ℕ → W → Option (Attempt W)
  authorize fuel w = unless_wrong (retry_password fuel) (restarts auth_restart_limit (flow w))

  restarts-attempts :
      (runs : W → ℕ) (n : ℕ) (r : Attempt W)
      → ((w : W) → runs (flow w).1 ≡ suc (runs w))
      → (runs r.1 ≤ runs (restarts n r).1)
        × (runs (restarts n r).1 ≤ runs r.1 + n)
        × ((restarts n r).0 ≡ some auth_restart → runs (restarts n r).1 ≡ runs r.1 + n)
  unfolding restarts
  restarts-attempts runs zero (err, w) h = (omega arith, omega arith, λ e. omega arith)
  restarts-attempts runs (suc n) (none, w) h = (omega arith, omega arith, λ e. absurd cc)
  restarts-attempts runs (suc n) (some auth_restart, w) h =
      let (least, most, all) = restarts-attempts runs n (flow w) h in
      (omega (arith, h w, least), omega (arith, h w, most), λ e. omega (arith, h w, all e))
  restarts-attempts runs (suc n) (some password_invalid, w) h =
      (omega arith, omega arith, λ e. absurd cc)
  restarts-attempts runs (suc n) (some (failure e'), w) h =
      (omega arith, omega arith, λ e. absurd cc)

  -- However Telegram answers, authorize runs the flow at least once and at most four times, and what
  -- it goes on with is AUTH_RESTART only after four times.
  pub restarts-flows :
      (runs : W → ℕ) (w : W)
      → ((w : W) → runs (flow w).1 ≡ suc (runs w))
      → let (err, w') = restarts auth_restart_limit (flow w) in
        (runs w < runs w')
        × (runs w' ≤ runs w + 4)
        × (err ≡ some auth_restart → runs w' ≡ runs w + 4)
  restarts-flows runs w h =
      let (least, most, all) = restarts-attempts runs auth_restart_limit (flow w) h in
      (omega (arith, h w, least), omega (arith, h w, most), λ e. omega (arith, h w, all e))

  abbrev pub IsSettled : Option (Attempt W) → Type 0
  IsSettled r =
      (err : Option Failure) × (w : W) × (r ≡ some (err, w)) × (err ≢ some password_invalid)

  unless_wrong-IsSettled :
      (retry : W → Option (Attempt W)) (r : Attempt W)
      → (r.0 ≡ some password_invalid → IsSettled (retry r.1))
      → IsSettled (unless_wrong retry r)
  unless_wrong-IsSettled retry (none, w) h = (none, w, refl, λ e. cc)
  unless_wrong-IsSettled retry (some auth_restart, w) h = (some auth_restart, w, refl, λ e. cc)
  unless_wrong-IsSettled retry (some password_invalid, w) h = h refl
  unless_wrong-IsSettled retry (some (failure t), w) h = (some (failure t), w, refl, λ e. cc)

  retry-IsSettled :
      (wrong : W → ℕ) (fuel : ℕ) (w : W)
      → ((w : W) → (enter (ask w)).0 ≡ some password_invalid → wrong (enter (ask w)).1 < wrong w)
      → wrong w < fuel
      → IsSettled (retry_password fuel w)
  unfolding retry_password
  retry-IsSettled wrong zero w h f = absurd (omega arith)
  retry-IsSettled wrong (suc fuel) w h f =
      unless_wrong-IsSettled (retry_password fuel) (enter (ask w))
        (λ e. retry-IsSettled wrong fuel (enter (ask w)).1 h (omega (arith, h w e)))

  -- If only finitely many wrong passwords are entered, authorize returns, and not with the error of a
  -- wrong password: a wrong password is never what a start fails with.
  pub authorize-IsSettled :
      (wrong : W → ℕ) (fuel : ℕ) (w : W)
      → ((w : W) → (enter (ask w)).0 ≡ some password_invalid → wrong (enter (ask w)).1 < wrong w)
      → wrong (restarts auth_restart_limit (flow w)).1 < fuel
      → IsSettled (authorize fuel w)
  unfolding authorize
  authorize-IsSettled wrong fuel w h f =
      unless_wrong-IsSettled (retry_password fuel) (restarts auth_restart_limit (flow w))
        (λ e. retry-IsSettled wrong fuel (restarts auth_restart_limit (flow w)).1 h f)
