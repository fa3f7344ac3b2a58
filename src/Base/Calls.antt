-- ===== src/Base/Calls.antt =====
-- What a call that leaves the process returns, and the messages that the client reports.
use Prim.Native.Nat.{ℕ}
use langolier_bot.Base.Text.{Text}

pub data Answer {ℓ} (A : Type ℓ) : Type ℓ where
  got : A → Answer A
  failed : Text → Answer A

-- A message is its id and its send time, in nanoseconds since the epoch.
abbrev pub Visit : Type 0
Visit = ℕ × ℕ
