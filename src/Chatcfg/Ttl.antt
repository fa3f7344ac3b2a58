-- ===== src/Chatcfg/Ttl.antt =====
-- internal/chatcfg/chatcfg.go: the age threshold `Config.TTL` as a Duration.
use langolier_bot.Base.{ℕ, ◌≤◌, ◌<◌, ◌*◌, ◌-◌, ◌^◌, ◌≡◌, arith}
use langolier_bot.Base.Int.{pos, negsuc, ◌*ℤ◌, wrap64, wrap64-id}
use langolier_bot.Chatcfg.Config.{Config, minute, ttl}

-- The largest number of minutes whose Duration does not overflow: about 292 years.
abbrev pub max_minutes : ℕ
max_minutes = 153722867

scale : (n : ℕ) → pos n *ℤ minute ≡ pos (n * 60000000000)
scale n = ground arith

wrap64-upper : (m : ℕ) → 2 ^ 63 ≤ m → m < 2 ^ 64 → wrap64 (pos m) ≡ negsuc (2 ^ 64 - 1 - m)
unfolding wrap64
wrap64-upper m l h = ground arith

-- Up to `max_minutes` minutes the threshold is exactly that many minutes, in nanoseconds.
pub ttl_exact :
    (c : Config) (n : ℕ) → c.ttl_minutes ≡ pos n → n ≤ max_minutes → ttl c ≡ pos (n * 60000000000)
unfolding ttl
ttl_exact c n e h = rw (e, scale n) (wrap64-id _ (omega arith, omega arith))

-- Above `max_minutes`, and up to twice as many, the product overflows and the threshold is negative.
pub ttl_overflow :
    (c : Config) (n : ℕ)
    → c.ttl_minutes ≡ pos n
    → max_minutes < n
    → n ≤ 2 * max_minutes
    → ttl c ≡ negsuc (2 ^ 64 - 1 - n * 60000000000)
unfolding ttl
ttl_overflow c n e l h = rw (e, scale n) (wrap64-upper _ (omega arith) (omega arith))
