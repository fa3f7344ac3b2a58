-- ===== src/Tgclient/Lifecycle/Api.antt =====
-- internal/tgclient/tgclient.go: apiRef and Running, while callers start and stop the client.
use langolier_bot.Base.{ℕ, ◌<◌, true, false, ◌≡◌, ◌∙◌, Option-cases, ◌⊎◌, inl, inr, is_some, ap}
use langolier_bot.Base.Calls.{got, failed}
use langolier_bot.Tgclient.Delete.{not_running}
use langolier_bot.Tgclient.Lifecycle.{Memory, System, initial, Steps, ref, api_ref, is_running}
use langolier_bot.Tgclient.Lifecycle.Returns.{HasRun, Steps-Inv, initial-Inv}

-- What apiRef and Running say of the same moment.
abbrev pub Agree : Memory → Type 0
Agree m =
    ((is_running m.client ≡ false) × (api_ref m.client ≡ failed not_running))
    ⊎ ((is_running m.client ≡ true) × ((k : ℕ) × (k < m.next) × (api_ref m.client ≡ got k)))

HasRun-Agree : (m : Memory) → HasRun m → Agree m
unfolding is_running api_ref
HasRun-Agree m (same, begun) = elim (Option-cases m.client.current) [
  | inl e ↦ inl (same ∙ ap (λ o. is_some o) e, ap ref e)
  | inr (k, e) ↦ inr (same ∙ ap (λ o. is_some o) e, (k, begun k e, ap ref e))
]

-- However many callers start and stop the client, and in whatever order they and the goroutines go on:
-- at every moment either the client is running and apiRef returns the client of a run that has begun,
-- or it is not running and apiRef returns the error that says so.
pub Steps-Agree : (n : ℕ) (s : System) → Steps n initial s → Agree s.memory
Steps-Agree n s r = HasRun-Agree s.memory (Steps-Inv r initial-Inv).0
