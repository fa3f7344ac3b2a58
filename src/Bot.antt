-- ===== src/Bot.antt =====
-- internal/bot/bot.go: callback payloads (Callback), the state (State), keyboards and texts (Menus),
-- commands (Commands), updates (Handlers) and goroutines (Jobs); the other children prove.
pub mod Callback
pub mod State
pub mod Menus
pub mod Commands
pub mod Handlers
pub mod Jobs
pub mod Paging
pub mod Talk
pub mod Minutes
pub mod Moves
pub mod Keeps
pub mod Owner
pub mod Tests
