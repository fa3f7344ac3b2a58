-- ===== src/Tgclient.antt =====
-- internal/tgclient: the chats of the account (Group), their marked ids (Ids), the list of the chats
-- (Resolve), the history scan (Scan), deletion in batches (Delete), incoming updates (Updates),
-- authorization (Auth, Relay), New and buildStack (Stack), start and stop (Lifecycle), the store of access hashes (Hasher);
-- Interface gives it to the cleaner.
pub mod Group
pub mod Ids
pub mod Stack
pub mod Delete
pub mod Scan
pub mod Hasher
pub mod Lifecycle
pub mod Relay
pub mod Interface
pub mod Own
pub mod Offline
pub mod Resolve
pub mod Updates
pub mod Auth
pub mod Tests
pub mod ClientTests
