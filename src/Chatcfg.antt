-- ===== src/Chatcfg.antt =====
-- internal/chatcfg/chatcfg.go: the configuration of a chat (Config), its store over a bbolt bucket
-- (Store), and what is proved of them in the other children.
pub mod Config
pub mod Ttl
pub mod Matching
pub mod Store
pub mod Spec
pub mod Reload
pub mod Tests
