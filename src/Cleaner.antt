-- ===== src/Cleaner.antt =====
-- internal/cleaner/cleaner.go: what the cleaner asks of its surroundings (Env), its state and the
-- operations on the index (State), deletion and the sweep (Sweep), the history drain (Drain), the
-- membership reconcile (Reconcile), the status lines (Stats); the other children prove things of them.
pub mod Env
pub mod State
pub mod Sweep
pub mod Drain
pub mod Reconcile
pub mod Lookup
pub mod Deletions
pub mod Counting
pub mod Deleting
pub mod Due
pub mod Sweeping
pub mod Tidy
pub mod Own
pub mod Bag
pub mod Stats
pub mod Listing
pub mod Tests
