-- ===== src/Credit/Proofs.antt =====
-- Proofs about kokoro-credit.
pub mod Once
pub mod HoldOnce
pub mod Invariant
pub mod Mutations
pub mod Holds
pub mod Balances
pub mod Preserve
pub mod Reach
pub mod Replay
pub mod Spend
pub mod Carries
pub mod Lifecycle
pub mod Sweep
pub mod Capture
pub mod Usage
pub mod Refresh
pub mod Rules
pub mod Checker
