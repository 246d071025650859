-- ===== src/Payment/Proofs.antt =====
-- The theorems on kokoro-payment.
pub mod Others
pub mod Writes
pub mod Orders
pub mod Lifecycle
pub mod Refunds
pub mod Marks
pub mod Refund
pub mod RefundOnce
pub mod Sellable
pub mod Create
pub mod Events
pub mod Webhook
pub mod Confirm
pub mod Confirmed
pub mod Leaves
pub mod Sweep
pub mod Calls
pub mod Client
pub mod Composed
