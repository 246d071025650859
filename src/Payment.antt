-- ===== src/Payment.antt =====
-- kokoro-payment: plans, orders, refunds, subscriptions and the webhooks of payment providers.
pub mod Types
pub mod Amount
pub mod Payload
pub mod Reordered
pub mod Store
pub mod Repository
pub mod Credits
pub mod Service
pub mod Client
pub mod Subscribe
pub mod Webhook
pub mod Machine
pub mod Proofs
pub mod Tests
