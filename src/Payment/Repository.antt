-- ===== src/Payment/Repository.antt =====
-- kokoro-payment/src/infrastructure/prisma/prisma-payment-repository.ts. A row that is created gets
-- an id, which the primary key keeps unique; the foreign keys are those of rows that the service has
-- looked up before.
pub mod Plans
pub mod Orders
pub mod Refunds
pub mod Events
pub mod Subscriptions
