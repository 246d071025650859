-- ===== src/Payment/Store.antt =====
-- The database of kokoro-payment: a table for each model of kokoro-payment/prisma/schema.prisma, and
-- what a call gets from outside: the clock, the `cuid()` of a row that it creates, and the
-- `randomUUID()` of a key.
use kokoro_platform.Base.{ℕ, String}
use kokoro_platform.Base.Table.{Table}
use kokoro_platform.Payment.Types.{Plan, Order, PaymentEvent, Subscription, Refund, Provider}

pub record Tables : Type 1 where
  pub Plans : Type 0
  pub Orders : Type 0
  pub Events : Type 0
  pub Subscriptions : Type 0
  pub Refunds : Type 0
  pub Providers : Type 0
  pub plans : Table {Row = Plan} (λ r. r.id) Plans
  pub orders : Table {Row = Order} (λ r. r.id) Orders
  pub events : Table {Row = PaymentEvent} (λ r. r.id) Events
  pub subscriptions : Table {Row = Subscription} (λ r. r.id) Subscriptions
  pub refunds : Table {Row = Refund} (λ r. r.id) Refunds
  pub providers : Table {Row = Provider} (λ r. r.id) Providers

pub record Store (T : Tables) : Type 0 where
  pub plans : T.Plans
  pub orders : T.Orders
  pub events : T.Events
  pub subscriptions : T.Subscriptions
  pub refunds : T.Refunds
  pub providers : T.Providers

pub record Context : Type 0 where
  pub now : ℕ
  pub new_id : String
  pub uuid : String
