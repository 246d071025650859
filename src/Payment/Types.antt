-- ===== src/Payment/Types.antt =====
-- The rows, inputs and errors of kokoro-payment (src/domain, prisma/schema.prisma). Amounts are kept
-- as numbers, since every write parses decimal digits; a `Date` is its milliseconds since 1970.
-- `metadata` is read by nothing and left out; `updatedAt` is kept where the sweep of orders reads it.
use kokoro_platform.Base.{ℕ, String, Bool, Option}

pub data BillingInterval : Type 0 where
  once month year : BillingInterval

pub data PlanStatus : Type 0 where
  active disabled : PlanStatus

pub data OrderStatus : Type 0 where
  pending confirming paid canceled refunded : OrderStatus

pub data EventStatus : Type 0 where
  received processed failed : EventStatus

pub data SubscriptionStatus : Type 0 where
  active canceled past_due : SubscriptionStatus

pub data RefundStatus : Type 0 where
  pending succeeded failed : RefundStatus

pub data ProviderKind : Type 0 where
  stripe alipay wechat mock : ProviderKind

-- A JSON value. A number is its text; an object is its entries in the order they came in.
mutual
  pub data Json : Type 0 where
    null : Json
    bool : Bool → Json
    number text : String → Json
    array : Items → Json
    object : Entries → Json

  pub data Items : Type 0 where
    no_items : Items
    item : Json → Items → Items

  pub data Entries : Type 0 where
    no_entries : Entries
    entry : String → Json → Entries → Entries

pub record Plan : Type 0 where
  pub id : String
  pub site_id : String
  pub key : String
  pub name : String
  pub currency : String
  pub amount_minor : ℕ
  pub credit_micros : ℕ
  pub billing_interval : BillingInterval
  pub status : PlanStatus
  pub deleted_at : Option ℕ
  pub deleted_by : Option String
  pub delete_reason : Option String
  pub created_at : ℕ

pub record Order : Type 0 where
  pub id : String
  pub site_id : String
  pub team_id : String
  pub plan_id : String
  pub amount_minor : ℕ
  pub currency : String
  pub status : OrderStatus
  pub idempotency_key : String
  pub created_at : ℕ
  pub updated_at : ℕ

pub record PaymentEvent : Type 0 where
  pub id : String
  pub provider : String
  pub event_id : String
  pub event_type : String
  pub payload : Json
  pub status : EventStatus
  pub last_error : Option String
  pub created_at : ℕ

pub record Subscription : Type 0 where
  pub id : String
  pub team_id : String
  pub plan_id : String
  pub status : SubscriptionStatus
  pub provider : Option String
  pub provider_subscription_id : Option String
  pub current_period_start : Option ℕ
  pub current_period_end : Option ℕ
  pub created_at : ℕ

pub record Refund : Type 0 where
  pub id : String
  pub order_id : String
  pub amount_minor : ℕ
  pub currency : String
  pub status : RefundStatus
  pub reason : Option String
  pub created_at : ℕ

pub record Provider : Type 0 where
  pub id : String
  pub key : String
  pub kind : ProviderKind
  pub webhook_secret_ref : String
  pub enabled : Bool
  pub created_at : ℕ

pub record UpsertPlanInput : Type 0 where
  pub site_id : String
  pub key : String
  pub name : String
  pub currency : String
  pub amount_minor : String
  pub credit_micros : Option String
  pub billing_interval : BillingInterval

pub record CreateOrderInput : Type 0 where
  pub site_id : String
  pub team_id : String
  pub plan_id : String
  pub amount_minor : String
  pub currency : String
  pub idempotency_key : String

pub record RecordEventInput : Type 0 where
  pub provider : String
  pub event_id : String
  pub event_type : String
  pub payload : Json

pub record UpsertProviderInput : Type 0 where
  pub key : String
  pub kind : ProviderKind
  pub webhook_secret_ref : String
  pub enabled : Bool

pub record UpsertSubscriptionInput : Type 0 where
  pub provider : String
  pub provider_subscription_id : String
  pub team_id : String
  pub plan_id : String
  pub status : SubscriptionStatus
  pub current_period_start : Option ℕ
  pub current_period_end : Option ℕ

pub record CreateRefundInput : Type 0 where
  pub order_id : String
  pub amount_minor : String
  pub currency : String
  pub status : RefundStatus
  pub reason : Option String

pub record DeletePlanInput : Type 0 where
  pub id : String
  pub deleted_by : String
  pub reason : Option String

-- `GrantPurchaseCreditsInput` and `ReverseCreditsInput`, whose owner is a team and whose reason is
-- `subscription` for the one and `refund` for the other.
pub record CreditsInput : Type 0 where
  pub site_id : String
  pub request_id : String
  pub owner_id : String
  pub amount_micros : String
  pub idempotency_key : String

pub record SubscriptionEvent : Type 0 where
  pub provider_subscription_id : String
  pub team_id : String
  pub plan_id : String
  pub status : SubscriptionStatus
  pub current_period_start : Option ℕ
  pub current_period_end : Option ℕ
  pub grant_credits : Bool

pub record ParsedEvent : Type 0 where
  pub event_id : String
  pub event_type : String
  pub order_id : Option String
  pub subscription : Option SubscriptionEvent

pub data PaymentError : Type 0 where
  invalid_amount amount_mismatch : PaymentError
  plan_not_found plan_lifecycle_not_found plan_deleted : PaymentError
  order_not_found : PaymentError
  order_not_confirmable order_not_refundable : OrderStatus → PaymentError
  idempotency_conflict provider_not_found event_not_found checkout_unavailable : PaymentError
  provider_unknown provider_not_implemented secret_unavailable : PaymentError
  signature_invalid payload_invalid event_incomplete : PaymentError
  -- an error of the credit service
  credit_failed : String → PaymentError
  unique_conflict record_missing : PaymentError
