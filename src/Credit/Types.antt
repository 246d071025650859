-- ===== src/Credit/Types.antt =====
-- The rows and the inputs of kokoro-credit (prisma/schema.prisma, src/domain/credit.ts,
-- src/domain/repository.ts) and its errors (src/domain/errors.ts, src/domain/credit-lifecycle.ts).
-- A `bigint` is a ℤ, also where a record of src/domain/credit.ts carries its decimal text; a `Date`
-- is its milliseconds since 1970. `metadata` and `updatedAt` are read by nothing here and left out.
use kokoro_platform.Base.{ℕ, String, Option}
use kokoro_platform.Base.Int.{ℤ}

pub data OwnerKind : Type 0 where
  user team : OwnerKind

pub data AccountStatus : Type 0 where
  active disabled : AccountStatus

pub data QuotaPeriod : Type 0 where
  monthly : QuotaPeriod

pub data Reason : Type 0 where
  manual_adjustment subscription model_call tool_call refund welcome : Reason

pub data HoldStatus : Type 0 where
  active captured released expired : HoldStatus

pub data UsageStatus : Type 0 where
  recorded settled failed : UsageStatus

pub data RuleStatus : Type 0 where
  active disabled : RuleStatus

pub record Account : Type 0 where
  pub id : String
  pub site_id : String
  pub owner_kind : OwnerKind
  pub owner_id : String
  pub status : AccountStatus
  pub balance_micros : ℤ
  pub held_micros : ℤ
  pub daily_micros : ℤ
  pub daily_reset_on : Option ℕ
  pub period_micros : ℤ
  pub period_reset_on : Option ℕ
  pub daily_allowance_micros : ℤ
  pub period_allowance_micros : ℤ
  pub quota_micros : Option ℤ
  pub quota_period : Option QuotaPeriod
  pub deleted_at : Option ℕ
  pub deleted_by : Option String
  pub delete_reason : Option String
  pub created_at : ℕ

pub record LedgerEntry : Type 0 where
  pub id : String
  pub account_id : String
  pub amount_micros : ℤ
  pub balance_after_micros : ℤ
  pub reason : Reason
  pub idempotency_key : String
  pub request_id : Option String
  pub created_at : ℕ

pub record Hold : Type 0 where
  pub id : String
  pub account_id : String
  pub amount_micros : ℤ
  pub reserved_daily_micros : ℤ
  pub reserved_period_micros : ℤ
  pub reserved_permanent_micros : ℤ
  pub status : HoldStatus
  pub idempotency_key : String
  pub expires_at : Option ℕ
  pub feature_key : Option String
  pub label_key : Option String
  pub model_binding_id : Option String
  pub request_id : Option String
  pub created_at : ℕ

pub record UsageRecord : Type 0 where
  pub id : String
  pub account_id : Option String
  pub feature_key : String
  pub amount_micros : ℤ
  pub model_binding_id : Option String
  pub request_id : Option String
  pub idempotency_key : Option String
  pub status : UsageStatus
  pub created_at : ℕ

pub record PricingRule : Type 0 where
  pub id : String
  pub feature_key : String
  pub label_key : Option String
  pub unit : String
  pub amount_micros : ℤ
  pub status : RuleStatus
  pub effective_from : ℕ
  pub effective_until : Option ℕ
  pub deleted_at : Option ℕ
  pub deleted_by : Option String
  pub delete_reason : Option String
  pub created_at : ℕ

pub record MutationResult : Type 0 where
  pub account : Account
  pub entry : LedgerEntry

-- The inputs; an amount arrives as text.
pub record EnsureAccountInput : Type 0 where
  pub site_id : String
  pub owner_kind : OwnerKind
  pub owner_id : String

pub record AmountInput : Type 0 where
  pub account_id : String
  pub amount_micros : String
  pub idempotency_key : String
  pub reason : Reason
  pub request_id : Option String

pub record ResetInput : Type 0 where
  pub account_id : String
  pub target_micros : String
  pub idempotency_key : String
  pub reason : Reason
  pub request_id : Option String

pub record HoldInput : Type 0 where
  pub account_id : String
  pub amount_micros : String
  pub idempotency_key : String
  pub expires_at : Option ℕ
  pub feature_key : Option String
  pub label_key : Option String
  pub model_binding_id : Option String
  pub request_id : Option String

pub record CaptureInput : Type 0 where
  pub hold_id : String
  pub actual_amount_micros : String
  pub idempotency_key : String
  pub reason : Reason
  pub feature_key : String
  pub model_binding_id : Option String
  pub request_id : Option String

pub record DeleteInput : Type 0 where
  pub id : String
  pub deleted_by : String
  pub reason : Option String

pub record UsageInput : Type 0 where
  pub feature_key : String
  pub label_key : Option String
  pub input_unit : String
  pub output_unit : String
  pub input_tokens : String
  pub output_tokens : String

pub data Error : Type 0 where
  invalid_amount account_not_found account_deleted insufficient_credit : Error
  hold_not_found capture_exceeds_hold : Error
  hold_not_active : HoldStatus → Error
  reset_below_held active_hold_exists lifecycle_not_found : Error
  pricing_rule_not_found pricing_rule_unknown quota_exceeded hold_not_usage_metered : Error
  resource_not_found site_suspended owner_inactive upstream_unreachable : Error
  unique_conflict record_missing : Error
