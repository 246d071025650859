-- ===== src/Payment/Repository/Plans.antt =====
-- The plans: upsertPlan, findPlanById, deletePlan and restorePlan.
use kokoro_platform.Base.{ℕ, String, Bool, ◌&&◌, Option, none, some, is_some, ◌==◌, if◌then◌else◌}
use kokoro_platform.Base.Effect.{ok, err, Action}
use kokoro_platform.Payment.Types.{
  Plan, PlanStatus, UpsertPlanInput, DeletePlanInput, PaymentError, plan_deleted,
  plan_lifecycle_not_found, unique_conflict,
}
use kokoro_platform.Payment.Amount.{parse_positive_bigint_string, parse_non_negative_bigint_string}
use kokoro_platform.Payment.Store.{Tables, Store, Context}

-- `value ?? "0"`
abbrev pub or_zero : Option String → String
or_zero none = "0"
or_zero (some t) = t

abbrev has_key : UpsertPlanInput → Plan → Bool
has_key input p = (p.site_id == input.site_id) && p.key == input.key

abbrev new_plan : Context → UpsertPlanInput → ℕ → ℕ → Plan
new_plan ctx input amount credit = record {
  id = ctx.new_id;
  site_id = input.site_id;
  key = input.key;
  name = input.name;
  currency = input.currency;
  amount_minor = amount;
  credit_micros = credit;
  billing_interval = input.billing_interval;
  status = PlanStatus.active;
  deleted_at = none;
  deleted_by = none;
  delete_reason = none;
  created_at = ctx.now;
}

abbrev updated_plan : UpsertPlanInput → ℕ → ℕ → Plan → Plan
updated_plan input amount credit p = record p {
  name = input.name;
  currency = input.currency;
  amount_minor = amount;
  credit_micros = credit;
  billing_interval = input.billing_interval;
  status = PlanStatus.active;
}

-- `deletionData`, on a plan
abbrev pub deleted_plan : ℕ → DeletePlanInput → Plan → Plan
deleted_plan now input p = record p {
  deleted_at = some now;
  deleted_by = some input.deleted_by;
  delete_reason = input.reason;
}

-- `restoreData`, on a plan
abbrev pub restored_plan : Plan → Plan
restored_plan p = record p { deleted_at = none; deleted_by = none; delete_reason = none }

module _ (T : Tables) where
  abbrev pub find_plan_by_id : String → Store T → Option Plan
  find_plan_by_id id s = T.plans.find_unique id s.plans

  abbrev pub put_plan : Plan → Store T → Store T
  put_plan p s = record s { plans = T.plans.put p s.plans }

  -- `siteId` and `key` together are a unique column.
  abbrev pub plan_by_key : UpsertPlanInput → Store T → Option Plan
  plan_by_key input s = T.plans.find_first (has_key input) (λ _. 0) s.plans

  unfoldable pub upsert_plan_row :
      Context → UpsertPlanInput → ℕ → ℕ → Action (Store T) PaymentError Plan
  upsert_plan_row ctx input amount credit s = elim (plan_by_key input s) [
    | some existing ↦
        if is_some existing.deleted_at
        then (err plan_deleted, s)
        else let plan = updated_plan input amount credit existing in (ok plan, put_plan plan s)
    | none ↦ elim (find_plan_by_id ctx.new_id s) [
      | some _ ↦ (err unique_conflict, s)
      | none ↦ let plan = new_plan ctx input amount credit in (ok plan, put_plan plan s)
    ]
  ]

  unfoldable pub upsert_plan : Context → UpsertPlanInput → Action (Store T) PaymentError Plan
  upsert_plan ctx input s = elim (parse_positive_bigint_string input.amount_minor) [
    | err e ↦ (err e, s)
    | ok amount ↦ elim (parse_non_negative_bigint_string (or_zero input.credit_micros)) [
      | err e ↦ (err e, s)
      | ok credit ↦ upsert_plan_row ctx input amount credit s
    ]
  ]

  unfoldable pub delete_plan : ℕ → DeletePlanInput → Action (Store T) PaymentError Plan
  delete_plan now input s = elim (find_plan_by_id input.id s) [
    | none ↦ (err plan_lifecycle_not_found, s)
    | some existing ↦
        if is_some existing.deleted_at
        then (ok existing, s)
        else let plan = deleted_plan now input existing in (ok plan, put_plan plan s)
  ]

  unfoldable pub restore_plan : String → Action (Store T) PaymentError Plan
  restore_plan id s = elim (find_plan_by_id id s) [
    | none ↦ (err plan_lifecycle_not_found, s)
    | some existing ↦
        if is_some existing.deleted_at
        then (let plan = restored_plan existing in (ok plan, put_plan plan s))
        else (ok existing, s)
  ]
