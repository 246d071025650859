-- ===== src/Credit/Service.antt =====
-- kokoro-credit/src/application/credit-service.ts.
pub mod Admin
use Prim.Native.String
use kokoro_platform.Base.{
  ℕ, ◌+◌, ◌*◌, ◌/◌, String, Bool, false, ◌&&◌, Option, none, some, is_some, ltb, eqb, if◌then◌else◌,
}
use kokoro_platform.Base.Int.{ℤ, pos, negsuc, ◌+ℤ◌, ◌-ℤ◌, ltb_ℤ}
use kokoro_platform.Base.Calendar.{start_of_month}
use kokoro_platform.Base.Effect.{ok, err, Action}
use kokoro_platform.Base.Effect.Async.{pure, throw, gets, lift, throw_if, or_throw, ◌>>=◌, ◌>>◌}
use kokoro_platform.Credit.Types.{
  Account, team, Reason, Hold, EnsureAccountInput, AmountInput, ResetInput, HoldInput, CaptureInput,
  UsageInput, MutationResult, QuotaPeriod, Error, account_not_found, account_deleted,
  hold_not_found, hold_not_usage_metered, quota_exceeded, resource_not_found,
}
use kokoro_platform.Credit.Amount.{
  parse_positive_bigint_string, parse_non_negative_bigint_string, bigint_to_string,
  ceil_to_credit_micros,
}
use kokoro_platform.Credit.Buckets.{available}
use kokoro_platform.Credit.Store.{Tables, Store, Context}
use kokoro_platform.Credit.Repository.Rows.{buckets_of}
use kokoro_platform.Credit.Repository.Mutations as Mutations
use kokoro_platform.Credit.Repository.Holds as Holds
use kokoro_platform.Credit.Repository.Accounts as Accounts
use kokoro_platform.Credit.Repository.Pricing.{price_usage, sum_captured_usage_since, times}

-- `RunBillingConfig`
pub record RunBillingConfig : Type 0 where
  pub input_unit : String
  pub output_unit : String
  pub est_input_tokens : String
  pub est_output_tokens : String
  pub buffer_percent : ℕ
  pub hold_ttl_seconds : ℕ

abbrev pub default_run_billing_config : RunBillingConfig
default_run_billing_config = record {
  input_unit = "input_token";
  output_unit = "output_token";
  est_input_tokens = "1000";
  est_output_tokens = "1000";
  buffer_percent = 20;
  hold_ttl_seconds = 86400;
}

-- `bigint` division drops the fraction, toward zero.
abbrev div_ℤ : ℤ → ℕ → ℤ
div_ℤ (pos n) d = pos (n / d)
div_ℤ (negsuc n) d = pos 0 -ℤ pos ((n + 1) / d)

unfoldable pub apply_buffer_percent : ℤ → ℕ → ℤ
apply_buffer_percent base percent = div_ℤ (times base (100 + percent)) 100

-- The amount to hold for an estimate: with the buffer, in whole credits, one at least.
unfoldable pub hold_amount : RunBillingConfig → ℤ → ℤ
hold_amount billing estimate =
    let buffered = apply_buffer_percent estimate billing.buffer_percent in
    ceil_to_credit_micros (if ltb_ℤ (pos 0) buffered then buffered else pos 1)

-- The charge for a usage: whole credits, no more than was held.
unfoldable pub settle_amount : ℤ → ℤ → ℤ
settle_amount actual held =
    let rounded = ceil_to_credit_micros actual in if ltb_ℤ rounded held then rounded else held

pub record HoldForUsage : Type 0 where
  pub site_id : String
  pub namespace : String
  pub feature_key : String
  pub label_key : Option String
  pub idempotency_key : String
  pub model_binding_id : Option String
  pub request_id : Option String

pub record SettleUsage : Type 0 where
  pub hold_id : String
  pub input_tokens : String
  pub output_tokens : String
  pub idempotency_key : String

pub record UsageHold : Type 0 where
  pub hold_id : String
  pub account_id : String
  pub amount_micros : ℤ

pub data Outcome : Type 0 where
  captured released : Outcome

pub record Settlement : Type 0 where
  pub hold_id : String
  pub outcome : Outcome
  pub amount_micros : ℤ
  pub account : Account

pub record UsageSummary : Type 0 where
  pub balance_micros : ℤ
  pub held_micros : ℤ
  pub quota_micros : Option ℤ
  pub quota_period : Option QuotaPeriod

-- The service: its database, the check of owner and site that is injected (none where both are
-- active), its configuration, and what one call gets from outside.
module _ (T : Tables) (checker : EnsureAccountInput → Option Error) (billing : RunBillingConfig)
    (welcome_grant_micros : ℕ) (ctx : Context) where
  abbrev check : EnsureAccountInput → Action (Store T) Error (Unit {0})
  check ref = elim (checker ref) [ none ↦ pure tt | some e ↦ throw e ]

  abbrev owner_of : Account → EnsureAccountInput
  owner_of a = record { site_id = a.site_id; owner_kind = a.owner_kind; owner_id = a.owner_id }

  -- `ensureAccountActive`
  unfoldable pub ensure_account_active : String → Action (Store T) Error (Unit {0})
  ensure_account_active account_id = do
    account ← or_throw (← gets (Accounts.get_account_by_id T account_id)) resource_not_found
    throw_if (is_some account.deleted_at) account_deleted
    check (owner_of account)

  abbrev welcome_input : Account → AmountInput
  welcome_input account = record {
    account_id = account.id;
    amount_micros = bigint_to_string (pos welcome_grant_micros);
    idempotency_key = String.◌++◌ "welcome:" account.id;
    reason = Reason.welcome;
    request_id = none;
  }

  unfoldable pub ensure_account : EnsureAccountInput → Action (Store T) Error Account
  ensure_account input = do
    check input
    (account, created) ← Accounts.ensure_account T ctx input
    let grant = do Mutations.grant_credits T ctx (welcome_input account); pure account
    if created && ltb 0 welcome_grant_micros then grant else pure account

  unfoldable pub grant_credits : AmountInput → Action (Store T) Error MutationResult
  unfolding ensure_account_active
  grant_credits input = do
    lift (parse_positive_bigint_string input.amount_micros)
    ensure_account_active input.account_id
    Mutations.grant_credits T ctx input

  unfoldable pub spend_credits : AmountInput → Action (Store T) Error MutationResult
  unfolding ensure_account_active
  spend_credits input = do
    lift (parse_positive_bigint_string input.amount_micros)
    ensure_account_active input.account_id
    Mutations.spend_credits T ctx input

  unfoldable pub reset_balance : ResetInput → Action (Store T) Error MutationResult
  unfolding ensure_account_active
  reset_balance input = do
    lift (parse_non_negative_bigint_string input.target_micros)
    ensure_account_active input.account_id
    Mutations.reset_balance T ctx input

  unfoldable pub hold_credits : HoldInput → Action (Store T) Error Hold
  unfolding ensure_account_active
  hold_credits input = do
    lift (parse_positive_bigint_string input.amount_micros)
    ensure_account_active input.account_id
    Holds.hold_credits T ctx input

  unfoldable pub capture_hold : CaptureInput → Action (Store T) Error MutationResult
  capture_hold input = do
    lift (parse_positive_bigint_string input.actual_amount_micros)
    Holds.capture_hold T ctx input

  -- Nothing is checked where no quota is set.
  unfoldable pub assert_within_quota : Account → ℤ → Action (Store T) Error (Unit {0})
  assert_within_quota account incoming s = elim account.quota_micros [
    | none ↦ (ok tt, s)
    | some quota ↦
        let settled = sum_captured_usage_since T account.id (start_of_month ctx.now) s in
        if ltb_ℤ quota (settled +ℤ account.held_micros +ℤ incoming)
        then (err quota_exceeded, s)
        else (ok tt, s)
  ]

  abbrev estimate_input : HoldForUsage → UsageInput
  estimate_input command = record {
    feature_key = command.feature_key;
    label_key = command.label_key;
    input_unit = billing.input_unit;
    output_unit = billing.output_unit;
    input_tokens = billing.est_input_tokens;
    output_tokens = billing.est_output_tokens;
  }

  abbrev usage_hold_input : HoldForUsage → Account → ℤ → HoldInput
  usage_hold_input command account amount = record {
    account_id = account.id;
    amount_micros = bigint_to_string amount;
    idempotency_key = command.idempotency_key;
    expires_at = some (ctx.now + billing.hold_ttl_seconds * 1000);
    feature_key = some command.feature_key;
    label_key = command.label_key;
    model_binding_id = command.model_binding_id;
    request_id = command.request_id;
  }

  unfoldable pub hold_for_usage : HoldForUsage → Action (Store T) Error UsageHold
  unfolding ensure_account assert_within_quota hold_amount
  hold_for_usage command = do
    account ←
        ensure_account
          (record { site_id = command.site_id; owner_kind = team; owner_id = command.namespace })
    estimate ← lift (← gets (price_usage T (estimate_input command) ctx.now))
    let amount = hold_amount billing estimate
    assert_within_quota account amount
    hold ← Holds.hold_credits T ctx (usage_hold_input command account amount)
    pure (record { hold_id = hold.id; account_id = account.id; amount_micros = hold.amount_micros })

  abbrev settle_input : SettleUsage → Hold → String → UsageInput
  settle_input command hold feature = record {
    feature_key = feature;
    label_key = hold.label_key;
    input_unit = billing.input_unit;
    output_unit = billing.output_unit;
    input_tokens = command.input_tokens;
    output_tokens = command.output_tokens;
  }

  abbrev is_zero : ℤ → Bool
  is_zero (pos n) = eqb n 0
  is_zero (negsuc _) = false

  abbrev capture_input : SettleUsage → Hold → String → ℤ → CaptureInput
  capture_input command hold feature amount = record {
    hold_id = hold.id;
    actual_amount_micros = bigint_to_string amount;
    idempotency_key = command.idempotency_key;
    reason = Reason.model_call;
    feature_key = feature;
    model_binding_id = hold.model_binding_id;
    request_id = hold.request_id;
  }

  unfoldable pub settle_by_release : Hold → Action (Store T) Error Settlement
  settle_by_release hold = do
    released_hold ← Holds.release_hold T hold.id
    account ←
        or_throw (← gets (Accounts.get_account_by_id T released_hold.account_id)) account_not_found
    pure
        (record { hold_id = hold.id; outcome = released; amount_micros = pos 0; account = account })

  unfoldable pub settle_by_capture :
      SettleUsage → Hold → String → ℤ → Action (Store T) Error Settlement
  settle_by_capture command hold feature amount = do
    capture ← Holds.capture_hold T ctx (capture_input command hold feature amount)
    pure (record {
      hold_id = hold.id;
      outcome = captured;
      amount_micros = pos 0 -ℤ capture.entry.amount_micros;
      account = capture.account;
    })

  unfoldable pub settle_usage : SettleUsage → Action (Store T) Error Settlement
  unfolding settle_by_release settle_by_capture settle_amount
  settle_usage command = do
    hold ← or_throw (← gets (Accounts.get_hold_by_id T command.hold_id)) hold_not_found
    feature ← or_throw hold.feature_key hold_not_usage_metered
    actual ← lift (← gets (price_usage T (settle_input command hold feature) ctx.now))
    let clamped = settle_amount actual hold.amount_micros
    if is_zero clamped
        then settle_by_release hold
        else settle_by_capture command hold feature clamped

  -- Zeros where there is no account; the buckets are refreshed before they are shown.
  unfoldable pub read_usage_summary : String → String → Action (Store T) Error UsageSummary
  read_usage_summary site_id namespace = do
    found ← gets (
        Accounts.find_active_account_by_owner T
          (record { site_id = site_id; owner_kind = team; owner_id = namespace }))
    elim found [
      | none ↦ pure (record {
        balance_micros = pos 0;
        held_micros = pos 0;
        quota_micros = none;
        quota_period = none;
      })
      | some account ↦ do
        fresh ← Accounts.refresh_allowances T account.id ctx.now
        pure (record {
          balance_micros = available (buckets_of fresh);
          held_micros = fresh.held_micros;
          quota_micros = fresh.quota_micros;
          quota_period = fresh.quota_period;
        })
    ]
