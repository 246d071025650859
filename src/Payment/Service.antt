-- ===== src/Payment/Service.antt =====
-- kokoro-payment/src/application/payment-service.ts.

use Prim.Native.String
use kokoro_platform.Base.{
  ℕ, ◌+◌, ◌-◌, String, Bool, not, ◌||◌, Option, none, some, is_some, List, [], ◌∷◌, ltb, eqb, ◌==◌,
  if◌then◌else◌,
}
use kokoro_platform.Base.Effect.{Result, ok, err, Action}
use kokoro_platform.Base.Effect.Async.{pure, gets, lift, throw_if, or_throw, ◌>>=◌, ◌>>◌}
use kokoro_platform.Base.Decimal.{to_string}
use kokoro_platform.Payment.Types.{
  Plan, PlanStatus, Order, OrderStatus, refunded, Refund, RefundStatus, UpsertPlanInput,
  CreateOrderInput, CreateRefundInput, CreditsInput, PaymentError, plan_not_found, plan_deleted,
  order_not_found, order_not_confirmable, order_not_refundable, amount_mismatch,
  checkout_unavailable,
}
use kokoro_platform.Payment.Amount.{parse_positive_bigint_string, parse_non_negative_bigint_string}
use kokoro_platform.Payment.Store.{Tables, Store, Context}
use kokoro_platform.Payment.Credits.{Credits}
use kokoro_platform.Payment.Repository.Plans as Plans
use kokoro_platform.Payment.Repository.Orders as Orders
use kokoro_platform.Payment.Repository.Refunds.{refund_order_atomically, find_refund_by_order_id}
use kokoro_platform.Payment.Repository.Events.{find_provider_by_key}

-- The payment database and the state of the credit service, which share no transaction.
pub record World (T : Tables) (K : Credits) : Type 0 where
  pub db : Store T
  pub credits : K.State

pub record Checkout : Type 0 where
  pub order_id : String
  pub checkout_url : String

pub record StartCheckoutInput : Type 0 where
  pub site_id : String
  pub team_id : String
  pub plan_id : String

pub record Refunded : Type 0 where
  pub order : Order
  pub refund : Refund

abbrev is_active_plan : PlanStatus → Bool
is_active_plan PlanStatus.active = Bool.true
is_active_plan PlanStatus.disabled = Bool.false

abbrev pub is_refunded : OrderStatus → Bool
is_refunded refunded = Bool.true
is_refunded _ = Bool.false

unfoldable pub assert_plan_not_deleted : Plan → Result PaymentError Plan
assert_plan_not_deleted plan = if is_some plan.deleted_at then err plan_deleted else ok plan

-- A plan of another site is as good as none.
unfoldable pub assert_plan_sellable : Option Plan → String → Result PaymentError Plan
unfolding assert_plan_not_deleted
assert_plan_sellable none site_id = err plan_not_found
assert_plan_sellable (some plan) site_id =
    if not (plan.site_id == site_id)
    then err plan_not_found
    else elim (assert_plan_not_deleted plan) [
      | err e ↦ err e
      | ok p ↦ if is_active_plan p.status then ok p else err plan_not_found
    ]

abbrev pub order_grant : Order → Plan → String → CreditsInput
order_grant order plan request_id = record {
  site_id = order.site_id;
  request_id = request_id;
  owner_id = order.team_id;
  amount_micros = to_string plan.credit_micros;
  idempotency_key = String.◌++◌ "order:" order.id;
}

abbrev pub order_reversal : Order → Plan → String → CreditsInput
order_reversal order plan request_id = record {
  site_id = order.site_id;
  request_id = request_id;
  owner_id = order.team_id;
  amount_micros = to_string plan.credit_micros;
  idempotency_key = String.◌++◌ "order-refund:" order.id;
}

abbrev pub refund_input : Order → CreateRefundInput
refund_input order = record {
  order_id = order.id;
  amount_minor = to_string order.amount_minor;
  currency = order.currency;
  status = RefundStatus.succeeded;
  reason = some "refund";
}

abbrev checkout_order : Context → StartCheckoutInput → Plan → CreateOrderInput
checkout_order ctx input plan = record {
  site_id = input.site_id;
  team_id = input.team_id;
  plan_id = input.plan_id;
  amount_minor = to_string plan.amount_minor;
  currency = plan.currency;
  idempotency_key = String.◌++◌ "checkout:" (
      String.◌++◌ input.team_id
        (String.◌++◌ ":" (String.◌++◌ input.plan_id (String.◌++◌ ":" ctx.uuid))));
}

module _ (T : Tables) (K : Credits) where
  -- A call of the repository, and a call of the credit service.
  abbrev pub on_db :
      {A : Type 0} → Action (Store T) PaymentError A → Action (World T K) PaymentError A
  on_db call w = let (r, db) = call w.db in (r, record w { db = db })

  abbrev pub on_credits :
      {A : Type 0} → Action K.State PaymentError A → Action (World T K) PaymentError A
  on_credits call w = let (r, credits) = call w.credits in (r, record w { credits = credits })

  unfoldable pub upsert_plan : Context → UpsertPlanInput → Action (World T K) PaymentError Plan
  upsert_plan ctx input = do
    lift (parse_positive_bigint_string input.amount_minor)
    lift (parse_non_negative_bigint_string (Plans.or_zero input.credit_micros))
    on_db (Plans.upsert_plan T ctx input)

  unfoldable pub create_order : Context → CreateOrderInput → Action (World T K) PaymentError Order
  create_order ctx input = do
    amount ← lift (parse_positive_bigint_string input.amount_minor)
    found ← gets (λ w. Plans.find_plan_by_id T input.plan_id w.db)
    plan ← lift (assert_plan_sellable found input.site_id)
    throw_if (not (eqb amount plan.amount_minor) || not (input.currency == plan.currency))
        amount_mismatch
    on_db (Orders.create_order T ctx input)

  unfoldable pub start_checkout :
      Context → StartCheckoutInput → Action (World T K) PaymentError Checkout
  start_checkout ctx input = do
    found ← gets (λ w. Plans.find_plan_by_id T input.plan_id w.db)
    plan ← lift (assert_plan_sellable found input.site_id)
    provider ← gets (λ w. find_provider_by_key T "mock" w.db)
    mock ← or_throw provider checkout_unavailable
    throw_if (not mock.enabled) checkout_unavailable
    order ← on_db (Orders.create_order T ctx (checkout_order ctx input plan))
    pure (record { order_id = order.id; checkout_url = String.◌++◌ "/billing/pay/" order.id })

  -- From the intent on: the grant, where the plan has credit, and then the status.
  unfoldable pub finish_confirmation :
      ℕ → Order → Plan → String → Action (World T K) PaymentError Order
  finish_confirmation now order plan request_id = do
    on_db (Orders.mark_order_confirming T now order.id)
    if ltb 0 plan.credit_micros
        then on_credits (K.grant (order_grant order plan request_id))
        else pure tt
    on_db (Orders.mark_order_paid T now order.id)

  unfoldable pub confirm_order : ℕ → String → String → Action (World T K) PaymentError Order
  unfolding finish_confirmation
  confirm_order now order_id request_id = do
    found ← gets (λ w. Orders.find_order_by_id T order_id w.db)
    order ← or_throw found order_not_found
    let confirm = do
      throw_if (not (Orders.is_open order.status)) (order_not_confirmable order.status)
      stored ← gets (λ w. Plans.find_plan_by_id T order.plan_id w.db)
      plan ← or_throw stored plan_not_found
      lift (assert_plan_not_deleted plan)
      finish_confirmation now order plan request_id
    if Orders.is_paid order.status then pure order else confirm

  -- A failure is logged and the rest goes on.
  unfoldable pub confirm_all : ℕ → String → ℕ → List Order → World T K → ℕ × World T K
  unfolding confirm_order
  confirm_all now request_id recovered [] w = (recovered, w)
  confirm_all now request_id recovered (order ∷ rest) w =
      let (r, w') = confirm_order now order.id request_id w in
      elim r [
        | ok _ ↦ confirm_all now request_id (recovered + 1) rest w'
        | err _ ↦ confirm_all now request_id recovered rest w'
      ]

  unfoldable pub sweep_stale_confirming_orders : ℕ → ℕ → String → World T K → ℕ × World T K
  unfolding confirm_all
  sweep_stale_confirming_orders now threshold_ms request_id w =
      confirm_all now request_id 0 (Orders.list_stale_confirming_orders T (now - threshold_ms) w.db)
        w

  unfoldable pub grant_plan_to_team :
      Context → String → String → String → String → Action (World T K) PaymentError Order
  unfolding create_order confirm_order
  grant_plan_to_team ctx site_id team_id plan_id request_id = do
    found ← gets (λ w. Plans.find_plan_by_id T plan_id w.db)
    plan ← lift (assert_plan_sellable found site_id)
    order ← create_order ctx (record {
      site_id = site_id;
      team_id = team_id;
      plan_id = plan_id;
      amount_minor = to_string plan.amount_minor;
      currency = plan.currency;
      idempotency_key = ctx.uuid;
    })
    confirm_order ctx.now order.id request_id

  -- Where the refund was made by another call, it is returned.
  unfoldable pub existing_refund : Order → OrderStatus → Action (World T K) PaymentError Refunded
  existing_refund order status = do
    existing ← gets (λ w. find_refund_by_order_id T order.id w.db)
    refund ← or_throw existing (order_not_refundable status)
    pure (record { order = record order { status = refunded }; refund = refund })

  -- The credit goes back first, and then the status with its refund.
  unfoldable pub finish_refund :
      Context → Order → Plan → String → Action (World T K) PaymentError Refunded
  unfolding existing_refund
  finish_refund ctx order plan request_id = do
    if ltb 0 plan.credit_micros
        then on_credits (K.reverse (order_reversal order plan request_id))
        else pure tt
    result ← on_db (refund_order_atomically T ctx order.id (refund_input order))
    elim result [
      | none ↦ existing_refund order refunded
      | some refund ↦ pure (record { order = record order { status = refunded }; refund = refund })
    ]

  unfoldable pub refund_order : Context → String → String → Action (World T K) PaymentError Refunded
  unfolding existing_refund finish_refund
  refund_order ctx order_id request_id = do
    found ← gets (λ w. Orders.find_order_by_id T order_id w.db)
    order ← or_throw found order_not_found
    let refund = do
      throw_if (not (Orders.is_paid order.status)) (order_not_refundable order.status)
      stored ← gets (λ w. Plans.find_plan_by_id T order.plan_id w.db)
      plan ← or_throw stored plan_not_found
      finish_refund ctx order plan request_id
    if is_refunded order.status then existing_refund order order.status else refund
