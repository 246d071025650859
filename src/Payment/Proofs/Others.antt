-- ===== src/Payment/Proofs/Others.antt =====
-- The calls of the repository that do not concern orders leave the orders and the refunds alone.
use kokoro_platform.Base.{ℕ, String, ◌≡◌, inl, inr, Bool, Option, arith, Option-cases}
use kokoro_platform.Base.Effect.{Result-cases}
use kokoro_platform.Payment.Types.{
  UpsertPlanInput, DeletePlanInput, UpsertSubscriptionInput, UpsertProviderInput, RecordEventInput,
  EventStatus,
}
use kokoro_platform.Payment.Amount.{parse_positive_bigint_string, parse_non_negative_bigint_string}
use kokoro_platform.Payment.Store.{Tables, Store, Context}
use kokoro_platform.Payment.Repository.Plans.{
  or_zero, plan_by_key, find_plan_by_id, upsert_plan_row, upsert_plan, delete_plan, restore_plan,
}
use kokoro_platform.Payment.Repository.Subscriptions.{subscription_of, upsert_subscription}
use kokoro_platform.Payment.Repository.Events.{
  find_provider_by_key, upsert_provider, delete_provider, event_of, insert_event,
  create_payment_event_or_read_existing, record_payment_event, find_payment_event_by_id,
  transition_payment_event_status,
}

module _ (T : Tables) where
  abbrev pub SameOrders : Store T → Store T → Type 0
  SameOrders s t = (t.orders ≡ s.orders) × (t.refunds ≡ s.refunds)

  upsert_plan_row-SameOrders :
      (ctx : Context) (input : UpsertPlanInput) (amount credit : ℕ) (s : Store T)
      → SameOrders s (upsert_plan_row T ctx input amount credit s).1
  unfolding upsert_plan_row
  upsert_plan_row-SameOrders ctx input amount credit s =
      elim (Option-cases (plan_by_key T input s)) [
        | inl e ↦ ground arith
        | inr (p, e) ↦ ground arith
      ]

  pub upsert_plan-SameOrders :
      (ctx : Context) (input : UpsertPlanInput) (s : Store T)
      → SameOrders s (upsert_plan T ctx input s).1
  unfolding upsert_plan
  upsert_plan-SameOrders ctx input s =
      elim (Result-cases (parse_positive_bigint_string input.amount_minor)) [
        | inr (e, h) ↦ ground arith
        | inl (amount, h) ↦
            elim (Result-cases (parse_non_negative_bigint_string (or_zero input.credit_micros))) [
              | inr (e, g) ↦ ground arith
              | inl (credit, g) ↦
                  ground (arith, upsert_plan_row-SameOrders ctx input amount credit s)
            ]
      ]

  pub delete_plan-SameOrders :
      (now : ℕ) (input : DeletePlanInput) (s : Store T) → SameOrders s (delete_plan T now input s).1
  unfolding delete_plan
  delete_plan-SameOrders now input s = elim (Option-cases (find_plan_by_id T input.id s)) [
    | inl e ↦ ground arith
    | inr (p, e) ↦ ground arith
  ]

  pub restore_plan-SameOrders : (id : String) (s : Store T) → SameOrders s (restore_plan T id s).1
  unfolding restore_plan
  restore_plan-SameOrders id s = elim (Option-cases (find_plan_by_id T id s)) [
    | inl e ↦ ground arith
    | inr (p, e) ↦ ground arith
  ]

  pub upsert_subscription-SameOrders :
      (ctx : Context) (input : UpsertSubscriptionInput) (s : Store T)
      → SameOrders s (upsert_subscription T ctx input s).1
  unfolding upsert_subscription
  upsert_subscription-SameOrders ctx input s = elim (Option-cases (subscription_of T input s)) [
    | inl e ↦ ground arith
    | inr (p, e) ↦ ground arith
  ]

  pub upsert_provider-SameOrders :
      (ctx : Context) (input : UpsertProviderInput) (s : Store T)
      → SameOrders s (upsert_provider T ctx input s).1
  unfolding upsert_provider
  upsert_provider-SameOrders ctx input s =
      elim (Option-cases (find_provider_by_key T input.key s)) [
        | inl e ↦ ground arith
        | inr (p, e) ↦ ground arith
      ]

  pub delete_provider-SameOrders :
      (key : String) (s : Store T) → SameOrders s (delete_provider T key s).1
  unfolding delete_provider
  delete_provider-SameOrders key s = elim (Option-cases (find_provider_by_key T key s)) [
    | inl e ↦ ground arith
    | inr (p, e) ↦ ground arith
  ]

  insert_event-SameOrders :
      (ctx : Context) (input : RecordEventInput) (s : Store T)
      → SameOrders s (create_payment_event_or_read_existing T ctx input s).1
  unfolding create_payment_event_or_read_existing insert_event
  insert_event-SameOrders ctx input s =
      elim (Option-cases (find_payment_event_by_id T ctx.new_id s)) [
        | inl e ↦ elim (Option-cases (event_of T input s)) [
          | inl g ↦ ground arith
          | inr (x, g) ↦ ground arith
        ]
        | inr (p, e) ↦ elim (Option-cases (event_of T input s)) [
          | inl g ↦ ground arith
          | inr (x, g) ↦ ground arith
        ]
      ]

  pub record_payment_event-SameOrders :
      (ctx : Context) (input : RecordEventInput) (s : Store T)
      → SameOrders s (record_payment_event T ctx input s).1
  unfolding record_payment_event
  record_payment_event-SameOrders ctx input s = elim (Option-cases (event_of T input s)) [
    | inl e ↦ ground (arith, insert_event-SameOrders ctx input s)
    | inr (p, e) ↦ ground arith
  ]

  pub transition_payment_event_status-SameOrders :
      (id : String) (from : EventStatus → Bool) (to : EventStatus) (text : Option String)
      (s : Store T)
      → SameOrders s (transition_payment_event_status T id from to text s).1
  unfolding transition_payment_event_status
  transition_payment_event_status-SameOrders id from to text s =
      elim (Option-cases (find_payment_event_by_id T id s)) [
        | inl e ↦ ground arith
        | inr (p, e) ↦ ground arith
      ]
