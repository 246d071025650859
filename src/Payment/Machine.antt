-- ===== src/Payment/Machine.antt =====
-- The calls of the repository of kokoro-payment that change its database, as steps in any order. The
-- refund of an order names that order, as `refundOrder` calls it.
use kokoro_platform.Base.{ℕ, String, ◌≡◌, Option}
use kokoro_platform.Payment.Types.{
  UpsertPlanInput, DeletePlanInput, CreateOrderInput, CreateRefundInput, UpsertSubscriptionInput,
  UpsertProviderInput, RecordEventInput, EventStatus,
}
use kokoro_platform.Payment.Store.{Tables, Store, Context}
use kokoro_platform.Payment.Repository.Plans.{upsert_plan, delete_plan, restore_plan}
use kokoro_platform.Payment.Repository.Orders.{create_order, mark_order_confirming, mark_order_paid}
use kokoro_platform.Payment.Repository.Refunds.{refund_order_atomically}
use kokoro_platform.Payment.Repository.Subscriptions.{upsert_subscription}
use kokoro_platform.Payment.Repository.Events.{
  upsert_provider, delete_provider, record_payment_event, transition_payment_event_status,
  is_unprocessed,
}

module _ (T : Tables) where
  pub data Step (s : Store T) : Store T → Type 0 where
    plan : (ctx : Context) (input : UpsertPlanInput) → Step s (upsert_plan T ctx input s).1
    drop_plan : (now : ℕ) (input : DeletePlanInput) → Step s (delete_plan T now input s).1
    revive_plan : (id : String) → Step s (restore_plan T id s).1
    order : (ctx : Context) (input : CreateOrderInput) → Step s (create_order T ctx input s).1
    confirm : (now : ℕ) (id : String) → Step s (mark_order_confirming T now id s).1
    pay : (now : ℕ) (id : String) → Step s (mark_order_paid T now id s).1
    refund :
        (ctx : Context) (id : String) (input : CreateRefundInput)
        → input.order_id ≡ id
        → Step s (refund_order_atomically T ctx id input s).1
    subscribe :
        (ctx : Context) (input : UpsertSubscriptionInput)
        → Step s (upsert_subscription T ctx input s).1
    provider :
        (ctx : Context) (input : UpsertProviderInput) → Step s (upsert_provider T ctx input s).1
    drop_provider : (key : String) → Step s (delete_provider T key s).1
    event :
        (ctx : Context) (input : RecordEventInput) → Step s (record_payment_event T ctx input s).1
    process :
        (id : String) (to : EventStatus) (last_error : Option String)
        → Step s (transition_payment_event_status T id is_unprocessed to last_error s).1

  pub data Reach (s : Store T) : Store T → Type 0 where
    here : Reach s s
    next : {t u : Store T} → Reach s t → Step t u → Reach s u
