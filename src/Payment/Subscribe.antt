-- ===== src/Payment/Subscribe.antt =====
-- applySubscriptionEvent of kokoro-payment/src/application/payment-service.ts.
use Prim.Native.String
use kokoro_platform.Base.{ℕ, String, ◌&&◌, Option, none, some, ltb, if◌then◌else◌}
use kokoro_platform.Base.Iso.{to_iso_string}
use kokoro_platform.Base.Effect.{Action}
use kokoro_platform.Base.Effect.Async.{pure, gets, lift, or_throw, ◌>>=◌, ◌>>◌}
use kokoro_platform.Base.Decimal.{to_string}
use kokoro_platform.Payment.Types.{
  Plan, Subscription, SubscriptionEvent, UpsertSubscriptionInput, CreditsInput, PaymentError,
  plan_not_found,
}
use kokoro_platform.Payment.Store.{Tables, Context}
use kokoro_platform.Payment.Credits.{Credits}
use kokoro_platform.Payment.Repository.Plans.{find_plan_by_id}
use kokoro_platform.Payment.Repository.Subscriptions.{upsert_subscription}
use kokoro_platform.Payment.Service.{World, on_db, on_credits, assert_plan_not_deleted}

abbrev pub subscription_input : String → SubscriptionEvent → UpsertSubscriptionInput
subscription_input provider event = record {
  provider = provider;
  provider_subscription_id = event.provider_subscription_id;
  team_id = event.team_id;
  plan_id = event.plan_id;
  status = event.status;
  current_period_start = event.current_period_start;
  current_period_end = event.current_period_end;
}

-- The beginning of the period, or the row where it is not known.
abbrev period_key : Option ℕ → Subscription → String
period_key none subscription = subscription.id
period_key (some start) subscription = to_iso_string start

abbrev pub subscription_key : String → SubscriptionEvent → Subscription → String
subscription_key provider event subscription = String.◌++◌ "subscription:" (
    String.◌++◌ provider (
      String.◌++◌ ":" (
        String.◌++◌ event.provider_subscription_id
          (String.◌++◌ ":" (period_key event.current_period_start subscription)))))

abbrev pub subscription_grant :
    String → SubscriptionEvent → Plan → Subscription → String → CreditsInput
subscription_grant provider event plan subscription request_id = record {
  site_id = plan.site_id;
  request_id = request_id;
  owner_id = event.team_id;
  amount_micros = to_string plan.credit_micros;
  idempotency_key = subscription_key provider event subscription;
}

module _ (T : Tables) (K : Credits) where
  unfoldable pub apply_subscription_event :
      Context → String → SubscriptionEvent → String → Action (World T K) PaymentError Subscription
  apply_subscription_event ctx provider event request_id = do
    found ← gets (λ w. find_plan_by_id T event.plan_id w.db)
    plan ← or_throw found plan_not_found
    lift (assert_plan_not_deleted plan)
    subscription ← on_db T K (upsert_subscription T ctx (subscription_input provider event))
    if event.grant_credits && ltb 0 plan.credit_micros
        then on_credits T K
            (K.grant (subscription_grant provider event plan subscription request_id))
        else pure tt
    pure subscription
