-- ===== src/Payment/Repository/Subscriptions.antt =====
-- The subscriptions: upsertSubscription.
use kokoro_platform.Base.{String, Bool, ◌&&◌, Option, none, some, false, ◌==◌}
use kokoro_platform.Base.Effect.{ok, err, Action}
use kokoro_platform.Payment.Types.{
  Subscription, UpsertSubscriptionInput, PaymentError, unique_conflict,
}
use kokoro_platform.Payment.Store.{Tables, Store, Context}

-- A column that is null equals no text.
abbrev is_text : Option String → String → Bool
is_text none t = false
is_text (some s) t = s == t

abbrev pub is_subscription : UpsertSubscriptionInput → Subscription → Bool
is_subscription input r =
    is_text r.provider input.provider
    && is_text r.provider_subscription_id input.provider_subscription_id

abbrev pub new_subscription : Context → UpsertSubscriptionInput → Subscription
new_subscription ctx input = record {
  id = ctx.new_id;
  team_id = input.team_id;
  plan_id = input.plan_id;
  status = input.status;
  provider = some input.provider;
  provider_subscription_id = some input.provider_subscription_id;
  current_period_start = input.current_period_start;
  current_period_end = input.current_period_end;
  created_at = ctx.now;
}

abbrev pub renewed : UpsertSubscriptionInput → Subscription → Subscription
renewed input r = record r {
  status = input.status;
  current_period_start = input.current_period_start;
  current_period_end = input.current_period_end;
}

module _ (T : Tables) where
  abbrev pub find_subscription : String → Store T → Option Subscription
  find_subscription id s = T.subscriptions.find_unique id s.subscriptions

  abbrev pub put_subscription : Subscription → Store T → Store T
  put_subscription r s = record s { subscriptions = T.subscriptions.put r s.subscriptions }

  -- `provider` and `providerSubscriptionId` together are a unique column.
  abbrev pub subscription_of : UpsertSubscriptionInput → Store T → Option Subscription
  subscription_of input s =
      T.subscriptions.find_first (is_subscription input) (λ _. 0) s.subscriptions

  unfoldable pub upsert_subscription :
      Context → UpsertSubscriptionInput → Action (Store T) PaymentError Subscription
  upsert_subscription ctx input s = elim (subscription_of input s) [
    | some existing ↦ let row = renewed input existing in (ok row, put_subscription row s)
    | none ↦ elim (find_subscription ctx.new_id s) [
      | some _ ↦ (err unique_conflict, s)
      | none ↦ let row = new_subscription ctx input in (ok row, put_subscription row s)
    ]
  ]
