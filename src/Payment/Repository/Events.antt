-- ===== src/Payment/Repository/Events.antt =====
-- The providers and the events that they send: upsertProvider, findProviderByKey, deleteProvider,
-- recordPaymentEvent, findPaymentEventById and transitionPaymentEventStatus.
use kokoro_platform.Base.{String, Bool, true, false, ◌&&◌, Option, none, some, ◌==◌, if◌then◌else◌}
use kokoro_platform.Base.Effect.{Result, ok, err, Action}
use kokoro_platform.Payment.Types.{
  PaymentEvent, EventStatus, received, processed, Provider, UpsertProviderInput, RecordEventInput,
  PaymentError, provider_not_found, idempotency_conflict, unique_conflict, record_missing,
}
use kokoro_platform.Payment.Payload.{to_json, same_payload}
use kokoro_platform.Payment.Store.{Tables, Store, Context}

abbrev pub new_event : Context → RecordEventInput → PaymentEvent
new_event ctx input = record {
  id = ctx.new_id;
  provider = input.provider;
  event_id = input.event_id;
  event_type = input.event_type;
  payload = to_json input.payload;
  status = received;
  last_error = none;
  created_at = ctx.now;
}

abbrev new_provider : Context → UpsertProviderInput → Provider
new_provider ctx input = record {
  id = ctx.new_id;
  key = input.key;
  kind = input.kind;
  webhook_secret_ref = input.webhook_secret_ref;
  enabled = input.enabled;
  created_at = ctx.now;
}

abbrev updated_provider : UpsertProviderInput → Provider → Provider
updated_provider input p = record p {
  kind = input.kind;
  webhook_secret_ref = input.webhook_secret_ref;
  enabled = input.enabled;
}

abbrev pub is_event : RecordEventInput → PaymentEvent → Bool
is_event input e = (e.provider == input.provider) && e.event_id == input.event_id

-- `assertSamePaymentEventIdempotencyTarget`, and the event where it holds
unfoldable pub assert_same_payment_event_idempotency_target :
    PaymentEvent → RecordEventInput → Result PaymentError PaymentEvent
assert_same_payment_event_idempotency_target e input =
    if (e.event_type == input.event_type) && same_payload e.payload input.payload
    then ok e
    else err idempotency_conflict

-- `status: { in: ["received", "failed"] }`
abbrev pub is_unprocessed : EventStatus → Bool
is_unprocessed processed = false
is_unprocessed _ = true

module _ (T : Tables) where
  abbrev pub find_provider_by_key : String → Store T → Option Provider
  find_provider_by_key key s = T.providers.find_first (λ p. p.key == key) (λ _. 0) s.providers

  abbrev put_provider : Provider → Store T → Store T
  put_provider p s = record s { providers = T.providers.put p s.providers }

  unfoldable pub upsert_provider :
      Context → UpsertProviderInput → Action (Store T) PaymentError Provider
  upsert_provider ctx input s = elim (find_provider_by_key input.key s) [
    | some existing ↦
        let provider = updated_provider input existing in (ok provider, put_provider provider s)
    | none ↦ elim (T.providers.find_unique ctx.new_id s.providers) [
      | some _ ↦ (err unique_conflict, s)
      | none ↦ let provider = new_provider ctx input in (ok provider, put_provider provider s)
    ]
  ]

  unfoldable pub delete_provider : String → Action (Store T) PaymentError Provider
  delete_provider key s = elim (find_provider_by_key key s) [
    | none ↦ (err provider_not_found, s)
    | some existing ↦
        (ok existing, record s { providers = T.providers.delete existing.id s.providers })
  ]

  abbrev pub find_payment_event_by_id : String → Store T → Option PaymentEvent
  find_payment_event_by_id id s = T.events.find_unique id s.events

  abbrev pub put_event : PaymentEvent → Store T → Store T
  put_event e s = record s { events = T.events.put e s.events }

  -- `provider` and `eventId` together are a unique column.
  abbrev pub event_of : RecordEventInput → Store T → Option PaymentEvent
  event_of input s = T.events.find_first (is_event input) (λ _. 0) s.events

  unfoldable pub insert_event :
      RecordEventInput → PaymentEvent → Action (Store T) PaymentError PaymentEvent
  insert_event input e s = elim (find_payment_event_by_id e.id s) [
    | some _ ↦ (err unique_conflict, s)
    | none ↦ elim (event_of input s) [
      | some _ ↦ (err unique_conflict, s)
      | none ↦ (ok e, put_event e s)
    ]
  ]

  -- Another call recorded the event in between.
  unfoldable pub create_payment_event_or_read_existing :
      Context → RecordEventInput → Action (Store T) PaymentError PaymentEvent
  unfolding insert_event
  create_payment_event_or_read_existing ctx input s =
      let (r, s') = insert_event input (new_event ctx input) s in
      elim r [
        | err unique_conflict ↦ elim (event_of input s') [
          | none ↦ (err record_missing, s')
          | some existing ↦ (assert_same_payment_event_idempotency_target existing input, s')
        ]
        | other ↦ (other, s')
      ]

  unfoldable pub record_payment_event :
      Context → RecordEventInput → Action (Store T) PaymentError PaymentEvent
  record_payment_event ctx input s = elim (event_of input s) [
    | some existing ↦ (assert_same_payment_event_idempotency_target existing input, s)
    | none ↦ create_payment_event_or_read_existing ctx input s
  ]

  -- Both callers pass `["received", "failed"]` for `from`; none where another call was faster.
  unfoldable pub transition_payment_event_status :
      String
      → (EventStatus → Bool)
      → EventStatus
      → Option String
      → Store T
      → Option PaymentEvent × Store T
  transition_payment_event_status id from to last_error s = elim (find_payment_event_by_id id s) [
    | none ↦ (none, s)
    | some e ↦
        let row = record e { status = to; last_error = last_error } in
        if from e.status then (some row, put_event row s) else (none, s)
  ]
