-- ===== src/Payment/Webhook.antt =====
-- kokoro-payment/src/application/webhook-service.ts. A payment provider is its three functions
-- (`PaymentWebhookProvider` of src/domain/webhook.ts), and the registry gives them for a kind.
use kokoro_platform.Base.{String, Bool, true, false, not, Option, none, some, ◌==◌, if◌then◌else◌}
use kokoro_platform.Base.Effect.{Result, ok, err, Action}
use kokoro_platform.Base.Effect.Async.{pure, gets, lift, throw_if, or_throw, ◌>>=◌, ◌>>◌}
use kokoro_platform.Payment.Types.{
  Json, PaymentEvent, EventStatus, received, processed, failed, Provider, ProviderKind, ParsedEvent,
  RecordEventInput, PaymentError, event_not_found, provider_unknown, provider_not_implemented,
  secret_unavailable, signature_invalid, payload_invalid, event_incomplete,
}
use kokoro_platform.Payment.Store.{Tables, Context}
use kokoro_platform.Payment.Credits.{Credits}
use kokoro_platform.Payment.Repository.Events.{
  find_provider_by_key, find_payment_event_by_id, record_payment_event,
  transition_payment_event_status, is_unprocessed,
}
use kokoro_platform.Payment.Service.{World, on_db, confirm_order, refund_order}
use kokoro_platform.Payment.Subscribe.{apply_subscription_event}

-- `decode_body` is `decodeBody` or `JSON.parse`, and none where it throws.
pub record WebhookProvider (Headers Body : Type 0) : Type 0 where
  pub verify_signature : Headers → Body → String → Bool
  pub decode_body : Body → Option Json
  pub parse_event : Json → Result PaymentError ParsedEvent

-- `WEBHOOK_EVENT`
abbrev pub payment_succeeded : String
payment_succeeded = "payment_succeeded"

abbrev pub subscription_updated : String
subscription_updated = "subscription_updated"

abbrev pub refund_succeeded : String
refund_succeeded = "refund_succeeded"

pub record Receipt : Type 0 where
  pub event : PaymentEvent
  pub duplicate : Bool

-- `if (!secret)`: a text that is empty is none.
abbrev pub present : Option String → Option String
present none = none
present (some t) = if t == "" then none else some t

abbrev pub is_received : EventStatus → Bool
is_received received = true
is_received _ = false

abbrev pub is_processed : EventStatus → Bool
is_processed processed = true
is_processed _ = false

abbrev pub recorded : Provider → ParsedEvent → Json → RecordEventInput
recorded config parsed payload = record {
  provider = config.key;
  event_id = parsed.event_id;
  event_type = parsed.event_type;
  payload = payload;
}

-- `a ?? b ?? c`
abbrev pub first_of : {A : Type 0} → Option A → Option A → A → A
first_of (some a) _ _ = a
first_of none (some b) _ = b
first_of none none c = c

module _ (T : Tables) (K : Credits) {Headers Body : Type 0}
    (registry : ProviderKind → Option (WebhookProvider Headers Body))
    (resolve_secret : String → Option String) (message_of : PaymentError → String) where
  abbrev pub Call : Type 0 → Type 0
  Call A = Action (World T K) PaymentError A

  -- What an event does, by its type.
  unfoldable pub apply_event : Context → PaymentEvent → ParsedEvent → String → Call (Unit {0})
  apply_event ctx event parsed request_id =
      if parsed.event_type == payment_succeeded
      then (do
        order_id ← or_throw parsed.order_id event_incomplete
        confirm_order T K ctx.now order_id request_id
        pure tt)
      else if parsed.event_type == refund_succeeded
      then (do
        order_id ← or_throw parsed.order_id event_incomplete
        refund_order T K ctx order_id request_id
        pure tt)
      else if parsed.event_type == subscription_updated
      then (do
        subscription ← or_throw parsed.subscription event_incomplete
        apply_subscription_event T K ctx event.provider subscription request_id
        pure tt)
      else pure tt

  -- The event moves on where it has not been processed, and is returned as it is now.
  unfoldable pub finish_event :
      PaymentEvent → EventStatus → Option String → World T K → PaymentEvent × World T K
  finish_event event to last_error w =
      let (moved, db) =
        transition_payment_event_status T event.id is_unprocessed to last_error w.db in
      (first_of moved (find_payment_event_by_id T event.id db) event, record w { db = db })

  unfoldable pub process :
      Context → PaymentEvent → ParsedEvent → String → World T K → PaymentEvent × World T K
  unfolding apply_event finish_event
  process ctx event parsed request_id w =
      let (r, w') = apply_event ctx event parsed request_id w in
      elim r [
        | ok _ ↦ finish_event event processed none w'
        | err e ↦ finish_event event failed (some (message_of e)) w'
      ]

  -- `process` throws nothing.
  abbrev pub processing : Context → PaymentEvent → ParsedEvent → String → Call PaymentEvent
  processing ctx event parsed request_id w =
      let (e, w') = process ctx event parsed request_id w in (ok e, w')

  unfoldable pub receive_webhook : Context → String → Headers → Body → String → Call Receipt
  unfolding process
  receive_webhook ctx provider_key headers body request_id = do
    found ← gets (λ w. find_provider_by_key T provider_key w.db)
    config ← or_throw found provider_unknown
    throw_if (not config.enabled) provider_unknown
    provider ← or_throw (registry config.kind) provider_not_implemented
    secret ← or_throw (present (resolve_secret config.webhook_secret_ref)) secret_unavailable
    throw_if (not (provider.verify_signature headers body secret)) signature_invalid
    payload ← or_throw (provider.decode_body body) payload_invalid
    parsed ← lift (provider.parse_event payload)
    event ← on_db T K (record_payment_event T ctx (recorded config parsed payload))
    let handle = do
      result ← processing ctx event parsed request_id
      pure (record { event = result; duplicate = false })
    if is_received event.status then handle else pure (record { event = event; duplicate = true })

  unfoldable pub replay_event : Context → String → String → Call PaymentEvent
  unfolding process
  replay_event ctx id request_id = do
    stored ← gets (λ w. find_payment_event_by_id T id w.db)
    event ← or_throw stored event_not_found
    let replay = do
      found ← gets (λ w. find_provider_by_key T event.provider w.db)
      config ← or_throw found provider_unknown
      provider ← or_throw (registry config.kind) provider_not_implemented
      parsed ← lift (provider.parse_event event.payload)
      processing ctx event parsed request_id
    if is_processed event.status then pure event else replay
