-- ===== src/Payment/Proofs/Webhook.antt =====
-- The reception of webhooks: nothing is done for a body whose signature does not verify.
use kokoro_platform.Base.{
  String, ◌≡◌, ◌⊎◌, inl, inr, true, some, Option, arith, Bool-cases, Option-cases,
}
use kokoro_platform.Base.Effect.{ok, err, Result-cases}
use kokoro_platform.Payment.Types.{
  Json, Provider, ProviderKind, ParsedEvent, PaymentError, provider_unknown,
  provider_not_implemented, secret_unavailable, signature_invalid, payload_invalid,
}
use kokoro_platform.Payment.Store.{Tables, Context}
use kokoro_platform.Payment.Credits.{Credits}
use kokoro_platform.Payment.Repository.Events.{find_provider_by_key}
use kokoro_platform.Payment.Service.{World}
use kokoro_platform.Payment.Webhook.{WebhookProvider, present, receive_webhook}

module _ (T : Tables) (K : Credits) {Headers Body : Type 0}
    (registry : ProviderKind → Option (WebhookProvider Headers Body))
    (resolve_secret : String → Option String) (message_of : PaymentError → String) where
  -- The provider is configured, enabled and implemented, its secret is there and not empty, and the
  -- signature of the body verifies with it; the body was read as an event.
  pub record Accepted (key : String) (headers : Headers) (body : Body) (w : World T K)
      : Type 0 where
    pub config : Provider
    pub configured : find_provider_by_key T key w.db ≡ some config
    pub enabled : config.enabled ≡ true
    pub provider : WebhookProvider Headers Body
    pub implemented : registry config.kind ≡ some provider
    pub secret : String
    pub resolved : present (resolve_secret config.webhook_secret_ref) ≡ some secret
    pub verified : provider.verify_signature headers body secret ≡ true
    pub payload : Json
    pub decoded : provider.decode_body body ≡ some payload
    pub parsed : ParsedEvent
    pub read : provider.parse_event payload ≡ ok parsed

  -- A webhook is accepted, or it is refused and neither the database nor the credit service changes.
  pub receive_webhook_decides :
      (ctx : Context) (key : String) (headers : Headers) (body : Body) (request_id : String)
      (w : World T K)
      → Accepted key headers body w
        ⊎ ((e : PaymentError) × (receive_webhook T K registry resolve_secret message_of ctx key
                headers body request_id w
              ≡ (err e, w)))
  unfolding receive_webhook
  receive_webhook_decides ctx key headers body request_id w =
      elim (Option-cases (find_provider_by_key T key w.db)) [
        | inl unknown ↦ inr (provider_unknown, ground arith)
        | inr (config, configured) ↦ elim (Bool-cases config.enabled) [
          | inr off ↦ inr (provider_unknown, ground arith)
          | inl enabled ↦ elim (Option-cases (registry config.kind)) [
            | inl missing ↦ inr (provider_not_implemented, ground arith)
            | inr (provider, implemented) ↦
                elim (Option-cases (present (resolve_secret config.webhook_secret_ref))) [
                  | inl dangling ↦ inr (secret_unavailable, ground arith)
                  | inr (secret, resolved) ↦
                      elim (Bool-cases (provider.verify_signature headers body secret)) [
                        | inr forged ↦ inr (signature_invalid, ground arith)
                        | inl verified ↦ elim (Option-cases (provider.decode_body body)) [
                          | inl garbled ↦ inr (payload_invalid, ground arith)
                          | inr (payload, decoded) ↦
                              elim (Result-cases (provider.parse_event payload)) [
                                | inr (e, unread) ↦ inr (e, ground arith)
                                | inl (parsed, read) ↦ inl (record {
                                  config = config;
                                  configured = configured;
                                  enabled = enabled;
                                  provider = provider;
                                  implemented = implemented;
                                  secret = secret;
                                  resolved = resolved;
                                  verified = verified;
                                  payload = payload;
                                  decoded = decoded;
                                  parsed = parsed;
                                  read = read;
                                })
                              ]
                        ]
                      ]
                ]
          ]
        ]
      ]
