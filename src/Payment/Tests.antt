-- ===== src/Payment/Tests.antt =====
-- A small database of kokoro-payment, a credit service that books every call, and runs on them.
pub mod Witnesses
pub mod Composed
use mathlib.Core.Path.{subst}
use kokoro_platform.Base.{
  ap, ℕ, ◌+◌, String, ◌≡◌, refl, Bool, true, false, ◌||◌, Option, none, some, List, [], ◌∷◌, ◌==◌,
  eq_refl, arith, Bool-cases, inl, inr,
}
use kokoro_platform.Base.Effect.{Result, ok, err, Action}
use kokoro_platform.Base.Table.Listed.{Listed, listed}
use kokoro_platform.Payment.Types.{
  UpsertPlanInput, processed, refunded, Json, null, text, object, no_entries, entry, Plan,
  PlanStatus, month, Order, pending, confirming, paid, PaymentEvent, Subscription, Refund, Provider,
  mock, ProviderKind, CreateOrderInput, CreateRefundInput, RefundStatus, CreditsInput,
  RecordEventInput, ParsedEvent, PaymentError, payload_invalid, credit_failed,
}
use kokoro_platform.Payment.Store.{Tables, Store, Context}
use kokoro_platform.Payment.Credits.{Credits}
use kokoro_platform.Payment.Repository.Plans.{put_plan}
use kokoro_platform.Payment.Repository.Orders.{put_order, moved}
use kokoro_platform.Payment.Service.{
  World, create_order, Refunded, confirm_order, refund_order, sweep_stale_confirming_orders,
}
use kokoro_platform.Payment.Repository.Refunds.{put_refund}
use kokoro_platform.Payment.Repository.Events.{put_event, new_event, record_payment_event}
use kokoro_platform.Payment.Machine.{Reach, here, next, plan, order, pay}
use kokoro_platform.Payment.Proofs.Refunds.{IsEmpty}
use kokoro_platform.Payment.Webhook.{WebhookProvider}

abbrev pub tables : Tables
tables = record {
  Plans = Listed {Row = Plan} (λ r. r.id);
  Orders = Listed {Row = Order} (λ r. r.id);
  Events = Listed {Row = PaymentEvent} (λ r. r.id);
  Subscriptions = Listed {Row = Subscription} (λ r. r.id);
  Refunds = Listed {Row = Refund} (λ r. r.id);
  Providers = Listed {Row = Provider} (λ r. r.id);
  plans = listed (λ (r : Plan). r.id);
  orders = listed (λ (r : Order). r.id);
  events = listed (λ (r : PaymentEvent). r.id);
  subscriptions = listed (λ (r : Subscription). r.id);
  refunds = listed (λ (r : Refund). r.id);
  providers = listed (λ (r : Provider). r.id);
}

abbrev pub nothing : Store tables
nothing = record {
  plans = ([], tt);
  orders = ([], tt);
  events = ([], tt);
  subscriptions = ([], tt);
  refunds = ([], tt);
  providers = ([], tt);
}

abbrev has_key : String → List String → Bool
has_key key [] = false
has_key key (k ∷ keys) = (k == key) || has_key key keys

abbrev book : CreditsInput → Action (List String) PaymentError (Unit {0})
book input keys = (ok tt, input.idempotency_key ∷ keys)

pub book_books : (k : String) (keys : List String) → has_key k (k ∷ keys) ≡ true
book_books k keys = ground (arith, eq_refl k)

-- The state is the list of the keys that have been booked.
abbrev pub ledger : Credits
ledger = record {
  State = List String;
  grant = book;
  reverse = book;
  Granted = λ input keys. has_key input.idempotency_key keys ≡ true;
  Reversed = λ input keys. has_key input.idempotency_key keys ≡ true;
  grant_books = λ input s s' e.
      subst (λ x. has_key input.idempotency_key x ≡ true) (ap (λ r. r.1) e)
        (book_books input.idempotency_key s);
  reverse_books = λ input s s' e.
      subst (λ x. has_key input.idempotency_key x ≡ true) (ap (λ r. r.1) e)
        (book_books input.idempotency_key s);
}

-- A credit service that refuses everything.
abbrev refuse : CreditsInput → Action (Unit {0}) PaymentError (Unit {0})
refuse input u = (err (credit_failed "credit.unavailable"), u)

abbrev pub refusing : Credits
refusing = record {
  State = Unit {0};
  grant = refuse;
  reverse = refuse;
  Granted = λ input s. Unit {0};
  Reversed = λ input s. Unit {0};
  grant_books = λ input s s' e. tt;
  reverse_books = λ input s s' e. tt;
}

abbrev pub noon : ℕ
noon = 1_709_208_000_000

abbrev pub context : Context
context = record { now = noon; new_id = "id-1"; uuid = "uuid-1" }

abbrev pub later : Context
later = record { now = noon + 600_000; new_id = "id-2"; uuid = "uuid-2" }

abbrev pub plus : Plan
plus = record {
  id = "plan-1";
  site_id = "site-1";
  key = "plus";
  name = "Plus";
  currency = "USD";
  amount_minor = 990;
  credit_micros = 5_000_000;
  billing_interval = month;
  status = PlanStatus.active;
  deleted_at = none;
  deleted_by = none;
  delete_reason = none;
  created_at = noon;
}

abbrev pub order_input : CreateOrderInput
order_input = record {
  site_id = "site-1";
  team_id = "team-1";
  plan_id = "plan-1";
  amount_minor = "990";
  currency = "USD";
  idempotency_key = "key-1";
}

abbrev pub new : Order
new = record {
  id = "id-1";
  site_id = "site-1";
  team_id = "team-1";
  plan_id = "plan-1";
  amount_minor = 990;
  currency = "USD";
  status = pending;
  idempotency_key = "key-1";
  created_at = noon;
  updated_at = noon;
}

abbrev pub with_plan : Store tables
with_plan = put_plan tables plus nothing

abbrev pub with_order : Store tables
with_order = put_order tables new with_plan

abbrev pub with_paid : Store tables
with_paid = put_order tables (moved noon paid new) with_order

abbrev pub world : {K : Credits} → K.State → Store tables → World tables K
world s db = record { db = db; credits = s }

abbrev pub start : World tables ledger
start = world [] with_order

abbrev pub paid_world : World tables ledger
paid_world = world ("order:id-1" ∷ []) (
    put_order tables (moved (noon + 5) paid new)
      (put_order tables (moved (noon + 5) confirming new) with_order))

abbrev pub paid_refusing : World tables refusing
paid_refusing = world tt with_paid

abbrev pub order_refusing : World tables refusing
order_refusing = world tt with_order

abbrev pub suspended_world : World tables refusing
suspended_world = world tt (put_order tables (moved (noon + 5) confirming new) with_order)

abbrev pub refund : Refund
refund = record {
  id = "id-2";
  order_id = "id-1";
  amount_minor = 990;
  currency = "USD";
  status = RefundStatus.succeeded;
  reason = some "refund";
  created_at = noon + 600_000;
}

abbrev pub refund_result : Refunded
refund_result = record {
  order = record (moved noon paid new) { status = refunded };
  refund = refund;
}

abbrev pub refunded_world : World tables ledger
refunded_world =
    world ("order-refund:id-1" ∷ [])
      (put_refund tables refund (put_order tables (moved (noon + 600_000) refunded new) with_paid))

abbrev pub with_stale : Store tables
with_stale = put_order tables (moved noon confirming new) with_plan

-- An order is created, confirmed and refunded.
pub creates :
    create_order tables ledger context order_input (world [] with_plan)
    ≡ (ok new, world [] with_order)
unfolding create_order kokoro_platform.Payment.Amount.parse_positive_bigint_string
    kokoro_platform.Base.Decimal.parse_digits kokoro_platform.Payment.Service.assert_plan_sellable
    kokoro_platform.Payment.Repository.Orders.create_order
    kokoro_platform.Payment.Repository.Orders.create_order_or_read_existing
    kokoro_platform.Payment.Repository.Orders.insert_order
creates = refl

pub confirms :
    confirm_order tables ledger (noon + 5) "id-1" "request-1" start
    ≡ (ok (moved (noon + 5) paid new), paid_world)
unfolding confirm_order kokoro_platform.Payment.Service.assert_plan_not_deleted
    kokoro_platform.Payment.Repository.Orders.mark_order_confirming
    kokoro_platform.Payment.Repository.Orders.mark_order_paid
confirms = refl

pub suspends :
    confirm_order tables refusing (noon + 5) "id-1" "request-1" order_refusing
    ≡ (err (credit_failed "credit.unavailable"), suspended_world)
unfolding confirm_order kokoro_platform.Payment.Service.assert_plan_not_deleted
    kokoro_platform.Payment.Repository.Orders.mark_order_confirming
suspends = refl

pub gives_back :
    refund_order tables ledger later "id-1" "request-2" (world [] with_paid)
    ≡ (ok refund_result, refunded_world)
unfolding refund_order kokoro_platform.Payment.Repository.Refunds.refund_order_atomically
    kokoro_platform.Payment.Amount.parse_positive_bigint_string
    kokoro_platform.Base.Decimal.parse_digits kokoro_platform.Base.Decimal.to_string
    kokoro_platform.Payment.Repository.Refunds.refund_body
gives_back = refl

pub keeps_credit :
    refund_order tables refusing later "id-1" "request-2" paid_refusing
    ≡ (err (credit_failed "credit.unavailable"), paid_refusing)
unfolding refund_order
keeps_credit = refl

-- The events of a provider whose signature is its secret, and whose bodies are the ids of events.
abbrev pub parsed_event : ParsedEvent
parsed_event = record {
  event_id = "event-1";
  event_type = "invoice.created";
  order_id = none;
  subscription = none;
}

abbrev pub webhook_provider : WebhookProvider String String
webhook_provider = record {
  verify_signature = λ header body secret. header == secret;
  decode_body = λ body. some (text body);
  parse_event = λ payload. ok parsed_event;
}

abbrev pub registry : ProviderKind → Option (WebhookProvider String String)
registry mock = some webhook_provider
registry _ = none

abbrev pub resolve_secret : String → Option String
resolve_secret _ = some "secret"

abbrev pub message_of : PaymentError → String
message_of _ = "failed"

abbrev pub event_input : RecordEventInput
event_input = record {
  provider = "mock";
  event_id = "event-1";
  event_type = "invoice.created";
  payload = text "event-1";
}

abbrev pub provider : Provider
provider = record {
  id = "provider-1";
  key = "mock";
  kind = mock;
  webhook_secret_ref = "MOCK_SECRET";
  enabled = true;
  created_at = noon;
}

abbrev pub with_provider : Store tables
with_provider = record nothing { providers = tables.providers.put provider nothing.providers }

abbrev pub with_event : Store tables
with_event = put_event tables (new_event context event_input) with_provider

abbrev pub done_event : PaymentEvent
done_event = record (new_event context event_input) { status = processed }

abbrev pub with_done : Store tables
with_done = put_event tables done_event with_provider

pub records :
    record_payment_event tables context event_input with_provider
    ≡ (ok (new_event context event_input), with_event)
unfolding record_payment_event
    kokoro_platform.Payment.Repository.Events.create_payment_event_or_read_existing
records = refl

abbrev pub plan_input : UpsertPlanInput
plan_input = record {
  site_id = "site-1";
  key = "plus";
  name = "Plus";
  currency = "USD";
  amount_minor = "990";
  credit_micros = some "5000000";
  billing_interval = month;
}

abbrev pub plan_context : Context
plan_context = record context { new_id = "plan-1" }

pub nothing-IsEmpty : IsEmpty tables nothing
nothing-IsEmpty = record { no_orders = λ id. refl; no_refunds = λ id. refl }

-- The plan is written, the order created and paid.
pub paid_in_three_calls : Reach tables nothing with_paid
unfolding kokoro_platform.Payment.Repository.Orders.mark_order_paid
    kokoro_platform.Payment.Repository.Orders.create_order
    kokoro_platform.Payment.Repository.Plans.upsert_plan
    kokoro_platform.Payment.Amount.parse_positive_bigint_string
    kokoro_platform.Base.Decimal.parse_digits
    kokoro_platform.Payment.Amount.parse_non_negative_bigint_string
    kokoro_platform.Payment.Repository.Plans.upsert_plan_row
    kokoro_platform.Payment.Repository.Orders.create_order_or_read_existing
    kokoro_platform.Payment.Repository.Orders.insert_order
paid_in_three_calls =
    next (next (next here (plan plan_context plan_input)) (order context order_input))
      (pay noon "id-1")
