-- ===== src/Payment/Tests/Witnesses.antt =====
-- The theorems on kokoro-payment at concrete inputs.
use kokoro_platform.Payment.Store.{Store}
use kokoro_platform.Payment.Reordered.{entries, swap}
use kokoro_platform.Base.{arith, eq_iff, ◌+◌, ◌-◌, ◌≡◌, false, refl, ◌⊎◌, some, []}
use kokoro_platform.Base.Decimal.{to_string}
use kokoro_platform.Base.Effect.{ok, err}
use kokoro_platform.Payment.Types.{
  Json, object, number, text, entry, no_entries, RecordEventInput, Plan, Order, confirming, paid,
  PaymentError, credit_failed, failed,
}
use kokoro_platform.Payment.Service.{
  Refunded, create_order, confirm_order, refund_order, sweep_stale_confirming_orders,
}
use kokoro_platform.Payment.Repository.Orders.{
  list_stale_confirming_orders, is_paid, find_order_by_id, mark_order_paid, moved,
}
use kokoro_platform.Payment.Repository.Events.{
  create_payment_event_or_read_existing, insert_event, put_event, new_event,
  find_payment_event_by_id, record_payment_event, transition_payment_event_status, is_unprocessed,
}
use kokoro_platform.Payment.Webhook.{receive_webhook}
use kokoro_platform.Payment.Machine.{here, next, pay, process}
use kokoro_platform.Payment.Proofs.Orders.{Refines}
use kokoro_platform.Payment.Proofs.Lifecycle.{Follows, Step-Refines, Reach-Follows}
use kokoro_platform.Payment.Proofs.Refunds.{refunds_of, owed, RefundsMatch, reachable-RefundsMatch}
use kokoro_platform.Payment.Proofs.RefundOnce.{
  WasPaid, refund_order_gives_back, refund_order_fails, refund_order-refund_order,
}
use kokoro_platform.Payment.Proofs.Confirm.{Confirmed, Suspended}
use kokoro_platform.Payment.Proofs.Confirmed.{
  confirm_order_settles, confirm_order_fails, confirm_order-confirm_order,
}
use kokoro_platform.Payment.Proofs.Sweep.{PaidIn, StoppedIn, sweep_stale_confirming_orders_pays}
use kokoro_platform.Payment.Proofs.Create.{
  Anchored, create_order-Anchored, create_order-create_order,
}
use kokoro_platform.Payment.Proofs.Events.{
  record_payment_event-record_payment_event, Reach-processed,
}
use kokoro_platform.Payment.Proofs.Webhook.{Accepted, receive_webhook_decides}
use kokoro_platform.Payment.Tests.{
  paid_in_three_calls, nothing-IsEmpty, tables, ledger, refusing, noon, context, later, plus,
  order_input, new, with_plan, with_order, with_paid, world, start, paid_world, suspended_world,
  paid_refusing, order_refusing, refund, refund_result, refunded_world, with_stale, creates,
  confirms, suspends, gives_back, keeps_credit, registry, resolve_secret, message_of, event_input,
  with_provider, done_event, with_done,
}

paid-RefundsMatch : RefundsMatch tables with_paid
paid-RefundsMatch = reachable-RefundsMatch tables nothing-IsEmpty paid_in_three_calls

reachable-RefundsMatch_example :
    refunds_of tables "id-1" with_paid ≡ owed (find_order_by_id tables "id-1" with_paid)
reachable-RefundsMatch_example =
    reachable-RefundsMatch tables nothing-IsEmpty paid_in_three_calls "id-1"

Step-Refines_example : Refines tables with_order (mark_order_paid tables noon "id-1" with_order).1
Step-Refines_example = Step-Refines tables (pay noon "id-1")

Reach-Follows_example :
    (o : Order) × (find_order_by_id tables "id-1" (mark_order_paid tables noon "id-1" with_order).1
      ≡ some o)
    × Follows new o
Reach-Follows_example = Reach-Follows tables "id-1" new (next here (pay noon "id-1")) refl

confirm_order_settles_example :
    let (r, w') = confirm_order tables ledger (noon + 5) "id-1" "request-1" start in
    ((o : Order) × (r ≡ ok o) × Confirmed tables ledger "id-1" o start w')
    ⊎ ((e : PaymentError) × (r ≡ err e)
        × ((o : Order) × (find_order_by_id tables "id-1" w'.db ≡ some o)
            × (is_paid o.status ≡ false)))
confirm_order_settles_example =
    confirm_order_settles tables ledger (noon + 5) "id-1" "request-1" new start refl refl

confirm_order_fails_example :
    (suspended_world ≡ order_refusing)
    ⊎ ((p : Plan) × Suspended tables refusing "id-1" p
          (credit_failed "credit.unavailable")
          order_refusing
          suspended_world)
confirm_order_fails_example =
    confirm_order_fails tables refusing (noon + 5) "id-1" "request-1"
      (credit_failed "credit.unavailable") order_refusing suspended_world suspends

confirm_order-confirm_order_example :
    confirm_order tables ledger (noon + 9) "id-1" "request-2" paid_world
    ≡ (ok (moved (noon + 5) paid new), paid_world)
confirm_order-confirm_order_example =
    confirm_order-confirm_order tables ledger (noon + 5) (noon + 9) "id-1" "request-1" "request-2"
      (moved (noon + 5) paid new) start paid_world confirms

sweep_stale_confirming_orders_pays_example :
    PaidIn tables ledger "id-1"
      (sweep_stale_confirming_orders tables ledger
        (noon + 600_000)
        300_000
        "request-1"
        (world [] with_stale)).1.db
    ⊎ StoppedIn tables ledger
        (noon + 600_000)
        "request-1"
        "id-1"
        plus
        (list_stale_confirming_orders tables (noon + 600_000 - 300_000) with_stale)
        (world [] with_stale)
sweep_stale_confirming_orders_pays_example =
    sweep_stale_confirming_orders_pays tables ledger (noon + 600_000) 300_000 "request-1"
      (world [] with_stale) (moved noon confirming new) plus refl refl refl refl

refund_order_gives_back_example :
    WasPaid tables ledger "id-1" refund_result (world [] with_paid) refunded_world
refund_order_gives_back_example =
    refund_order_gives_back tables ledger later "id-1" "request-2" (moved noon paid new)
      refund_result (world [] with_paid) refunded_world paid-RefundsMatch gives_back refl refl

refund_order_fails_example : with_paid ≡ with_paid
refund_order_fails_example =
    refund_order_fails tables refusing later "id-1" "request-2" (credit_failed "credit.unavailable")
      paid_refusing paid_refusing paid-RefundsMatch keeps_credit

refund_order-refund_order_example :
    (y : Refunded) × (refund_order tables ledger context "id-1" "request-3" refunded_world
      ≡ (ok y, refunded_world))
    × (y.refund ≡ refund)
refund_order-refund_order_example =
    refund_order-refund_order tables ledger later context "id-1" "request-2" "request-3"
      refund_result (world [] with_paid) refunded_world paid-RefundsMatch gives_back

create_order-Anchored_example :
    Anchored tables ledger order_input new (world [] with_plan) (world [] with_order)
create_order-Anchored_example =
    create_order-Anchored tables ledger context order_input new (world [] with_plan)
      (world [] with_order) creates

canonical : order_input.amount_minor ≡ to_string 990
unfolding to_string
canonical = refl

create_order-create_order_example :
    create_order tables ledger later order_input (world [] with_order)
    ≡ (ok new, world [] with_order)
create_order-create_order_example =
    create_order-create_order tables ledger context later order_input 990 new (world [] with_plan)
      (world [] with_order) canonical creates

abbrev amounts : Json
amounts = object (entry "paid" (number "990") (entry "currency" (text "CNY") no_entries))

abbrev amounts_again : Json
amounts_again = object (entry "currency" (text "CNY") (entry "paid" (number "990") no_entries))

abbrev amounts_input : RecordEventInput
amounts_input = record event_input { payload = amounts }

abbrev with_amounts : Store tables
with_amounts = put_event tables (new_event context amounts_input) with_provider

records_amounts :
    record_payment_event tables context amounts_input with_provider
    ≡ (ok (new_event context amounts_input), with_amounts)
unfolding record_payment_event create_payment_event_or_read_existing insert_event
records_amounts = refl

record_payment_event-record_payment_event_example :
    record_payment_event tables later
      (record amounts_input { payload = amounts_again })
      with_amounts
    ≡ (ok (new_event context amounts_input), with_amounts)
record_payment_event-record_payment_event_example =
    record_payment_event-record_payment_event tables context later amounts_input amounts_again
      (new_event context amounts_input) with_provider with_amounts records_amounts
      (entries (swap "paid" "currency" (λ e. ground (arith, (eq_iff "paid" "currency").1 e))))

Reach-processed_example :
    find_payment_event_by_id tables "id-1"
      (transition_payment_event_status tables "id-1" is_unprocessed failed
        (some "late")
        with_done).1
    ≡ some done_event
Reach-processed_example =
    Reach-processed tables "id-1" done_event (next here (process "id-1" failed (some "late"))) refl
      refl

receive_webhook_decides_example :
    Accepted tables ledger registry resolve_secret message_of "mock" "forged" "event-1"
      (world [] with_provider)
    ⊎ ((e : PaymentError) × (receive_webhook tables ledger registry resolve_secret message_of
            context "mock" "forged" "event-1" "request-1"
            (world [] with_provider)
          ≡ (err e, world [] with_provider)))
receive_webhook_decides_example =
    receive_webhook_decides tables ledger registry resolve_secret message_of context "mock" "forged"
      "event-1" "request-1" (world [] with_provider)
