-- ===== src/Payment/Tests/Composed.antt =====
-- Orders that are confirmed and refunded over a database of kokoro-credit.
use kokoro_platform.Base.{ℕ, ◌+◌, String, ◌≡◌, refl, none, some, false}
use kokoro_platform.Base.Int.{pos}
use kokoro_platform.Base.Decimal.{to_string}
use kokoro_platform.Base.Effect.{ok}
use kokoro_platform.Credit.Types.{Error}
use kokoro_platform.Credit.Store as CreditStore
use kokoro_platform.Credit.Service.{default_run_billing_config}
use kokoro_platform.Credit.Tests as CreditTests
use kokoro_platform.Credit.Repository.Rows.{put_account}
use kokoro_platform.Payment.Proofs.Refunds.{reachable-RefundsMatch}
use kokoro_platform.Payment.Types.{paid}
use kokoro_platform.Payment.Credits.{Credits}
use kokoro_platform.Payment.Repository.Orders.{moved}
use kokoro_platform.Payment.Service.{World, Refunded, confirm_order, refund_order}
use kokoro_platform.Payment.Client.{Delivery, delivered, answer_lost, Remote}
use kokoro_platform.Payment.Proofs.Client.{credit_service}
use kokoro_platform.Payment.Proofs.Calls.{order_key, refund_key}
use kokoro_platform.Payment.Proofs.Composed.{
  HasEntry, confirm_order-HasEntry, refund_order-HasEntry,
}
use kokoro_platform.Payment.Tests.{
  later, with_paid, refund_result, paid_in_three_calls, nothing-IsEmpty, tables, noon, new,
  with_order,
}

-- Each request gets new ids.
abbrev contexts : ℕ → CreditStore.Context
contexts n = record CreditTests.context { account_id = to_string n; entry_id = to_string n }

abbrev network : ℕ → Delivery
network _ = delivered

abbrev code_of : Error → String
code_of _ = "credit.failed"

abbrev credits : Credits
credits =
    credit_service CreditTests.tables (λ _. none) default_run_billing_config 0 contexts network
      code_of

abbrev remote : Remote CreditTests.tables
remote = record { store = CreditTests.nothing; requests = 0 }

abbrev before : World tables credits
before = record { db = with_order; credits = remote }

abbrev after : World tables credits
after = (confirm_order tables credits (noon + 5) "id-1" "request-1" before).1

confirms_remotely :
    confirm_order tables credits (noon + 5) "id-1" "request-1" before
    ≡ (ok (moved (noon + 5) paid new), after)
unfolding confirm_order kokoro_platform.Payment.Service.assert_plan_not_deleted
    kokoro_platform.Payment.Repository.Orders.mark_order_confirming
    kokoro_platform.Payment.Client.grant_client kokoro_platform.Credit.Service.ensure_account
    kokoro_platform.Credit.Repository.Accounts.ensure_account
    kokoro_platform.Credit.Service.grant_credits
    kokoro_platform.Credit.Amount.parse_positive_bigint_string
    kokoro_platform.Base.Decimal.parse_digits to_string
    kokoro_platform.Credit.Repository.Accounts.get_account_by_id
    kokoro_platform.Credit.Repository.Mutations.grant_credits
    kokoro_platform.Credit.Repository.Rows.once
    kokoro_platform.Credit.Repository.Rows.assert_writable_account
    kokoro_platform.Credit.Repository.Rows.create_entry
    kokoro_platform.Payment.Repository.Orders.mark_order_paid
confirms_remotely = refl

confirm_order-HasEntry_example :
    HasEntry CreditTests.tables
      (λ _. none)
      default_run_billing_config
      0
      contexts
      network
      code_of
      tables
      new
      (order_key "id-1")
      before
      after
confirm_order-HasEntry_example =
    confirm_order-HasEntry CreditTests.tables (λ _. none) default_run_billing_config 0 contexts
      network code_of tables (noon + 5) "id-1" "request-1" (moved (noon + 5) paid new) new before
      after confirms_remotely refl refl

-- An order that was paid for a team with credit, refunded.
abbrev rich : Remote CreditTests.tables
rich = record {
  store =
      put_account CreditTests.tables (record CreditTests.account { balance_micros = pos 6_000_000 })
        CreditTests.nothing;
  requests = 0;
}

abbrev settled : World tables credits
settled = record { db = with_paid; credits = rich }

abbrev at_last : World tables credits
at_last = (refund_order tables credits later "id-1" "request-2" settled).1

refunds_remotely :
    refund_order tables credits later "id-1" "request-2" settled ≡ (ok refund_result, at_last)
unfolding refund_order kokoro_platform.Payment.Client.reverse_client
    kokoro_platform.Credit.Service.ensure_account
    kokoro_platform.Credit.Repository.Accounts.ensure_account
    kokoro_platform.Credit.Service.spend_credits
    kokoro_platform.Credit.Amount.parse_positive_bigint_string
    kokoro_platform.Base.Decimal.parse_digits to_string
    kokoro_platform.Credit.Repository.Accounts.get_account_by_id
    kokoro_platform.Credit.Repository.Mutations.spend_credits
    kokoro_platform.Credit.Repository.Rows.once kokoro_platform.Credit.Buckets.debit
    kokoro_platform.Base.Int.◌-ℤ◌ kokoro_platform.Credit.Repository.Rows.refresh_row
    kokoro_platform.Credit.Buckets.refresh kokoro_platform.Credit.Boundary.is_stale
    kokoro_platform.Credit.Boundary.daily_boundary kokoro_platform.Credit.Boundary.period_boundary
    kokoro_platform.Base.Calendar.start_of_day kokoro_platform.Base.Calendar.start_of_month
    kokoro_platform.Base.Int.◌+ℤ◌ kokoro_platform.Credit.Amount.bigint_to_string
    kokoro_platform.Credit.Buckets.available
    kokoro_platform.Credit.Repository.Mutations.lock_spendable
    kokoro_platform.Credit.Repository.Mutations.spend_body
    kokoro_platform.Credit.Repository.Rows.assert_writable_account
    kokoro_platform.Credit.Repository.Rows.create_entry
    kokoro_platform.Credit.Repository.Rows.find_existing_entry
    kokoro_platform.Credit.Repository.Rows.find_existing_entry_after_unique_conflict
    kokoro_platform.Credit.Service.ensure_account_active
    kokoro_platform.Payment.Amount.parse_positive_bigint_string
    kokoro_platform.Payment.Client.call_service
    kokoro_platform.Payment.Repository.Orders.transition_order
    kokoro_platform.Payment.Repository.Refunds.refund_body
    kokoro_platform.Payment.Repository.Refunds.refund_order_atomically
    kokoro_platform.Payment.Service.existing_refund kokoro_platform.Payment.Service.finish_refund
refunds_remotely = refl

refund_order-HasEntry_example :
    HasEntry CreditTests.tables
      (λ _. none)
      default_run_billing_config
      0
      contexts
      network
      code_of
      tables
      (moved noon paid new)
      (refund_key "id-1")
      settled
      at_last
refund_order-HasEntry_example =
    refund_order-HasEntry CreditTests.tables (λ _. none) default_run_billing_config 0 contexts
      network code_of tables later "id-1" "request-2" refund_result (moved noon paid new) settled
      at_last (reachable-RefundsMatch tables nothing-IsEmpty paid_in_three_calls) refunds_remotely
      refl refl
