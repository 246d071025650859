-- ===== src/Payment/Repository/Refunds.antt =====
-- The refunds: refundOrderAtomically and findRefundByOrderId.
use kokoro_platform.Base.{ℕ, String, Option, none, some, ◌==◌, if◌then◌else◌}
use kokoro_platform.Base.Effect.{ok, err, Action, Tx}
use kokoro_platform.Base.Effect.Async.{transaction}
use kokoro_platform.Payment.Types.{
  Refund, refunded, CreateRefundInput, PaymentError, unique_conflict,
}
use kokoro_platform.Payment.Amount.{parse_positive_bigint_string}
use kokoro_platform.Payment.Store.{Tables, Store, Context}
use kokoro_platform.Payment.Repository.Orders.{is_paid, transition_order}

abbrev pub new_refund : Context → CreateRefundInput → ℕ → Refund
new_refund ctx input amount = record {
  id = ctx.new_id;
  order_id = input.order_id;
  amount_minor = amount;
  currency = input.currency;
  status = input.status;
  reason = input.reason;
  created_at = ctx.now;
}

module _ (T : Tables) where
  abbrev pub put_refund : Refund → Store T → Store T
  put_refund r s = record s { refunds = T.refunds.put r s.refunds }

  abbrev pub find_refund_by_order_id : String → Store T → Option Refund
  find_refund_by_order_id id s =
      T.refunds.find_first (λ r. r.order_id == id) (λ r. r.created_at) s.refunds

  -- The body of the transaction; none where no paid order was found.
  unfoldable pub refund_body :
      Context → String → CreateRefundInput → ℕ → Tx (Store T) PaymentError (Option Refund)
  unfolding transition_order
  refund_body ctx order_id input amount s =
      let (moves, s') = transition_order T ctx.now order_id is_paid refunded s in
      if moves
      then elim (T.refunds.find_unique ctx.new_id s'.refunds) [
        | some _ ↦ err unique_conflict
        | none ↦ let refund = new_refund ctx input amount in ok (some refund, put_refund refund s')
      ]
      else ok (none, s')

  unfoldable pub refund_order_atomically :
      Context → String → CreateRefundInput → Action (Store T) PaymentError (Option Refund)
  refund_order_atomically ctx order_id input s =
      elim (parse_positive_bigint_string input.amount_minor) [
        | err e ↦ (err e, s)
        | ok amount ↦ transaction (refund_body ctx order_id input amount) s
      ]
