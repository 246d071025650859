-- ===== src/Payment/Proofs/Composed.antt =====
-- kokoro-payment over kokoro-credit: what a paid and a refunded order leave in the ledger.
use mathlib.Core.Path.{subst}
use kokoro_platform.Base.{
  inl, inr, ℕ, String, ◌≡◌, sym, ap, ◌∙◌, ◌⊎◌, arith, Option, some, true, false,
}
use kokoro_platform.Base.Effect.{ok}
use kokoro_platform.Credit.Types as CreditTypes
use kokoro_platform.Credit.Types.{EnsureAccountInput}
use kokoro_platform.Credit.Store as CreditStore
use kokoro_platform.Credit.Service as CreditService
use kokoro_platform.Payment.Types.{Order, Plan}
use kokoro_platform.Payment.Store.{Tables, Context}
use kokoro_platform.Payment.Repository.Plans.{find_plan_by_id}
use kokoro_platform.Payment.Repository.Orders.{is_paid, find_order_by_id}
use kokoro_platform.Payment.Service.{World, Refunded, confirm_order, refund_order}
use kokoro_platform.Payment.Client.{Delivery}
use kokoro_platform.Payment.Proofs.Client.{
  Entered, credit_service, grant_client_books, reverse_client_books,
}
use kokoro_platform.Payment.Proofs.Calls.{order_key, refund_key}
use kokoro_platform.Payment.Proofs.Confirmed.{confirm_order_returns}
use kokoro_platform.Payment.Proofs.RefundOnce.{refund_order_gives_back}
use kokoro_platform.Payment.Proofs.Refunds.{RefundsMatch}

module _ (T : CreditStore.Tables) (checker : EnsureAccountInput → Option CreditTypes.Error)
    (billing : CreditService.RunBillingConfig) (welcome_grant_micros : ℕ)
    (contexts : ℕ → CreditStore.Context) (network : ℕ → Delivery)
    (code_of : CreditTypes.Error → String) (U : Tables) where
  -- The plan of an order has no credit, or the ledger of kokoro-credit has an entry under the key.
  pub record HasEntry (order : Order) (key : String)
      (w w' : World U
        (credit_service T checker billing welcome_grant_micros contexts network code_of))
      : Type 0 where
    pub plan : Plan
    pub of_plan : find_plan_by_id U order.plan_id w.db ≡ some plan
    pub entry :
        (plan.credit_micros ≡ 0) ⊎ Entered T checker billing welcome_grant_micros key w'.credits

  -- Both services together: after a confirmation has returned for an order that was not paid, whatever
  -- requests between the services were lost or went unanswered before, the ledger of kokoro-credit
  -- has an entry under the order's key, unless the plan has no credit.
  pub confirm_order-HasEntry :
      (now : ℕ) (id request_id : String) (o order : Order)
      (w w' : World U
        (credit_service T checker billing welcome_grant_micros contexts network code_of))
      → confirm_order U
          (credit_service T checker billing welcome_grant_micros contexts network code_of)
          now
          id
          request_id
          w
        ≡ (ok o, w')
      → find_order_by_id U id w.db ≡ some order
      → is_paid order.status ≡ false
      → HasEntry order (order_key id) w w'
  confirm_order-HasEntry now id request_id o order w w' done found not_paid =
      let c =
        confirm_order_returns U
          (credit_service T checker billing welcome_grant_micros contexts network code_of) now id
          request_id o order w w' done found not_paid in
      let same : c.order ≡ order = ground (arith, sym c.found ∙ found) in
      record {
        plan = c.plan;
        of_plan = ap (λ x. find_plan_by_id U x.plan_id w.db) (sym same) ∙ c.of_plan;
        entry = elim c.settled.credit [
          | inl (free, _) ↦ inl free
          | inr g ↦ inr (
              subst (λ k. Entered T checker billing welcome_grant_micros k w'.credits) g.asked.keyed
                (grant_client_books T checker billing welcome_grant_micros contexts network code_of
                  g.call w.credits w'.credits g.granted))
        ];
      }

  -- Likewise, after a refund has returned for an order that was paid, the ledger of kokoro-credit has
  -- an entry under the order's refund key, unless the plan has no credit; here every paid order is
  -- supposed to have no refund and every refunded one a single refund.
  pub refund_order-HasEntry :
      (ctx : Context) (id request_id : String) (x : Refunded) (order : Order)
      (w w' : World U
        (credit_service T checker billing welcome_grant_micros contexts network code_of))
      → RefundsMatch U w.db
      → refund_order U
          (credit_service T checker billing welcome_grant_micros contexts network code_of)
          ctx
          id
          request_id
          w
        ≡ (ok x, w')
      → find_order_by_id U id w.db ≡ some order
      → is_paid order.status ≡ true
      → HasEntry order (refund_key id) w w'
  refund_order-HasEntry ctx id request_id x order w w' m done found was_paid =
      let g =
        refund_order_gives_back U
          (credit_service T checker billing welcome_grant_micros contexts network code_of) ctx id
          request_id order x w w' m done found was_paid in
      let same : g.order ≡ order = ground (arith, sym g.stored ∙ found) in
      record {
        plan = g.plan;
        of_plan = ap (λ y. find_plan_by_id U y.plan_id w.db) (sym same) ∙ g.of_plan;
        entry = elim g.gave_back.credit [
          | inl (free, _) ↦ inl free
          | inr v ↦ inr (
              subst (λ k. Entered T checker billing welcome_grant_micros k w'.credits) v.asked.keyed
                (reverse_client_books T checker billing welcome_grant_micros contexts network
                  code_of v.call w.credits w'.credits v.reversed))
        ];
      }
