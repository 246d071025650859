-- ===== src/Payment/Proofs/RefundOnce.antt =====
-- What callers of refundOrder can rely on.
use mathlib.Core.Path.{subst, subst₂}
use kokoro_platform.Base.{
  String, ◌≡◌, refl, sym, ap, ◌∙◌, ◌⊎◌, inl, inr, true, false, some, none, arith, Bool-cases,
  Option-cases,
}
use kokoro_platform.Base.Effect.{ok, err}
use kokoro_platform.Payment.Types.{
  Order, OrderStatus, Plan, paid, pending, confirming, canceled, refunded, PaymentError,
  order_not_found, order_not_refundable, plan_not_found,
}
use kokoro_platform.Payment.Store.{Tables, Context}
use kokoro_platform.Payment.Credits.{Credits}
use kokoro_platform.Payment.Repository.Plans.{find_plan_by_id}
use kokoro_platform.Payment.Repository.Orders.{is_paid, find_order_by_id}
use kokoro_platform.Payment.Repository.Refunds.{find_refund_by_order_id}
use kokoro_platform.Payment.Service.{
  World, Refunded, is_refunded, finish_refund, existing_refund, refund_order,
}
use kokoro_platform.Payment.Proofs.Refund.{GaveBack, finish_refund_cases, refunded_again}
use kokoro_platform.Payment.Proofs.Refunds.{RefundsMatch, paid-unmade}

paid-is_refunded : (a : OrderStatus) → is_paid a ≡ true → is_refunded a ≡ false
paid-is_refunded paid h = refl
paid-is_refunded pending h = refl
paid-is_refunded confirming h = refl
paid-is_refunded canceled h = refl
paid-is_refunded refunded h = absurd (ground arith)

is_refunded_status : (a : OrderStatus) → is_refunded a ≡ true → a ≡ refunded
is_refunded_status refunded h = refl
is_refunded_status pending h = absurd (ground arith)
is_refunded_status confirming h = absurd (ground arith)
is_refunded_status paid h = absurd (ground arith)
is_refunded_status canceled h = absurd (ground arith)

module _ (T : Tables) (K : Credits) where
  -- The order was refunded before, and its refund is returned.
  pub record WasRefunded (id : String) (x : Refunded) (w w' : World T K) : Type 0 where
    pub unchanged : w' ≡ w
    pub order : Order
    pub stored : find_order_by_id T id w.db ≡ some order
    pub was_refunded : order.status ≡ refunded
    pub made : find_refund_by_order_id T id w.db ≡ some x.refund

  -- The order was paid, and is refunded now.
  pub record WasPaid (id : String) (x : Refunded) (w w' : World T K) : Type 0 where
    pub order : Order
    pub stored : find_order_by_id T id w.db ≡ some order
    pub was_paid : is_paid order.status ≡ true
    pub plan : Plan
    pub of_plan : find_plan_by_id T order.plan_id w.db ≡ some plan
    pub gave_back : GaveBack T K id order plan x w w'

  pub refund_order_cases :
      (ctx : Context) (id request_id : String) (w : World T K)
      → RefundsMatch T w.db
      → let (r, w') = refund_order T K ctx id request_id w in
        ((x : Refunded) × (r ≡ ok x) × (WasRefunded id x w w' ⊎ WasPaid id x w w'))
        ⊎ ((e : PaymentError) × (r ≡ err e) × (w'.db ≡ w.db))
  unfolding refund_order existing_refund
  refund_order_cases ctx id request_id w m = elim (Option-cases (find_order_by_id T id w.db)) [
    | inl absent ↦ inr (order_not_found, ground arith, ground arith)
    | inr (o, found) ↦
        let named = T.orders.find_unique-id id w.db.orders o found in
        elim (Bool-cases (is_refunded o.status)) [
          | inl done ↦
              let e = is_refunded_status o.status done in
              elim (Option-cases (find_refund_by_order_id T id w.db)) [
                | inl unmade ↦
                    let none_there : find_refund_by_order_id T o.id w.db ≡ none =
                      ap (λ k. find_refund_by_order_id T k w.db) named ∙ unmade in
                    inr (order_not_refundable o.status, ground arith, ground arith)
                | inr (refund, made) ↦
                    let again = refunded_again T K ctx id request_id o refund w found e made in
                    inl (
                      record { order = record o { status = refunded }; refund = refund },
                      ap (λ x. x.0) again,
                      inl (record {
                        unchanged = ap (λ x. x.1) again;
                        order = o;
                        stored = found;
                        was_refunded = e;
                        made = made;
                      }),
                    )
              ]
          | inr not_done ↦ elim (Bool-cases (is_paid o.status)) [
            | inr not_paid ↦ inr (order_not_refundable o.status, ground arith, ground arith)
            | inl was_paid ↦ elim (Option-cases (find_plan_by_id T o.plan_id w.db)) [
              | inl no_plan ↦ inr (plan_not_found, ground arith, ground arith)
              | inr (plan, of_plan) ↦
                  let there : find_order_by_id T o.id w.db ≡ some o =
                    ap (λ k. find_order_by_id T k w.db) named ∙ found in
                  let same : refund_order T K ctx id request_id w
                      ≡ finish_refund T K ctx o plan request_id w =
                    ground arith in
                  elim (finish_refund_cases T K ctx o plan request_id w there was_paid
                    (paid-unmade T w.db o.id o m there was_paid)) [
                      | inr (e, failed, unchanged) ↦
                          inr (e, ap (λ x. x.0) same ∙ failed, ap (λ x. x.1.db) same ∙ unchanged)
                      | inl (x, done, gave_back) ↦ inl (
                        x,
                        ap (λ x. x.0) same ∙ done,
                        inr (record {
                          order = o;
                          stored = found;
                          was_paid = was_paid;
                          plan = plan;
                          of_plan = of_plan;
                          gave_back =
                              subst₂ (λ k y. GaveBack T K k o plan x w y) named
                                (ap (λ x. x.1) (sym same)) gave_back;
                        }),
                      )
                    ]
            ]
          ]
        ]
  ]

  -- In a database where the number of refunds of an order is 1 where it is refunded and 0 otherwise:
  -- a refund that returns for an order that was paid found its plan; the order is stored as refunded
  -- with the refund that was returned; and either the plan has no credit and the credit service was
  -- not called, or the one call of it was to take the plan's credit back from the team and the site
  -- of the order under the order's refund key, and returned.
  pub refund_order_gives_back :
      (ctx : Context) (id request_id : String) (o : Order) (x : Refunded) (w w' : World T K)
      → RefundsMatch T w.db
      → refund_order T K ctx id request_id w ≡ (ok x, w')
      → find_order_by_id T id w.db ≡ some o
      → is_paid o.status ≡ true
      → WasPaid id x w w'
  refund_order_gives_back ctx id request_id o x w w' m done found was_paid =
      elim (refund_order_cases ctx id request_id w m) [
        | inr (e, failed, _) ↦ absurd (ground (arith, sym failed ∙ ap (λ x. x.0) done))
        | inl (y, ran, inl was) ↦ absurd (ground (arith, sym found ∙ was.stored, was.was_refunded))
        | inl (y, ran, inr was) ↦
            let same : y ≡ x = ground (arith, sym ran ∙ ap (λ x. x.0) done) in
            subst₂ (λ a b. WasPaid id a w b) same (ap (λ x. x.1) done) was
      ]

  -- In a database where the number of refunds of an order is 1 where it is refunded and 0 otherwise:
  -- a refund that throws leaves the payment database as it was, so an order is not marked as
  -- refunded where the credit service refused to take the credit back.
  pub refund_order_fails :
      (ctx : Context) (id request_id : String) (e : PaymentError) (w w' : World T K)
      → RefundsMatch T w.db
      → refund_order T K ctx id request_id w ≡ (err e, w')
      → w'.db ≡ w.db
  refund_order_fails ctx id request_id e w w' m done =
      elim (refund_order_cases ctx id request_id w m) [
        | inl (x, ran, _) ↦ absurd (ground (arith, sym ran ∙ ap (λ x. x.0) done))
        | inr (_, _, unchanged) ↦ ap (λ x. x.1.db) (sym done) ∙ unchanged
      ]

  -- In a database where the number of refunds of an order is 1 where it is refunded and 0 otherwise,
  -- a refund is idempotent: after one has returned, the next one of the same order, at any time and
  -- for any request, returns the same refund and changes neither the database nor the credit service.
  pub refund_order-refund_order :
      (ctx ctx' : Context) (id request_id request_id' : String) (x : Refunded) (w w' : World T K)
      → RefundsMatch T w.db
      → refund_order T K ctx id request_id w ≡ (ok x, w')
      → (y : Refunded) × (refund_order T K ctx' id request_id' w' ≡ (ok y, w'))
        × (y.refund ≡ x.refund)
  refund_order-refund_order ctx ctx' id request_id request_id' x w w' m done =
      elim (refund_order_cases ctx id request_id w m) [
        | inr (e, failed, _) ↦ absurd (ground (arith, sym failed ∙ ap (λ x. x.0) done))
        | inl (y, ran, inl was) ↦
            let same : y ≡ x = ground (arith, sym ran ∙ ap (λ x. x.0) done) in
            let back : w ≡ w' = sym was.unchanged ∙ ap (λ x. x.1) done in
            let again =
              refunded_again T K ctx' id request_id' was.order y.refund w was.stored
                was.was_refunded was.made in
            (
              record { order = record was.order { status = refunded }; refund = y.refund },
              subst
                  (λ v. refund_order T K ctx' id request_id' v ≡ (
                    ok (record {
                      order = record was.order { status = refunded };
                      refund = y.refund;
                    }),
                    v,
                  ))
                  back again,
              ap (λ r. r.refund) same,
            )
        | inl (y, ran, inr was) ↦
            let same : y ≡ x = ground (arith, sym ran ∙ ap (λ x. x.0) done) in
            let g =
              subst (λ v. GaveBack T K id was.order was.plan y w v) (ap (λ x. x.1) done)
                was.gave_back in
            (
              record { order = record g.order { status = refunded }; refund = y.refund },
              refunded_again T K ctx' id request_id' g.order y.refund w' g.stored g.is_now_refunded
                  g.made,
              ap (λ r. r.refund) same,
            )
      ]
