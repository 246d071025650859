-- ===== src/Payment/Proofs/Confirm.antt =====
-- The confirmation of an order: it is paid only after its credit is booked, and confirmed once.
use mathlib.Core.Path.{subst₂}
use kokoro_platform.Payment.Proofs.Calls.{order_key, IsCallFor}
use kokoro_platform.Base.{
  ℕ, ◌<◌, String, ◌≡◌, refl, sym, ap, ◌∙◌, ◌⊎◌, inl, inr, true, false, some, is_some, arith, ltb,
  Bool-cases, Option-cases,
}
use kokoro_platform.Base.Effect.{ok, err, Result-cases}
use kokoro_platform.Payment.Types.{
  CreditsInput, Order, OrderStatus, Plan, pending, canceled, refunded, paid, confirming,
  PaymentError, order_not_found, order_not_confirmable, plan_not_found, plan_deleted,
}
use kokoro_platform.Payment.Store.{Tables}
use kokoro_platform.Payment.Credits.{Credits}
use kokoro_platform.Payment.Repository.Plans.{find_plan_by_id}
use kokoro_platform.Payment.Repository.Orders.{
  is_open, is_paid, moved, find_order_by_id, mark_order_confirming,
}
use kokoro_platform.Payment.Service.{
  World, order_grant, finish_confirmation, confirm_order, assert_plan_not_deleted,
}
use kokoro_platform.Payment.Proofs.Marks.{
  intended, intended_confirming, mark_order_confirming_open, mark_order_paid_open,
}

intended_same :
    (now : ℕ) (order : Order) (a : OrderStatus)
    → ((intended now order a).team_id ≡ order.team_id)
      × ((intended now order a).site_id ≡ order.site_id)
intended_same now order pending = (refl, refl)
intended_same now order confirming = (refl, refl)
intended_same now order paid = (refl, refl)
intended_same now order canceled = (refl, refl)
intended_same now order refunded = (refl, refl)

module _ (T : Tables) (K : Credits) where
  -- One call of the credit service, for the credit of the plan, is all that it was asked, and has
  -- returned.
  pub record Granted (id : String) (order : Order) (plan : Plan) (w w' : World T K) : Type 0 where
    pub call : CreditsInput
    pub asked : IsCallFor (order_key id) order plan call
    pub granted : K.grant call w.credits ≡ (ok tt, w'.credits)

  -- The order is paid, and its credit granted where the plan has any.
  pub record Settled (id : String) (order : Order) (plan : Plan) (o : Order) (w w' : World T K)
      : Type 0 where
    pub stored : find_order_by_id T id w'.db ≡ some o
    pub is_now_paid : o.status ≡ paid
    pub credit : ((plan.credit_micros ≡ 0) × (w'.credits ≡ w.credits)) ⊎ Granted id order plan w w'

  -- The intent is stored, and the credit service threw.
  pub record Suspended (id : String) (plan : Plan) (e : PaymentError) (w w' : World T K)
      : Type 0 where
    pub order : Order
    pub stored : find_order_by_id T id w'.db ≡ some order
    pub is_confirming : order.status ≡ confirming
    pub costs : 0 < plan.credit_micros
    pub call : CreditsInput
    pub asked : IsCallFor (order_key id) order plan call
    pub refused : K.grant call w.credits ≡ (err e, w'.credits)

  pub finish_confirmation_cases :
      (now : ℕ) (order : Order) (plan : Plan) (request_id : String) (w : World T K)
      → find_order_by_id T order.id w.db ≡ some order
      → is_open order.status ≡ true
      → let (r, w') = finish_confirmation T K now order plan request_id w in
        ((o : Order) × (r ≡ ok o) × Settled order.id order plan o w w')
        ⊎ ((e : PaymentError) × (r ≡ err e) × Suspended order.id plan e w w')
  unfolding finish_confirmation
  finish_confirmation_cases now order plan request_id w found h =
      let call = order_grant order plan request_id in
      let db = (mark_order_confirming T now order.id w.db).1 in
      let (marked, stored) = mark_order_confirming_open T now order.id w.db order found h in
      let in_between = intended_confirming now order order.status refl h in
      let (paid_now, there) =
        mark_order_paid_open T now order.id db (intended now order order.status) stored
          (rw in_between refl) in
      elim (Bool-cases (ltb 0 plan.credit_micros)) [
        | inr free ↦ inl (
          moved now paid (intended now order order.status),
          ground arith,
          record {
            stored = ground arith;
            is_now_paid = refl;
            credit = inl (ground arith, ground arith);
          },
        )
        | inl costs ↦ elim (Result-cases (K.grant call w.credits).0) [
          | inl (tt, granted) ↦
              let ends : (finish_confirmation T K now order plan request_id w).1.credits
                  ≡ (K.grant call w.credits).1 =
                ground arith in
              inl (
                moved now paid (intended now order order.status),
                ground arith,
                record {
                  stored = ground arith;
                  is_now_paid = refl;
                  credit = inr (record {
                    call = call;
                    asked = record { keyed = refl; amount = refl; team = refl; site = refl };
                    granted =
                        ap (λ r. (r, (K.grant call w.credits).1)) granted
                        ∙ ap (λ c. (ok tt, c)) (sym ends);
                  });
                },
              )
          | inr (e, refused) ↦ inr (
            e,
            ground arith,
            record {
              order = intended now order order.status;
              stored = ground arith;
              is_confirming = in_between;
              costs = ground arith;
              call = call;
              asked = record {
                keyed = refl;
                amount = refl;
                team = sym (intended_same now order order.status).0;
                site = sym (intended_same now order order.status).1;
              };
              refused = ground arith;
            },
          )
        ]
      ]

  -- What a confirmation does that returns: the order is found, and was paid before and nothing
  -- changed, or its plan was there and not deleted, and it is settled now.
  pub record Confirmed (id : String) (o : Order) (w w' : World T K) : Type 0 where
    pub plan : Plan
    pub order : Order
    pub was_open : is_open order.status ≡ true
    pub found : find_order_by_id T id w.db ≡ some order
    pub of_plan : find_plan_by_id T order.plan_id w.db ≡ some plan
    pub not_deleted : is_some plan.deleted_at ≡ false
    pub settled : Settled id order plan o w w'

  -- A confirmation that throws changed nothing, or stopped where the credit service threw.
  pub confirm_order_cases :
      (now : ℕ) (id request_id : String) (w : World T K)
      → let (r, w') = confirm_order T K now id request_id w in
        ((o : Order) × (r ≡ ok o)
          × (((w' ≡ w) × (find_order_by_id T id w.db ≡ some o) × (is_paid o.status ≡ true))
              ⊎ Confirmed id o w w'))
        ⊎ ((e : PaymentError) × (r ≡ err e)
            × ((w' ≡ w) ⊎ ((plan : Plan) × Suspended id plan e w w')))
  unfolding confirm_order assert_plan_not_deleted
  confirm_order_cases now id request_id w = elim (Option-cases (find_order_by_id T id w.db)) [
    | inl absent ↦ inr (order_not_found, ground arith, inl (ground arith))
    | inr (order, found) ↦ elim (Bool-cases (is_paid order.status)) [
      | inl already ↦ inl (order, ground arith, inl (ground arith, found, already))
      | inr not_yet ↦ elim (Bool-cases (is_open order.status)) [
        | inr closed ↦ inr (order_not_confirmable order.status, ground arith, inl (ground arith))
        | inl is_open_now ↦ elim (Option-cases (find_plan_by_id T order.plan_id w.db)) [
          | inl no_plan ↦ inr (plan_not_found, ground arith, inl (ground arith))
          | inr (plan, of_plan) ↦ elim (Bool-cases (is_some plan.deleted_at)) [
            | inl gone ↦ inr (plan_deleted, ground arith, inl (ground arith))
            | inr live ↦
                let named = T.orders.find_unique-id id w.db.orders order found in
                let there : find_order_by_id T order.id w.db ≡ some order =
                  ap (λ k. find_order_by_id T k w.db) named ∙ found in
                let same : confirm_order T K now id request_id w
                    ≡ finish_confirmation T K now order plan request_id w =
                  ground arith in
                elim (finish_confirmation_cases now order plan request_id w there is_open_now) [
                  | inl (o, done, settled) ↦ inl (
                    o,
                    ap (λ x. x.0) same ∙ done,
                    inr (record {
                      plan = plan;
                      order = order;
                      was_open = is_open_now;
                      found = found;
                      of_plan = of_plan;
                      not_deleted = live;
                      settled =
                          subst₂ (λ k x. Settled k order plan o w x) named
                            (ap (λ x. x.1) (sym same)) settled;
                    }),
                  )
                  | inr (e, failed, suspended) ↦ inr (
                    e,
                    ap (λ x. x.0) same ∙ failed,
                    inr (
                      plan,
                      subst₂ (λ k x. Suspended k plan e w x) named (ap (λ x. x.1) (sym same))
                          suspended,
                    ),
                  )
                ]
          ]
        ]
      ]
    ]
  ]
