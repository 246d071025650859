-- ===== src/Payment/Proofs/Refund.antt =====
-- The refund of an order: its credit goes back before it is marked, and it is made once.
use kokoro_platform.Payment.Proofs.Calls.{refund_key, IsCallFor}
use kokoro_platform.Base.{
  String, ◌≡◌, refl, sym, ap, ◌∙◌, ◌⊎◌, inl, inr, true, some, none, arith, ltb, Bool-cases,
  Option-cases, ◌==◌, eq_refl,
}
use kokoro_platform.Base.Effect.{ok, err, Result-cases}
use kokoro_platform.Base.Table.{find_first-put}
use kokoro_platform.Payment.Types.{
  CreditsInput, Order, Plan, Refund, refunded, PaymentError, unique_conflict,
}
use kokoro_platform.Base.Decimal.{to_string}
use kokoro_platform.Payment.Amount.{parse_positive_bigint_string}
use kokoro_platform.Payment.Store.{Tables, Store, Context}
use kokoro_platform.Payment.Credits.{Credits}
use kokoro_platform.Payment.Repository.Orders.{
  is_paid, moved, find_order_by_id, put_order, transition_order,
}
use kokoro_platform.Payment.Repository.Refunds.{
  find_refund_by_order_id, refund_order_atomically, refund_body, put_refund, new_refund,
}
use kokoro_platform.Payment.Service.{
  World, Refunded, order_reversal, refund_input, existing_refund, finish_refund, refund_order,
}

module _ (T : Tables) where
  -- What the transaction does for an order that is paid: it fails and changes nothing, or the order is
  -- refunded, with a refund of its own.
  refund_order_atomically_paid :
      (ctx : Context) (o : Order) (s : Store T)
      → find_order_by_id T o.id s ≡ some o
      → is_paid o.status ≡ true
      → ((e : PaymentError) × (refund_order_atomically T ctx o.id (refund_input o) s ≡ (err e, s)))
        ⊎ ((refund : Refund) × ((refund_order_atomically T ctx o.id (refund_input o) s).0
              ≡ ok (some refund))
            × ((refund_order_atomically T ctx o.id (refund_input o) s).1
                ≡ put_refund T refund (put_order T (moved ctx.now refunded o) s))
            × (refund.order_id ≡ o.id))
  unfolding refund_order_atomically refund_body transition_order
  refund_order_atomically_paid ctx o s found was_paid =
      elim (Result-cases (parse_positive_bigint_string (to_string o.amount_minor))) [
        | inr (e, refused) ↦ inl (e, ground arith)
        | inl (amount, parsed) ↦ elim (Option-cases (T.refunds.find_unique ctx.new_id s.refunds)) [
          | inr (r, taken) ↦ inl (unique_conflict, ground arith)
          | inl fresh ↦
              inr (new_refund ctx (refund_input o) amount, ground arith, ground arith, refl)
        ]
      ]

  refunded_stored :
      (ctx : Context) (o : Order) (s : Store T) (refund : Refund)
      → refund.order_id ≡ o.id
      → find_refund_by_order_id T o.id s ≡ none
      → let s' = put_refund T refund (put_order T (moved ctx.now refunded o) s) in
        (find_order_by_id T o.id s' ≡ some (moved ctx.now refunded o))
        × (find_refund_by_order_id T o.id s' ≡ some refund)
  refunded_stored ctx o s refund named unmade = (
    T.orders.find_unique-put_self (moved ctx.now refunded o) s.orders,
    find_first-put T.refunds (λ r. r.order_id == o.id) (λ r. r.created_at) refund s.refunds unmade
        (rw named (eq_refl o.id)),
  )

module _ (T : Tables) (K : Credits) where
  -- One call of the credit service, to take the credit of the plan back, is all that it was asked,
  -- and has returned.
  pub record Reversed (id : String) (before : Order) (plan : Plan) (w w' : World T K) : Type 0 where
    pub call : CreditsInput
    pub asked : IsCallFor (refund_key id) before plan call
    pub reversed : K.reverse call w.credits ≡ (ok tt, w'.credits)

  -- The order is refunded, with the refund that was returned, and its credit has gone back where the
  -- plan has any.
  pub record GaveBack (id : String) (before : Order) (plan : Plan) (r : Refunded) (w w' : World T K)
      : Type 0 where
    pub order : Order
    pub stored : find_order_by_id T id w'.db ≡ some order
    pub is_now_refunded : order.status ≡ refunded
    pub made : find_refund_by_order_id T id w'.db ≡ some r.refund
    pub credit :
        ((plan.credit_micros ≡ 0) × (w'.credits ≡ w.credits)) ⊎ Reversed id before plan w w'

  pub finish_refund_cases :
      (ctx : Context) (o : Order) (plan : Plan) (request_id : String) (w : World T K)
      → find_order_by_id T o.id w.db ≡ some o
      → is_paid o.status ≡ true
      → find_refund_by_order_id T o.id w.db ≡ none
      → let (r, w') = finish_refund T K ctx o plan request_id w in
        ((x : Refunded) × (r ≡ ok x) × GaveBack o.id o plan x w w')
        ⊎ ((e : PaymentError) × (r ≡ err e) × (w'.db ≡ w.db))
  unfolding finish_refund existing_refund
  finish_refund_cases ctx o plan request_id w found was_paid unmade =
      let call = order_reversal o plan request_id in
      let final = (finish_refund T K ctx o plan request_id w).1 in
      elim (Bool-cases (ltb 0 plan.credit_micros)) [
        | inr free ↦ elim (refund_order_atomically_paid T ctx o w.db found was_paid) [
          | inl (e, failed) ↦ inr (e, ground arith, ground arith)
          | inr (refund, returned, written, named) ↦
              let db_is : final.db
                  ≡ put_refund T refund (put_order T (moved ctx.now refunded o) w.db) =
                ground arith in
              let (stored, made) = refunded_stored T ctx o w.db refund named unmade in
              inl (
                record { order = record o { status = refunded }; refund = refund },
                ground arith,
                record {
                  order = moved ctx.now refunded o;
                  stored = ap (find_order_by_id T o.id) db_is ∙ stored;
                  is_now_refunded = refl;
                  made = ap (find_refund_by_order_id T o.id) db_is ∙ made;
                  credit = inl (ground arith, ground arith);
                },
              )
        ]
        | inl costs ↦ elim (Result-cases (K.reverse call w.credits).0) [
          | inr (e, refused) ↦ inr (e, ground arith, ground arith)
          | inl (u, reversed) ↦ elim (refund_order_atomically_paid T ctx o w.db found was_paid) [
            | inl (e, failed) ↦ inr (e, ground arith, ground arith)
            | inr (refund, returned, written, named) ↦
                let db_is : final.db
                    ≡ put_refund T refund (put_order T (moved ctx.now refunded o) w.db) =
                  ground arith in
                let credits_are : final.credits ≡ (K.reverse call w.credits).1 = ground arith in
                let (stored, made) = refunded_stored T ctx o w.db refund named unmade in
                inl (
                  record { order = record o { status = refunded }; refund = refund },
                  ground arith,
                  record {
                    order = moved ctx.now refunded o;
                    stored = ap (find_order_by_id T o.id) db_is ∙ stored;
                    is_now_refunded = refl;
                    made = ap (find_refund_by_order_id T o.id) db_is ∙ made;
                    credit = inr (record {
                      call = call;
                      asked = record { keyed = refl; amount = refl; team = refl; site = refl };
                      reversed =
                          ap (λ r. (r, (K.reverse call w.credits).1)) reversed
                          ∙ ap (λ c. (ok tt, c)) (sym credits_are);
                    });
                  },
                )
          ]
        ]
      ]

  pub refunded_again :
      (ctx : Context) (id request_id : String) (o : Order) (refund : Refund) (w : World T K)
      → find_order_by_id T id w.db ≡ some o
      → o.status ≡ refunded
      → find_refund_by_order_id T id w.db ≡ some refund
      → refund_order T K ctx id request_id w
        ≡ (ok (record { order = record o { status = refunded }; refund = refund }), w)
  unfolding refund_order existing_refund
  refunded_again ctx id request_id o refund w found e made =
      let named = T.orders.find_unique-id id w.db.orders o found in
      let there : find_refund_by_order_id T o.id w.db ≡ some refund =
        ap (λ k. find_refund_by_order_id T k w.db) named ∙ made in
      ground arith
