-- ===== src/Payment/Proofs/Writes.antt =====
-- What the creation of an order and its refund write.
use kokoro_platform.Base.{
  ℕ, String, ◌≡◌, ◌⊎◌, inl, inr, true, none, some, arith, Option-cases, Bool-cases,
}
use kokoro_platform.Base.Effect.{ok, Result-cases}
use kokoro_platform.Payment.Types.{Order, refunded, CreateOrderInput, CreateRefundInput}
use kokoro_platform.Payment.Amount.{parse_positive_bigint_string}
use kokoro_platform.Payment.Store.{Tables, Store, Context}
use kokoro_platform.Payment.Repository.Orders.{
  is_paid, moved, new_order, find_order_by_id, order_by_key, put_order, transition_order,
  insert_order, create_order_or_read_existing, create_order,
}
use kokoro_platform.Payment.Repository.Refunds.{
  new_refund, put_refund, refund_body, refund_order_atomically,
}

module _ (T : Tables) where
  -- A new order, whose id and key no order had.
  pub record Created (ctx : Context) (input : CreateOrderInput) (s t : Store T) : Type 0 where
    pub amount : ℕ
    pub parsed : parse_positive_bigint_string input.amount_minor ≡ ok amount
    pub fresh : find_order_by_id T ctx.new_id s ≡ none
    pub unused : order_by_key T input.idempotency_key s ≡ none
    pub written : t ≡ put_order T (new_order ctx input amount) s

  pub create_order_cases :
      (ctx : Context) (input : CreateOrderInput) (s : Store T)
      → ((create_order T ctx input s).1 ≡ s) ⊎ Created ctx input s (create_order T ctx input s).1
  unfolding create_order create_order_or_read_existing insert_order
  create_order_cases ctx input s = elim (Option-cases (order_by_key T input.idempotency_key s)) [
    | inr (o, found) ↦ inl (ground arith)
    | inl unused ↦ elim (Result-cases (parse_positive_bigint_string input.amount_minor)) [
      | inr (e, refused) ↦ inl (ground arith)
      | inl (amount, parsed) ↦ elim (Option-cases (find_order_by_id T ctx.new_id s)) [
        | inr (o, taken) ↦ inl (ground arith)
        | inl fresh ↦ inr (record {
          amount = amount;
          parsed = parsed;
          fresh = fresh;
          unused = unused;
          written = ground arith;
        })
      ]
    ]
  ]

  -- A paid order has become refunded, with a new refund.
  pub record GivenBack (ctx : Context) (id : String) (input : CreateRefundInput) (s t : Store T)
      : Type 0 where
    pub amount : ℕ
    pub order : Order
    pub found : find_order_by_id T id s ≡ some order
    pub was_paid : is_paid order.status ≡ true
    pub fresh : T.refunds.find_unique ctx.new_id s.refunds ≡ none
    pub written :
        t
        ≡ put_refund T (new_refund ctx input amount) (put_order T (moved ctx.now refunded order) s)

  pub refund_order_atomically_cases :
      (ctx : Context) (id : String) (input : CreateRefundInput) (s : Store T)
      → ((refund_order_atomically T ctx id input s).1 ≡ s)
        ⊎ GivenBack ctx id input s (refund_order_atomically T ctx id input s).1
  unfolding refund_order_atomically refund_body transition_order
  refund_order_atomically_cases ctx id input s =
      elim (Result-cases (parse_positive_bigint_string input.amount_minor)) [
        | inr (e, refused) ↦ inl (ground arith)
        | inl (amount, parsed) ↦ elim (Option-cases (find_order_by_id T id s)) [
          | inl absent ↦ inl (ground arith)
          | inr (o, found) ↦ elim (Bool-cases (is_paid o.status)) [
            | inr other ↦ inl (ground arith)
            | inl was_paid ↦ elim (Option-cases (T.refunds.find_unique ctx.new_id s.refunds)) [
              | inr (r, taken) ↦ inl (ground arith)
              | inl fresh ↦ inr (record {
                amount = amount;
                order = o;
                found = found;
                was_paid = was_paid;
                fresh = fresh;
                written = ground arith;
              })
            ]
          ]
        ]
      ]
