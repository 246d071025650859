-- ===== src/Payment/Proofs/Marks.antt =====
-- The transitions of an order that is pending or confirming.
use mathlib.Core.Path.{subst}
use kokoro_platform.Base.{ℕ, String, ◌≡◌, refl, ap, ◌∙◌, true, some, arith}
use kokoro_platform.Base.Effect.{ok}
use kokoro_platform.Payment.Types.{
  Order, OrderStatus, pending, confirming, paid, canceled, refunded,
}
use kokoro_platform.Payment.Store.{Tables, Store}
use kokoro_platform.Payment.Repository.Orders.{
  is_open, moved, find_order_by_id, put_order, transition_order, mark_order_confirming,
  mark_order_paid,
}

-- The order after the intent to confirm it has been written.
abbrev pub intended : ℕ → Order → OrderStatus → Order
intended now o pending = moved now confirming o
intended now o _ = o

pub intended_confirming :
    (now : ℕ) (o : Order) (a : OrderStatus)
    → o.status ≡ a
    → is_open a ≡ true
    → (intended now o a).status ≡ confirming
intended_confirming now o pending e h = refl
intended_confirming now o confirming e h = e
intended_confirming now o paid e h = absurd (ground arith)
intended_confirming now o canceled e h = absurd (ground arith)
intended_confirming now o refunded e h = absurd (ground arith)

module _ (T : Tables) where
  find_order-put :
      (o : Order) (id : String) (s : Store T)
      → o.id ≡ id
      → find_order_by_id T id (put_order T o s) ≡ some o
  find_order-put o id s e =
      subst (λ k. find_order_by_id T k (put_order T o s) ≡ some o) e
        (T.orders.find_unique-put_self o s.orders)

  mark_confirming_by :
      (now : ℕ) (id : String) (s : Store T) (o : Order) (a : OrderStatus)
      → find_order_by_id T id s ≡ some o
      → o.status ≡ a
      → is_open a ≡ true
      → ((mark_order_confirming T now id s).0 ≡ ok (intended now o a))
        × (find_order_by_id T id (mark_order_confirming T now id s).1 ≡ some (intended now o a))
  unfolding mark_order_confirming transition_order
  mark_confirming_by now id s o pending found e h =
      let named = T.orders.find_unique-id id s.orders o found in
      ground (arith, find_order-put (moved now confirming o) id s named)
  mark_confirming_by now id s o confirming found e h = ground arith
  mark_confirming_by now id s o paid found e h = absurd (ground arith)
  mark_confirming_by now id s o canceled found e h = absurd (ground arith)
  mark_confirming_by now id s o refunded found e h = absurd (ground arith)

  -- The intent is written once, and the order is confirming.
  pub mark_order_confirming_open :
      (now : ℕ) (id : String) (s : Store T) (o : Order)
      → find_order_by_id T id s ≡ some o
      → is_open o.status ≡ true
      → ((mark_order_confirming T now id s).0 ≡ ok (intended now o o.status))
        × (find_order_by_id T id (mark_order_confirming T now id s).1
            ≡ some (intended now o o.status))
  mark_order_confirming_open now id s o found h =
      mark_confirming_by now id s o o.status found refl h

  mark_paid_by :
      (now : ℕ) (id : String) (s : Store T) (o : Order)
      → find_order_by_id T id s ≡ some o
      → is_open o.status ≡ true
      → mark_order_paid T now id s ≡ (ok (moved now paid o), put_order T (moved now paid o) s)
  unfolding mark_order_paid transition_order
  mark_paid_by now id s o found h =
      let named = T.orders.find_unique-id id s.orders o found in
      ground (arith, find_order-put (moved now paid o) id s named)

  -- An open order becomes paid.
  pub mark_order_paid_open :
      (now : ℕ) (id : String) (s : Store T) (o : Order)
      → find_order_by_id T id s ≡ some o
      → is_open o.status ≡ true
      → ((mark_order_paid T now id s).0 ≡ ok (moved now paid o))
        × (find_order_by_id T id (mark_order_paid T now id s).1 ≡ some (moved now paid o))
  mark_order_paid_open now id s o found h =
      let e = mark_paid_by now id s o found h in
      let named = T.orders.find_unique-id id s.orders o found in
      (
        ap (λ x. x.0) e,
        ap (λ x. find_order_by_id T id x.1) e ∙ find_order-put (moved now paid o) id s named,
      )
