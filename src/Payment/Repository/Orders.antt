-- ===== src/Payment/Repository/Orders.antt =====
-- The orders: findOrderById, createOrder, markOrderConfirming, listStaleConfirmingOrders and
-- markOrderPaid.
use kokoro_platform.Base.{
  ℕ, String, Bool, true, false, not, ◌&&◌, Option, none, some, List, ◌==◌, ltb, if◌then◌else◌,
}
use kokoro_platform.Base.Effect.{Result, ok, err, Action}
use kokoro_platform.Base.Decimal.{to_string}
use kokoro_platform.Payment.Types.{
  Order, OrderStatus, pending, confirming, paid, CreateOrderInput, PaymentError, order_not_found,
  order_not_confirmable, idempotency_conflict, unique_conflict, record_missing,
}
use kokoro_platform.Payment.Amount.{parse_positive_bigint_string}
use kokoro_platform.Payment.Store.{Tables, Store, Context}

abbrev pub is_pending : OrderStatus → Bool
is_pending pending = true
is_pending _ = false

abbrev pub is_confirming : OrderStatus → Bool
is_confirming confirming = true
is_confirming _ = false

abbrev pub is_paid : OrderStatus → Bool
is_paid paid = true
is_paid _ = false

-- `status: { in: ["pending", "confirming"] }`
abbrev pub is_open : OrderStatus → Bool
is_open pending = true
is_open confirming = true
is_open _ = false

-- `assertSameOrderIdempotencyTarget`, and the order where it holds
abbrev pub same_target : Order → CreateOrderInput → Bool
same_target o input =
    (o.team_id == input.team_id)
    && (o.plan_id == input.plan_id)
    && (to_string o.amount_minor == input.amount_minor)
    && o.currency == input.currency

unfoldable pub assert_same_order_idempotency_target :
    Order → CreateOrderInput → Result PaymentError Order
assert_same_order_idempotency_target o input =
    if same_target o input then ok o else err idempotency_conflict

abbrev pub new_order : Context → CreateOrderInput → ℕ → Order
new_order ctx input amount = record {
  id = ctx.new_id;
  site_id = input.site_id;
  team_id = input.team_id;
  plan_id = input.plan_id;
  amount_minor = amount;
  currency = input.currency;
  status = pending;
  idempotency_key = input.idempotency_key;
  created_at = ctx.now;
  updated_at = ctx.now;
}

-- `updatedAt` is set by every update.
abbrev pub moved : ℕ → OrderStatus → Order → Order
moved now status o = record o { status = status; updated_at = now }

abbrev pub is_stale_confirming : ℕ → Order → Bool
is_stale_confirming before o = is_confirming o.status && ltb o.updated_at before

module _ (T : Tables) where
  abbrev pub find_order_by_id : String → Store T → Option Order
  find_order_by_id id s = T.orders.find_unique id s.orders

  abbrev pub put_order : Order → Store T → Store T
  put_order o s = record s { orders = T.orders.put o s.orders }

  -- `idempotencyKey` is a unique column.
  abbrev pub order_by_key : String → Store T → Option Order
  order_by_key key s = T.orders.find_first (λ o. o.idempotency_key == key) (λ _. 0) s.orders

  -- `updateMany({ where: { id, status: { in } }, data: { status } })`, and whether it found one.
  unfoldable pub transition_order :
      ℕ → String → (OrderStatus → Bool) → OrderStatus → Store T → Bool × Store T
  transition_order now id from to s = elim (find_order_by_id id s) [
    | none ↦ (false, s)
    | some o ↦ if from o.status then (true, put_order (moved now to o) s) else (false, s)
  ]

  unfoldable pub mark_order_confirming : ℕ → String → Action (Store T) PaymentError Order
  unfolding transition_order
  mark_order_confirming now id s =
      let (_, s') = transition_order now id is_pending confirming s in
      elim (find_order_by_id id s') [
        | none ↦ (err order_not_found, s')
        | some o ↦
            if not (is_confirming o.status) && not (is_paid o.status)
            then (err (order_not_confirmable o.status), s')
            else (ok o, s')
      ]

  -- In the order of the table; the code asks for the oldest update first.
  unfoldable pub list_stale_confirming_orders : ℕ → Store T → List Order
  list_stale_confirming_orders before s = T.orders.find_many (is_stale_confirming before) s.orders

  unfoldable pub mark_order_paid : ℕ → String → Action (Store T) PaymentError Order
  unfolding transition_order
  mark_order_paid now id s =
      let (moves, s') = transition_order now id is_open paid s in
      elim (find_order_by_id id s') [
        | none ↦ (err (if moves then record_missing else order_not_found), s')
        | some o ↦
            if not moves && not (is_paid o.status)
            then (err (order_not_confirmable o.status), s')
            else (ok o, s')
      ]

  -- `order.create`: the id and the idempotency key are unique columns.
  unfoldable pub insert_order : Order → Action (Store T) PaymentError Order
  insert_order o s = elim (find_order_by_id o.id s) [
    | some _ ↦ (err unique_conflict, s)
    | none ↦ elim (order_by_key o.idempotency_key s) [
      | some _ ↦ (err unique_conflict, s)
      | none ↦ (ok o, put_order o s)
    ]
  ]

  -- Another call created the order in between.
  unfoldable pub create_order_or_read_existing :
      Context → CreateOrderInput → Action (Store T) PaymentError Order
  create_order_or_read_existing ctx input s =
      elim (parse_positive_bigint_string input.amount_minor) [
        | err e ↦ (err e, s)
        | ok amount ↦
            let (r, s') = insert_order (new_order ctx input amount) s in
            elim r [
              | err unique_conflict ↦ elim (order_by_key input.idempotency_key s') [
                | none ↦ (err record_missing, s')
                | some existing ↦ (assert_same_order_idempotency_target existing input, s')
              ]
              | other ↦ (other, s')
            ]
      ]

  unfoldable pub create_order : Context → CreateOrderInput → Action (Store T) PaymentError Order
  create_order ctx input s = elim (order_by_key input.idempotency_key s) [
    | some existing ↦ (assert_same_order_idempotency_target existing input, s)
    | none ↦ create_order_or_read_existing ctx input s
  ]
