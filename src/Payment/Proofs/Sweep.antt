-- ===== src/Payment/Proofs/Sweep.antt =====
-- The sweep of orders whose confirmation was cut off.
use mathlib.Core.Path.{subst, subst₂}
use mathlib.Core.List.{Memᴰ}
use mathlib.Core.List.Memᴰ
use kokoro_platform.Base.{
  ℕ, ◌+◌, ◌-◌, String, ◌≡◌, ◌≢◌, refl, sym, ap, ◌∙◌, ◌⊎◌, inl, inr, true, false, some, List, [],
  ◌∷◌, map, ◌==◌, eq_iff, is_some, arith, Bool-cases,
}
use kokoro_platform.Base.Effect.{Result-cases}
use kokoro_platform.Payment.Types.{
  Order, OrderStatus, Plan, paid, confirming, pending, canceled, refunded, PaymentError,
}
use kokoro_platform.Payment.Store.{Tables, Store}
use kokoro_platform.Payment.Credits.{Credits}
use kokoro_platform.Payment.Repository.Plans.{find_plan_by_id}
use kokoro_platform.Payment.Repository.Orders.{
  is_open, is_paid, is_stale_confirming, find_order_by_id, list_stale_confirming_orders,
}
use kokoro_platform.Payment.Service.{
  World, finish_confirmation, confirm_order, assert_plan_not_deleted, confirm_all,
  sweep_stale_confirming_orders,
}
use kokoro_platform.Payment.Proofs.Confirm.{Suspended, finish_confirmation_cases}
use kokoro_platform.Payment.Proofs.Confirmed.{confirm_order_of_paid}
use kokoro_platform.Payment.Proofs.Leaves.{confirm_order-Leaves}

open_not_paid : (a : OrderStatus) → is_open a ≡ true → is_paid a ≡ false
open_not_paid pending h = refl
open_not_paid confirming h = refl
open_not_paid paid h = absurd (ground arith)
open_not_paid canceled h = refl
open_not_paid refunded h = refl

stale_open :
    (before : ℕ) (o : Order) (a : OrderStatus)
    → o.status ≡ a
    → is_stale_confirming before o ≡ true
    → is_open a ≡ true
stale_open before o pending e h = refl
stale_open before o confirming e h = refl
stale_open before o paid e h = absurd (ground arith)
stale_open before o canceled e h = absurd (ground arith)
stale_open before o refunded e h = absurd (ground arith)

module _ (T : Tables) (K : Credits) where
  -- The order is there and paid, or can be confirmed: it is open, and its plan is there and not
  -- deleted.
  record Ready (id : String) (plan : Plan) (s : Store T) : Type 0 where
    pub order : Order
    pub found : find_order_by_id T id s ≡ some order
    pub of_plan : find_plan_by_id T order.plan_id s ≡ some plan
    pub live : is_some plan.deleted_at ≡ false
    pub status : (is_paid order.status ≡ true) ⊎ (is_open order.status ≡ true)

  -- The order is stored, and paid.
  abbrev pub PaidIn : String → Store T → Type 0
  PaidIn id s = (o : Order) × (find_order_by_id T id s ≡ some o) × (is_paid o.status ≡ true)

  -- The confirmation of the order stopped where the credit service threw, at the call that grants
  -- the credit of this plan.
  abbrev pub Stopped : String → Plan → World T K → World T K → Type 0
  Stopped id plan w w' = (e : PaymentError) × Suspended T K id plan e w w'

  -- While the orders of the list were confirmed one after the other, the confirmation of the order
  -- `id` was stopped.
  abbrev pub StoppedIn : ℕ → String → String → Plan → List Order → World T K → Type 0
  StoppedIn now request_id id plan [] w = ⊥
  StoppedIn now request_id id plan (order ∷ rest) w =
      let w' = (confirm_order T K now order.id request_id w).1 in
      ((order.id ≡ id) × Stopped id plan w w') ⊎ StoppedIn now request_id id plan rest w'

  confirm_order-Ready :
      (now : ℕ) (id request_id : String) (plan : Plan) (w : World T K)
      → Ready id plan w.db
      → let w' = (confirm_order T K now id request_id w).1 in PaidIn id w'.db ⊎ Stopped id plan w w'
  unfolding confirm_order assert_plan_not_deleted
  confirm_order-Ready now id request_id plan w r = elim r.status [
    | inl already ↦ inl (
      r.order,
      subst (λ (x : World T K). find_order_by_id T id x.db ≡ some r.order)
          (ap (λ x. x.1)
            (sym (confirm_order_of_paid T K now id request_id r.order w r.found already)))
          r.found,
      already,
    )
    | inr still ↦
        let named = T.orders.find_unique-id id w.db.orders r.order r.found in
        let there : find_order_by_id T r.order.id w.db ≡ some r.order =
          ap (λ k. find_order_by_id T k w.db) named ∙ r.found in
        let not_paid = open_not_paid r.order.status still in
        let same : confirm_order T K now id request_id w
            ≡ finish_confirmation T K now r.order plan request_id w =
          ground (arith, r.found, r.of_plan, r.live) in
        subst₂ (λ k x. PaidIn k x.db ⊎ Stopped k plan w x) named (ap (λ x. x.1) (sym same))
          (elim (finish_confirmation_cases T K now r.order plan request_id w there still) [
            | inl (o, _, settled) ↦ inl (o, settled.stored, rw settled.is_now_paid refl)
            | inr (e, _, s) ↦ inr (e, s)
          ])
  ]

  confirm_order-keeps :
      (now : ℕ) (id other request_id : String) (plan : Plan) (w : World T K)
      → Ready id plan w.db
      → id ≢ other
      → Ready id plan (confirm_order T K now other request_id w).1.db
  confirm_order-keeps now id other request_id plan w r differ =
      let leaves = confirm_order-Leaves T K now other request_id w in
      record {
        order = r.order;
        found = leaves.others id (λ e. differ (sym e)) ∙ r.found;
        of_plan = ap (T.plans.find_unique r.order.plan_id) leaves.plans ∙ r.of_plan;
        live = r.live;
        status = r.status;
      }

  confirm_order-PaidIn :
      (now : ℕ) (id other request_id : String) (w : World T K)
      → PaidIn id w.db
      → PaidIn id (confirm_order T K now other request_id w).1.db
  confirm_order-PaidIn now id other request_id w (o, found, h) = elim (Bool-cases (other == id)) [
    | inl this ↦
        let same = (eq_iff other id).0 this in
        let e = confirm_order_of_paid T K now id request_id o w found h in
        (
          o,
          ap (λ k. find_order_by_id T id (confirm_order T K now k request_id w).1.db) same
              ∙ ap (λ x. find_order_by_id T id x.1.db) e
              ∙ found,
          h,
        )
    | inr differs ↦ (
      o,
      (confirm_order-Leaves T K now other request_id w).others id
            (λ e. ground (arith, eq_iff other id, e))
          ∙ found,
      h,
    )
  ]

  -- What the rest of the sweep starts from.
  confirm_all_step :
      (now : ℕ) (request_id : String) (n : ℕ) (order : Order) (rest : List Order) (w : World T K)
      → (m : ℕ) × (confirm_all T K now request_id n (order ∷ rest) w
          ≡ confirm_all T K now request_id m rest (confirm_order T K now order.id request_id w).1)
  unfolding confirm_all
  confirm_all_step now request_id n order rest w =
      elim (Result-cases (confirm_order T K now order.id request_id w).0) [
        | inl (o, done) ↦ (n + 1, ground arith)
        | inr (e, failed) ↦ (n, ground arith)
      ]

  confirm_all-PaidIn :
      (now : ℕ) (id request_id : String) (n : ℕ) (orders : List Order) (w : World T K)
      → PaidIn id w.db
      → PaidIn id (confirm_all T K now request_id n orders w).1.db
  unfolding confirm_all
  confirm_all-PaidIn now id request_id n [] w p = p
  confirm_all-PaidIn now id request_id n (order ∷ rest) w p =
      let (m, e) = confirm_all_step now request_id n order rest w in
      subst (λ x. PaidIn id x.1.db) (sym e)
        (confirm_all-PaidIn now id request_id m rest (confirm_order T K now order.id request_id w).1
          (confirm_order-PaidIn now id order.id request_id w p))

  confirm_all-Ready :
      (now : ℕ) (id request_id : String) (n : ℕ) (plan : Plan) (orders : List Order) (w : World T K)
      → Memᴰ id (map (λ o. o.id) orders)
      → Ready id plan w.db
      → PaidIn id (confirm_all T K now request_id n orders w).1.db
        ⊎ StoppedIn now request_id id plan orders w
  confirm_all-Ready now id request_id n plan [] w m r = absurd (Memᴰ.not-nil m)
  confirm_all-Ready now id request_id n plan (order ∷ rest) w m r =
      let (k, e) = confirm_all_step now request_id n order rest w in
      let w' = (confirm_order T K now order.id request_id w).1 in
      subst (λ x. PaidIn id x.1.db ⊎ StoppedIn now request_id id plan (order ∷ rest) w) (sym e)
        (elim (Bool-cases (id == order.id)) [
          | inl this ↦
              let same = (eq_iff id order.id).0 this in
              elim (subst
                (λ j.
                  let v = (confirm_order T K now j request_id w).1 in
                  PaidIn id v.db ⊎ Stopped id plan w v)
                same (confirm_order-Ready now id request_id plan w r)) [
                  | inl now_paid ↦ inl (confirm_all-PaidIn now id request_id k rest w' now_paid)
                  | inr stopped ↦ inr (inl (sym same, stopped))
                ]
          | inr differs ↦
              let differ : id ≢ order.id = λ h. ground (arith, eq_iff id order.id, h) in
              let later : Memᴰ id (map (λ o. o.id) rest) = elim (Memᴰ.cases_cons m) [
                | inl same ↦ absurd (differ same)
                | inr later ↦ later
              ] in
              elim (confirm_all-Ready now id request_id k plan rest w' later
                (confirm_order-keeps now id order.id request_id plan w r differ)) [
                  | inl now_paid ↦ inl now_paid
                  | inr stopped ↦ inr (inr stopped)
                ]
        ])

  -- A sweep takes up every stale order that can be paid, whatever becomes of the others: an order
  -- that is confirming and was last updated before the threshold, and whose plan is there and not
  -- deleted, is paid after the sweep, or else in its turn the credit service threw at the very call
  -- that grants the plan's credit to the order's team and site under the order's key.
  pub sweep_stale_confirming_orders_pays :
      (now threshold_ms : ℕ) (request_id : String) (w : World T K) (o : Order) (plan : Plan)
      → find_order_by_id T o.id w.db ≡ some o
      → is_stale_confirming (now - threshold_ms) o ≡ true
      → find_plan_by_id T o.plan_id w.db ≡ some plan
      → is_some plan.deleted_at ≡ false
      → PaidIn o.id (sweep_stale_confirming_orders T K now threshold_ms request_id w).1.db
        ⊎ StoppedIn now request_id o.id plan
            (list_stale_confirming_orders T (now - threshold_ms) w.db)
            w
  unfolding sweep_stale_confirming_orders list_stale_confirming_orders
  sweep_stale_confirming_orders_pays now threshold_ms request_id w o plan found stale of_plan live =
      confirm_all-Ready now o.id request_id 0 plan
        (list_stale_confirming_orders T (now - threshold_ms) w.db) w
        (T.orders.find_many_complete (is_stale_confirming (now - threshold_ms)) w.db.orders o found
          stale)
        (record {
          order = o;
          found = found;
          of_plan = of_plan;
          live = live;
          status = inr (stale_open (now - threshold_ms) o o.status refl stale);
        })
