-- ===== src/Payment/Proofs/Orders.antt =====
-- The life of an order, against the state machine that it implements.
use mathlib.Core.Path.{subst}
use kokoro_platform.Base.{
  ℕ, String, ◌≡◌, ◌≢◌, refl, sym, ap, ◌∙◌, inl, inr, Bool, true, Option, none, some, arith,
  Option-cases, Bool-cases,
}
use kokoro_platform.Payment.Types.{
  Order, OrderStatus, pending, confirming, paid, canceled, refunded,
}
use kokoro_platform.Payment.Store.{Tables, Store}
use kokoro_platform.Payment.Repository.Orders.{
  is_pending, is_paid, is_open, moved, find_order_by_id, put_order, transition_order,
  mark_order_confirming, mark_order_paid,
}

-- The state machine of an order's status.
pub data Advance : OrderStatus → OrderStatus → Type 0 where
  intend : Advance pending confirming
  pay_at_once : Advance pending paid
  settle : Advance confirming paid
  give_back : Advance paid refunded

-- What one call does to one order: nothing, its creation as pending, or one step of its status,
-- with nothing else of it changed but the time of the update.
pub data Change : Option Order → Option Order → Type 0 where
  same : {o : Option Order} → Change o o
  created : (o : Order) → o.status ≡ pending → Change none (some o)
  advanced :
      (o : Order) (now : ℕ) (to : OrderStatus)
      → Advance o.status to
      → Change (some o) (some (moved now to o))

pub open-Advance : (a : OrderStatus) → is_open a ≡ true → Advance a paid
open-Advance pending h = pay_at_once
open-Advance confirming h = settle
open-Advance paid h = absurd (ground arith)
open-Advance canceled h = absurd (ground arith)
open-Advance refunded h = absurd (ground arith)

pub pending-Advance : (a : OrderStatus) → is_pending a ≡ true → Advance a confirming
pending-Advance pending h = intend
pending-Advance confirming h = absurd (ground arith)
pending-Advance paid h = absurd (ground arith)
pending-Advance canceled h = absurd (ground arith)
pending-Advance refunded h = absurd (ground arith)

pub paid-Advance : (a : OrderStatus) → is_paid a ≡ true → Advance a refunded
paid-Advance paid h = give_back
paid-Advance pending h = absurd (ground arith)
paid-Advance confirming h = absurd (ground arith)
paid-Advance canceled h = absurd (ground arith)
paid-Advance refunded h = absurd (ground arith)

module _ (T : Tables) where
  -- One order at most is touched, and it changes as the state machine allows.
  pub record Refines (s t : Store T) : Type 0 where
    pub touched : String
    pub others : (i : String) → touched ≢ i → find_order_by_id T i t ≡ find_order_by_id T i s
    pub change : Change (find_order_by_id T touched s) (find_order_by_id T touched t)

  pub same_orders-Refines : (s t : Store T) → t.orders ≡ s.orders → Refines s t
  same_orders-Refines s t e = record {
    touched = "";
    others = λ i _. ap (T.orders.find_unique i) e;
    change = subst (Change (find_order_by_id T "" s)) (sym (ap (T.orders.find_unique "") e)) same;
  }

  pub put_order-Refines :
      (o : Order) (s : Store T)
      → Change (find_order_by_id T o.id s) (some o)
      → Refines s (put_order T o s)
  put_order-Refines o s c = record {
    touched = o.id;
    others = λ i other. T.orders.find_unique-put_ne o i s.orders other;
    change =
        subst (Change (find_order_by_id T o.id s)) (sym (T.orders.find_unique-put_self o s.orders))
          c;
  }

  pub transition_order-Refines :
      (now : ℕ) (id : String) (from : OrderStatus → Bool) (to : OrderStatus) (s : Store T)
      → ((a : OrderStatus) → from a ≡ true → Advance a to)
      → Refines s (transition_order T now id from to s).1
  unfolding transition_order
  transition_order-Refines now id from to s allowed =
      elim (Option-cases (find_order_by_id T id s)) [
        | inl absent ↦ same_orders-Refines s _ (rw (transition_order, absent) refl)
        | inr (o, found) ↦ elim (Bool-cases (from o.status)) [
          | inr no_match ↦ same_orders-Refines s _ (rw (transition_order, found, no_match) refl)
          | inl meets ↦
              let named = T.orders.find_unique-id id s.orders o found in
              let here_it_is : find_order_by_id T o.id s ≡ some o =
                ap (λ k. find_order_by_id T k s) named ∙ found in
              rw (transition_order, found, meets)
                (put_order-Refines (moved now to o) s (
                  subst (λ x. Change x (some (moved now to o))) (sym here_it_is)
                    (advanced o now to (allowed o.status meets))))
        ]
      ]

  pub mark_order_confirming-transition :
      (now : ℕ) (id : String) (s : Store T)
      → (mark_order_confirming T now id s).1 ≡ (transition_order T now id is_pending confirming s).1
  unfolding mark_order_confirming
  mark_order_confirming-transition now id s =
      let s' = (transition_order T now id is_pending confirming s).1 in
      elim (Option-cases (find_order_by_id T id s')) [
        | inl e ↦ ground arith
        | inr (o, e) ↦ ground arith
      ]

  pub mark_order_paid-transition :
      (now : ℕ) (id : String) (s : Store T)
      → (mark_order_paid T now id s).1 ≡ (transition_order T now id is_open paid s).1
  unfolding mark_order_paid
  mark_order_paid-transition now id s =
      let s' = (transition_order T now id is_open paid s).1 in
      elim (Option-cases (find_order_by_id T id s')) [
        | inl e ↦ ground arith
        | inr (o, e) ↦ ground arith
      ]
