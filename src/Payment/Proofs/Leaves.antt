-- ===== src/Payment/Proofs/Leaves.antt =====
-- A confirmation leaves the plans and all other orders alone.
use mathlib.Core.Path.{subst}
use kokoro_platform.Base.{
  ℕ, String, ◌≡◌, ◌≢◌, sym, ap, ◌∙◌, inl, inr, Bool, is_some, arith, ltb, Bool-cases, Option-cases,
}
use kokoro_platform.Base.Effect.{Result-cases}
use kokoro_platform.Payment.Types.{Order, OrderStatus, Plan, paid, confirming}
use kokoro_platform.Payment.Store.{Tables, Store}
use kokoro_platform.Payment.Credits.{Credits}
use kokoro_platform.Payment.Repository.Plans.{find_plan_by_id}
use kokoro_platform.Payment.Repository.Orders.{
  is_open, is_paid, is_pending, moved, find_order_by_id, transition_order, mark_order_confirming,
  mark_order_paid,
}
use kokoro_platform.Payment.Service.{
  World, order_grant, finish_confirmation, confirm_order, assert_plan_not_deleted,
}
use kokoro_platform.Payment.Proofs.Orders.{
  mark_order_confirming-transition, mark_order_paid-transition,
}

module _ (T : Tables) where
  -- All but one order, and the plans, are as before.
  pub record Leaves (id : String) (s t : Store T) : Type 0 where
    pub plans : t.plans ≡ s.plans
    pub others : (i : String) → id ≢ i → find_order_by_id T i t ≡ find_order_by_id T i s

  same-Leaves : (id : String) (s t : Store T) → t ≡ s → Leaves id s t
  same-Leaves id s t e = record {
    plans = ap (λ (x : Store T). x.plans) e;
    others = λ i _. ap (λ (x : Store T). find_order_by_id T i x) e;
  }

  Leaves-trans : (id : String) (s t u : Store T) → Leaves id s t → Leaves id t u → Leaves id s u
  Leaves-trans id s t u f g = record {
    plans = g.plans ∙ f.plans;
    others = λ i h. g.others i h ∙ f.others i h;
  }

  transition_order-Leaves :
      (now : ℕ) (id : String) (from : OrderStatus → Bool) (to : OrderStatus) (s : Store T)
      → Leaves id s (transition_order T now id from to s).1
  unfolding transition_order
  transition_order-Leaves now id from to s = elim (Option-cases (find_order_by_id T id s)) [
    | inl absent ↦ same-Leaves id s (transition_order T now id from to s).1 (ground arith)
    | inr (o, found) ↦
        let named = T.orders.find_unique-id id s.orders o found in
        elim (Bool-cases (from o.status)) [
          | inr other ↦ same-Leaves id s (transition_order T now id from to s).1 (ground arith)
          | inl meets ↦ record {
            plans = ground arith;
            others = λ i h.
                let differ : o.id ≢ i = λ e. h (sym named ∙ e) in
                rw (transition_order, found, meets)
                  (T.orders.find_unique-put_ne (moved now to o) i s.orders differ);
          }
        ]
  ]

  mark_order_confirming-Leaves :
      (now : ℕ) (id : String) (s : Store T) → Leaves id s (mark_order_confirming T now id s).1
  mark_order_confirming-Leaves now id s =
      subst (Leaves id s) (sym (mark_order_confirming-transition T now id s))
        (transition_order-Leaves now id is_pending confirming s)

  mark_order_paid-Leaves :
      (now : ℕ) (id : String) (s : Store T) → Leaves id s (mark_order_paid T now id s).1
  mark_order_paid-Leaves now id s =
      subst (Leaves id s) (sym (mark_order_paid-transition T now id s))
        (transition_order-Leaves now id is_open paid s)

  module _ (K : Credits) where
    finish_confirmation-Leaves :
        (now : ℕ) (order : Order) (plan : Plan) (request_id : String) (w : World T K)
        → Leaves order.id w.db (finish_confirmation T K now order plan request_id w).1.db
    unfolding finish_confirmation
    finish_confirmation-Leaves now order plan request_id w =
        let call = order_grant order plan request_id in
        let s = (mark_order_confirming T now order.id w.db).1 in
        let t = (mark_order_paid T now order.id s).1 in
        let first = mark_order_confirming-Leaves now order.id w.db in
        let both = Leaves-trans order.id w.db s t first (mark_order_paid-Leaves now order.id s) in
        let after = (finish_confirmation T K now order plan request_id w).1.db in
        elim (Result-cases (mark_order_confirming T now order.id w.db).0) [
          | inr (e, failed) ↦
              let same : s ≡ after = ground arith in subst (Leaves order.id w.db) same first
          | inl (o, marked) ↦ elim (Bool-cases (ltb 0 plan.credit_micros)) [
            | inr free ↦
                let same : t ≡ after = ground arith in subst (Leaves order.id w.db) same both
            | inl costs ↦ elim (Result-cases (K.grant call w.credits).0) [
              | inl (u, granted) ↦
                  let same : t ≡ after = ground arith in subst (Leaves order.id w.db) same both
              | inr (e, refused) ↦
                  let same : s ≡ after = ground arith in subst (Leaves order.id w.db) same first
            ]
          ]
        ]

    pub confirm_order-Leaves :
        (now : ℕ) (id request_id : String) (w : World T K)
        → Leaves id w.db (confirm_order T K now id request_id w).1.db
    unfolding confirm_order assert_plan_not_deleted
    confirm_order-Leaves now id request_id w =
        let after = (confirm_order T K now id request_id w).1.db in
        elim (Option-cases (find_order_by_id T id w.db)) [
          | inl absent ↦ same-Leaves id w.db after (ground arith)
          | inr (order, found) ↦ elim (Bool-cases (is_paid order.status)) [
            | inl already ↦ same-Leaves id w.db after (ground arith)
            | inr not_yet ↦ elim (Bool-cases (is_open order.status)) [
              | inr closed ↦ same-Leaves id w.db after (ground arith)
              | inl still ↦ elim (Option-cases (find_plan_by_id T order.plan_id w.db)) [
                | inl no_plan ↦ same-Leaves id w.db after (ground arith)
                | inr (plan, of_plan) ↦ elim (Bool-cases (is_some plan.deleted_at)) [
                  | inl gone ↦ same-Leaves id w.db after (ground arith)
                  | inr live ↦
                      let named = T.orders.find_unique-id id w.db.orders order found in
                      let same : (finish_confirmation T K now order plan request_id w).1.db
                          ≡ after =
                        ground arith in
                      subst (Leaves id w.db) same (
                        subst
                          (λ k.
                            Leaves k w.db
                              (finish_confirmation T K now order plan request_id w).1.db)
                          named (finish_confirmation-Leaves now order plan request_id w))
                ]
              ]
            ]
          ]
        ]
