-- ===== src/Payment/Proofs/Lifecycle.antt =====
-- Every call of the repository, and every sequence of calls, as runs of the state machine of orders.
use mathlib.Core.Path.{subst}
use kokoro_platform.Base.{
  String, ◌≡◌, refl, sym, ap, ◌∙◌, inl, inr, Option, some, ◌==◌, eq_iff, arith, Bool-cases,
}
use kokoro_platform.Payment.Types.{
  Order, OrderStatus, confirming, paid, refunded, CreateOrderInput, CreateRefundInput,
}
use kokoro_platform.Payment.Store.{Tables, Store, Context}
use kokoro_platform.Payment.Repository.Orders.{moved, new_order, find_order_by_id}
use kokoro_platform.Payment.Machine.{
  Step, plan, drop_plan, revive_plan, order, confirm, pay, refund, subscribe, provider,
  drop_provider, event, process, Reach, here, next,
}
use kokoro_platform.Payment.Proofs.Others.{
  upsert_plan-SameOrders, delete_plan-SameOrders, restore_plan-SameOrders,
  upsert_subscription-SameOrders, upsert_provider-SameOrders, delete_provider-SameOrders,
  record_payment_event-SameOrders, transition_payment_event_status-SameOrders,
}
use kokoro_platform.Payment.Proofs.Writes.{
  Created, create_order_cases, GivenBack, refund_order_atomically_cases,
}
use kokoro_platform.Payment.Proofs.Orders.{
  Advance, Change, same, created, advanced, Refines, same_orders-Refines, put_order-Refines,
  transition_order-Refines, open-Advance, pending-Advance, paid-Advance,
  mark_order_confirming-transition, mark_order_paid-transition,
}

-- The status has moved on, by any number of steps.
pub data Advances (a : OrderStatus) : OrderStatus → Type 0 where
  stay : Advances a a
  on : {b c : OrderStatus} → Advances a b → Advance b c → Advances a c

-- The order is the same but for its status, which has moved on, and the time of its update.
pub record Follows (o o' : Order) : Type 0 where
  pub advances : Advances o.status o'.status
  pub kept : o' ≡ record o { status = o'.status; updated_at = o'.updated_at }

Follows-refl : (o : Order) → Follows o o
Follows-refl o = record { advances = stay; kept = refl }

Change-Follows :
    {p q : Option Order} (o o' : Order)
    → Change p q
    → Follows o o'
    → p ≡ some o'
    → (o'' : Order) × (q ≡ some o'') × Follows o o''
Change-Follows o o' same f e = (o', e, f)
Change-Follows o o' (created n _) f e = absurd (ground (arith, e))
Change-Follows o o' (advanced n now to step) f e =
    let same_order : n ≡ o' = ground (arith, e) in
    (
      moved now to n,
      refl,
      record {
        advances = on f.advances (subst (λ x. Advance x.status to) same_order step);
        kept =
            subst (λ x. moved now to x ≡ record o { status = to; updated_at = now })
              (sym same_order) (ap (moved now to) f.kept);
      },
    )

module _ (T : Tables) where
  Created-Refines :
      (ctx : Context) (input : CreateOrderInput) (s t : Store T)
      → Created T ctx input s t
      → Refines T s t
  Created-Refines ctx input s t c =
      let o = new_order ctx input c.amount in
      subst (Refines T s) (sym c.written)
        (put_order-Refines T o s (subst (λ x. Change x (some o)) (sym c.fresh) (created o refl)))

  GivenBack-Refines :
      (ctx : Context) (id : String) (input : CreateRefundInput) (s t : Store T)
      → GivenBack T ctx id input s t
      → Refines T s t
  GivenBack-Refines ctx id input s t g =
      let o = moved ctx.now refunded g.order in
      let named = T.orders.find_unique-id id s.orders g.order g.found in
      let there : find_order_by_id T o.id s ≡ some g.order =
        ap (λ k. find_order_by_id T k s) named ∙ g.found in
      let r = put_order-Refines T o s (
        subst (λ x. Change x (some o)) (sym there)
          (advanced g.order ctx.now refunded (paid-Advance g.order.status g.was_paid))) in
      subst (Refines T s) (sym g.written)
        (record { touched = r.touched; others = r.others; change = r.change })

  -- Every call of the repository refines the state machine: it touches one order at most, which
  -- it creates as pending, or moves from pending to confirming, from pending or confirming to
  -- paid, or from paid to refunded, or leaves as it is.
  pub Step-Refines : {s t : Store T} → Step T s t → Refines T s t
  Step-Refines {s} (plan ctx input) =
      same_orders-Refines T s _ (upsert_plan-SameOrders T ctx input s).0
  Step-Refines {s} (drop_plan now input) =
      same_orders-Refines T s _ (delete_plan-SameOrders T now input s).0
  Step-Refines {s} (revive_plan id) = same_orders-Refines T s _ (restore_plan-SameOrders T id s).0
  Step-Refines {s} (order ctx input) = elim (create_order_cases T ctx input s) [
    | inl e ↦ same_orders-Refines T s _ (ap (λ (x : Store T). x.orders) e)
    | inr c ↦ Created-Refines ctx input s _ c
  ]
  Step-Refines {s} (confirm now id) =
      subst (Refines T s) (sym (mark_order_confirming-transition T now id s))
        (transition_order-Refines T now id _ confirming s pending-Advance)
  Step-Refines {s} (pay now id) =
      subst (Refines T s) (sym (mark_order_paid-transition T now id s))
        (transition_order-Refines T now id _ paid s open-Advance)
  Step-Refines {s} (refund ctx id input _) = elim (refund_order_atomically_cases T ctx id input s) [
    | inl e ↦ same_orders-Refines T s _ (ap (λ (x : Store T). x.orders) e)
    | inr g ↦ GivenBack-Refines ctx id input s _ g
  ]
  Step-Refines {s} (subscribe ctx input) =
      same_orders-Refines T s _ (upsert_subscription-SameOrders T ctx input s).0
  Step-Refines {s} (provider ctx input) =
      same_orders-Refines T s _ (upsert_provider-SameOrders T ctx input s).0
  Step-Refines {s} (drop_provider key) =
      same_orders-Refines T s _ (delete_provider-SameOrders T key s).0
  Step-Refines {s} (event ctx input) =
      same_orders-Refines T s _ (record_payment_event-SameOrders T ctx input s).0
  Step-Refines {s} (process id to text) =
      same_orders-Refines T s _ (transition_payment_event_status-SameOrders T id _ to text s).0

  Refines-Follows :
      (id : String) (o o' : Order) (s t : Store T)
      → Refines T s t
      → Follows o o'
      → find_order_by_id T id s ≡ some o'
      → (o'' : Order) × (find_order_by_id T id t ≡ some o'') × Follows o o''
  Refines-Follows id o o' s t r f found = elim (Bool-cases (r.touched == id)) [
    | inr other ↦ (o', r.others id (λ e. ground (arith, eq_iff r.touched id)) ∙ found, f)
    | inl this ↦
        let e = (eq_iff r.touched id).0 this in
        let change =
          subst (λ k. Change (find_order_by_id T k s) (find_order_by_id T k t)) e r.change in
        Change-Follows o o' change f found
  ]

  -- Whatever calls the database serves, in whatever order, an order that is there stays there with
  -- its site, team, plan, amount, currency and key, and its status only moves on along the state
  -- machine.
  pub Reach-Follows :
      {s t : Store T} (id : String) (o : Order)
      → Reach T s t
      → find_order_by_id T id s ≡ some o
      → (o' : Order) × (find_order_by_id T id t ≡ some o') × Follows o o'
  Reach-Follows id o here found = (o, found, Follows-refl o)
  Reach-Follows id o (next {t} {u} r step) found =
      let (o', there, f) = Reach-Follows id o r found in
      Refines-Follows id o o' t u (Step-Refines step) f there
