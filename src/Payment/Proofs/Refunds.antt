-- ===== src/Payment/Proofs/Refunds.antt =====
-- An order is refunded once.
use mathlib.Core.Path.{subst, subst₂}
use kokoro_platform.Base.{
  ℕ, String, ◌≡◌, refl, sym, ap, ◌∙◌, inl, inr, Bool, true, false, Option, none, some, ◌==◌, eq_iff,
  arith, Bool-cases, Option-cases, if◌then◌else◌,
}
use kokoro_platform.Base.Int.{ℤ, pos, ◌+ℤ◌, ◌≤ℤ◌, int_laws}
use kokoro_platform.Base.Table.{find-put, weight_of}
use kokoro_platform.Payment.Types.{
  Order, OrderStatus, pending, confirming, paid, canceled, refunded, Refund, CreateRefundInput,
}
use kokoro_platform.Payment.Store.{Tables, Store, Context}
use kokoro_platform.Payment.Service.{is_refunded}
use kokoro_platform.Payment.Repository.Orders.{
  is_paid, moved, new_order, find_order_by_id, put_order, transition_order,
}
use kokoro_platform.Payment.Repository.Plans.{upsert_plan, delete_plan, restore_plan}
use kokoro_platform.Payment.Repository.Subscriptions.{upsert_subscription}
use kokoro_platform.Payment.Repository.Events.{
  upsert_provider, delete_provider, record_payment_event, transition_payment_event_status,
  is_unprocessed,
}
use kokoro_platform.Payment.Repository.Refunds.{
  find_refund_by_order_id, new_refund, refund_order_atomically,
}
use kokoro_platform.Payment.Machine.{
  Step, plan, drop_plan, revive_plan, order, confirm, pay, refund, subscribe, provider,
  drop_provider, event, process, Reach, here, next,
}
use kokoro_platform.Payment.Proofs.Others.{
  SameOrders, upsert_plan-SameOrders, delete_plan-SameOrders, restore_plan-SameOrders,
  upsert_subscription-SameOrders, upsert_provider-SameOrders, delete_provider-SameOrders,
  record_payment_event-SameOrders, transition_payment_event_status-SameOrders,
}
use kokoro_platform.Payment.Proofs.Writes.{
  create_order_cases, GivenBack, refund_order_atomically_cases,
}
use kokoro_platform.Payment.Proofs.Orders.{
  mark_order_confirming-transition, mark_order_paid-transition,
}

-- The refunds that an order should have.
abbrev pub owed : Option Order → ℤ
owed none = pos 0
owed (some o) = if is_refunded o.status then pos 1 else pos 0

abbrev pub of_order : String → Refund → ℤ
of_order id r = if r.order_id == id then pos 1 else pos 0

paid_not_refunded : (a : OrderStatus) → is_paid a ≡ true → is_refunded a ≡ false
paid_not_refunded paid h = refl
paid_not_refunded pending h = refl
paid_not_refunded confirming h = refl
paid_not_refunded canceled h = refl
paid_not_refunded refunded h = absurd (ground arith)

of_order_nonneg : (id : String) (r : Refund) → pos 0 ≤ℤ of_order id r
of_order_nonneg id r = elim (Bool-cases (r.order_id == id)) [
  | inl e ↦ rw e (omega int_laws)
  | inr e ↦ rw e (omega int_laws)
]

not_one_le_zero : ¬ (pos 1 ≤ℤ pos 0)
not_one_le_zero h = omega int_laws

module _ (T : Tables) where
  abbrev pub refunds_of : String → Store T → ℤ
  refunds_of id s = T.refunds.aggregate (of_order id) s.refunds

  abbrev pub RefundsMatch : Store T → Type 0
  RefundsMatch s = (id : String) → refunds_of id s ≡ owed (find_order_by_id T id s)

  SameOrders-RefundsMatch : (s t : Store T) → SameOrders T s t → RefundsMatch s → RefundsMatch t
  SameOrders-RefundsMatch s t (eo, er) m id =
      ap (T.refunds.aggregate (of_order id)) er
      ∙ m id
      ∙ ap (λ x. owed (T.orders.find_unique id x)) (sym eo)

  -- A write that leaves whether the order is refunded.
  put_order-RefundsMatch :
      (o : Order) (s : Store T)
      → owed (find_order_by_id T o.id s) ≡ owed (some o)
      → RefundsMatch s
      → RefundsMatch (put_order T o s)
  put_order-RefundsMatch o s e m id =
      let stored = find-put T.orders o id s.orders in
      elim (Bool-cases (o.id == id)) [
        | inl this ↦
            let now_there : find_order_by_id T id (put_order T o s) ≡ some o =
              stored ∙ rw this refl in
            m id
            ∙ ap (λ k. owed (find_order_by_id T k s)) (sym ((eq_iff o.id id).0 this))
            ∙ e
            ∙ ap owed (sym now_there)
        | inr other ↦
            let as_before : find_order_by_id T id (put_order T o s) ≡ find_order_by_id T id s =
              stored ∙ rw other refl in
            m id ∙ ap owed (sym as_before)
      ]

  transition_order-RefundsMatch :
      (now : ℕ) (id : String) (from : OrderStatus → Bool) (to : OrderStatus) (s : Store T)
      → is_refunded to ≡ false
      → ((a : OrderStatus) → from a ≡ true → is_refunded a ≡ false)
      → RefundsMatch s
      → RefundsMatch (transition_order T now id from to s).1
  unfolding transition_order
  transition_order-RefundsMatch now id from to s not_to not_from m =
      elim (Option-cases (find_order_by_id T id s)) [
        | inl absent ↦ rw (transition_order, absent) m
        | inr (o, found) ↦ elim (Bool-cases (from o.status)) [
          | inr no_match ↦ rw (transition_order, found, no_match) m
          | inl meets ↦
              let named = T.orders.find_unique-id id s.orders o found in
              let there : find_order_by_id T o.id s ≡ some o =
                ap (λ k. find_order_by_id T k s) named ∙ found in
              rw (transition_order, found, meets)
                (put_order-RefundsMatch (moved now to o) s
                  (ap owed there ∙ ground (arith, not_from o.status meets)) m)
        ]
      ]

  GivenBack-RefundsMatch :
      (ctx : Context) (id : String) (input : CreateRefundInput) (s t : Store T)
      → input.order_id ≡ id
      → GivenBack T ctx id input s t
      → RefundsMatch s
      → RefundsMatch t
  GivenBack-RefundsMatch ctx id input s t same g m i =
      let o = moved ctx.now refunded g.order in
      let r = new_refund ctx input g.amount in
      let named = T.orders.find_unique-id id s.orders g.order g.found in
      let counted : refunds_of i t ≡ refunds_of i s +ℤ of_order i r =
        ap (λ (x : Store T). refunds_of i x) g.written
        ∙ T.refunds.aggregate-put (of_order i) r s.refunds
        ∙ rw g.fresh (omega int_laws) in
      let stored : find_order_by_id T i t ≡ (if o.id == i then some o else find_order_by_id T i s) =
        ap (λ (x : Store T). find_order_by_id T i x) g.written ∙ find-put T.orders o i s.orders in
      elim (Bool-cases (o.id == i)) [
        | inr other ↦
            let not_this : (r.order_id == i) ≡ false = rw (same, sym named) other in
            counted ∙ rw (not_this, stored, other) (rw (m i) (omega int_laws))
        | inl this ↦
            let e = (eq_iff o.id i).0 this in
            let this_one : (r.order_id == i) ≡ true = rw (same, sym named) this in
            let before : refunds_of i s ≡ pos 0 =
              m i
              ∙ ap (λ k. owed (find_order_by_id T k s)) (sym e ∙ named)
              ∙ ap owed g.found
              ∙ rw (paid_not_refunded g.order.status g.was_paid) refl in
            counted ∙ rw (this_one, stored, this, before) (omega int_laws)
      ]

  open_not_refunded :
      (from : OrderStatus → Bool)
      → from refunded ≡ false
      → (a : OrderStatus) → from a ≡ true
      → is_refunded a ≡ false
  open_not_refunded from h pending e = refl
  open_not_refunded from h confirming e = refl
  open_not_refunded from h paid e = refl
  open_not_refunded from h canceled e = refl
  open_not_refunded from h refunded e = absurd (ground (arith, h, e))

  Step-RefundsMatch : {s t : Store T} → Step T s t → RefundsMatch s → RefundsMatch t
  Step-RefundsMatch {s} (plan ctx input) =
      SameOrders-RefundsMatch s (upsert_plan T ctx input s).1 (upsert_plan-SameOrders T ctx input s)
  Step-RefundsMatch {s} (drop_plan now input) =
      SameOrders-RefundsMatch s (delete_plan T now input s).1 (delete_plan-SameOrders T now input s)
  Step-RefundsMatch {s} (revive_plan id) =
      SameOrders-RefundsMatch s (restore_plan T id s).1 (restore_plan-SameOrders T id s)
  Step-RefundsMatch {s} (order ctx input) = λ m. elim (create_order_cases T ctx input s) [
    | inl e ↦ subst RefundsMatch (sym e) m
    | inr c ↦
        subst RefundsMatch (sym c.written)
          (put_order-RefundsMatch (new_order ctx input c.amount) s (rw c.fresh refl) m)
  ]
  Step-RefundsMatch {s} (confirm now id) = λ m.
      subst RefundsMatch (sym (mark_order_confirming-transition T now id s))
        (transition_order-RefundsMatch now id _ confirming s refl (open_not_refunded _ refl) m)
  Step-RefundsMatch {s} (pay now id) = λ m.
      subst RefundsMatch (sym (mark_order_paid-transition T now id s))
        (transition_order-RefundsMatch now id _ paid s refl (open_not_refunded _ refl) m)
  Step-RefundsMatch {s} (refund ctx id input same) = λ m.
      elim (refund_order_atomically_cases T ctx id input s) [
        | inl e ↦ subst RefundsMatch (sym e) m
        | inr g ↦
            GivenBack-RefundsMatch ctx id input s (refund_order_atomically T ctx id input s).1 same
              g m
      ]
  Step-RefundsMatch {s} (subscribe ctx input) =
      SameOrders-RefundsMatch s (upsert_subscription T ctx input s).1
        (upsert_subscription-SameOrders T ctx input s)
  Step-RefundsMatch {s} (provider ctx input) =
      SameOrders-RefundsMatch s (upsert_provider T ctx input s).1
        (upsert_provider-SameOrders T ctx input s)
  Step-RefundsMatch {s} (drop_provider key) =
      SameOrders-RefundsMatch s (delete_provider T key s).1 (delete_provider-SameOrders T key s)
  Step-RefundsMatch {s} (event ctx input) =
      SameOrders-RefundsMatch s (record_payment_event T ctx input s).1
        (record_payment_event-SameOrders T ctx input s)
  Step-RefundsMatch {s} (process id to text) =
      SameOrders-RefundsMatch s (transition_payment_event_status T id is_unprocessed to text s).1
        (transition_payment_event_status-SameOrders T id _ to text s)

  -- A database without orders and refunds.
  pub record IsEmpty (s : Store T) : Type 0 where
    pub no_orders : (id : String) → find_order_by_id T id s ≡ none
    pub no_refunds : (id : String) → T.refunds.find_unique id s.refunds ≡ none

  -- Whatever calls a database that starts without orders and refunds has served, the number of
  -- refunds of an order is 1 where the order is refunded, and 0 for every other order and where
  -- there is none.
  pub reachable-RefundsMatch :
      {s t : Store T}
      → IsEmpty s
      → Reach T s t
      → (id : String) → refunds_of id t ≡ owed (find_order_by_id T id t)
  reachable-RefundsMatch {s} empty here id =
      T.refunds.aggregate_none (of_order id) s.refunds
        (λ i r found. absurd (ground (arith, empty.no_refunds i, found)))
      ∙ rw (empty.no_orders id) refl
  reachable-RefundsMatch empty (next r step) id =
      Step-RefundsMatch step (reachable-RefundsMatch empty r) id

  -- An order that is paid has no refund.
  pub paid-unmade :
      (s : Store T) (id : String) (o : Order)
      → RefundsMatch s
      → find_order_by_id T id s ≡ some o
      → is_paid o.status ≡ true
      → find_refund_by_order_id T id s ≡ none
  paid-unmade s id o m found was_paid = elim (Option-cases (find_refund_by_order_id T id s)) [
    | inl e ↦ e
    | inr (r, made) ↦
        let (of_it, there) =
          T.refunds.find_first_sound (λ r. r.order_id == id) (λ r. r.created_at) s.refunds r made in
        let least =
          T.refunds.weight-le-aggregate (of_order id) r.id s.refunds (of_order_nonneg id) in
        let one : weight_of (of_order id) (T.refunds.find_unique r.id s.refunds) ≡ pos 1 =
          rw (there, of_it) refl in
        let none_owed : refunds_of id s ≡ pos 0 =
          m id ∙ ap owed found ∙ rw (paid_not_refunded o.status was_paid) refl in
        absurd (not_one_le_zero (subst₂ (λ a b. a ≤ℤ b) one none_owed least))
  ]
