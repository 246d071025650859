-- ===== src/Payment/Proofs/Confirmed.antt =====
-- What callers of confirmOrder can rely on.
use mathlib.Core.Path.{subst₂}
use kokoro_platform.Base.{
  ℕ, String, ◌≡◌, refl, sym, ap, ◌∙◌, ◌⊎◌, inl, inr, true, false, some, arith,
}
use kokoro_platform.Base.Effect.{ok, err}
use kokoro_platform.Payment.Types.{
  Order, OrderStatus, Plan, paid, pending, confirming, canceled, refunded, PaymentError,
}
use kokoro_platform.Payment.Store.{Tables}
use kokoro_platform.Payment.Credits.{Credits}
use kokoro_platform.Payment.Repository.Orders.{is_paid, find_order_by_id}
use kokoro_platform.Payment.Service.{World, confirm_order}
use kokoro_platform.Payment.Proofs.Confirm.{Confirmed, Settled, Suspended, confirm_order_cases}

is_paid_status : (a : OrderStatus) → is_paid a ≡ true → a ≡ paid
is_paid_status paid h = refl
is_paid_status pending h = absurd (ground arith)
is_paid_status confirming h = absurd (ground arith)
is_paid_status canceled h = absurd (ground arith)
is_paid_status refunded h = absurd (ground arith)

module _ (T : Tables) (K : Credits) where
  pub confirm_order_returns :
      (now : ℕ) (id request_id : String) (o order : Order) (w w' : World T K)
      → confirm_order T K now id request_id w ≡ (ok o, w')
      → find_order_by_id T id w.db ≡ some order
      → is_paid order.status ≡ false
      → Confirmed T K id o w w'
  confirm_order_returns now id request_id o order w w' done found not_paid =
      elim (confirm_order_cases T K now id request_id w) [
        | inr (e, failed, _) ↦ absurd (ground (arith, sym failed ∙ ap (λ x. x.0) done))
        | inl (o', ran, inl (_, stored, was_paid)) ↦
            absurd (ground (arith, sym found ∙ stored, was_paid))
        | inl (o', ran, inr c) ↦
            let same : o' ≡ o = ground (arith, sym ran ∙ ap (λ x. x.0) done) in
            subst₂ (λ x y. Confirmed T K id x w y) same (ap (λ x. x.1) done) c
      ]

  -- A confirmation of an order that was not paid before returns or throws. Where it returns, it found
  -- the order pending or confirming and its plan there and not deleted; the order is stored as paid
  -- now; and either the plan has no credit and the credit service was not called, or the one call
  -- of it was to grant the plan's credit to the team and the site of the order under the order's
  -- key, and returned. Where it throws, the order is there and still not paid.
  pub confirm_order_settles :
      (now : ℕ) (id request_id : String) (order : Order) (w : World T K)
      → find_order_by_id T id w.db ≡ some order
      → is_paid order.status ≡ false
      → let (r, w') = confirm_order T K now id request_id w in
        ((o : Order) × (r ≡ ok o) × Confirmed T K id o w w')
        ⊎ ((e : PaymentError) × (r ≡ err e)
            × ((o : Order) × (find_order_by_id T id w'.db ≡ some o) × (is_paid o.status ≡ false)))
  confirm_order_settles now id request_id order w found not_paid =
      elim (confirm_order_cases T K now id request_id w) [
        | inl (o, ran, inl (_, stored, was_paid)) ↦
            absurd (ground (arith, sym found ∙ stored, was_paid))
        | inl (o, ran, inr c) ↦ inl (o, ran, c)
        | inr (e, failed, inl same) ↦ inr (
          e,
          failed,
          (order, ap (λ (x : World T K). find_order_by_id T id x.db) same ∙ found, not_paid),
        )
        | inr (e, failed, inr (plan, s)) ↦
            inr (e, failed, (s.order, s.stored, rw s.is_confirming refl))
      ]

  -- A confirmation that throws has changed nothing, or the order is confirming and the call of the
  -- credit service under the order's key threw this very error.
  pub confirm_order_fails :
      (now : ℕ) (id request_id : String) (e : PaymentError) (w w' : World T K)
      → confirm_order T K now id request_id w ≡ (err e, w')
      → (w' ≡ w) ⊎ ((plan : Plan) × Suspended T K id plan e w w')
  confirm_order_fails now id request_id e w w' done =
      elim (confirm_order_cases T K now id request_id w) [
        | inl (o, ran, _) ↦ absurd (ground (arith, sym ran ∙ ap (λ x. x.0) done))
        | inr (e', failed, inl same) ↦ inl (ap (λ x. x.1) (sym done) ∙ same)
        | inr (e', failed, inr (plan, s)) ↦
            let same : e' ≡ e = ground (arith, sym failed ∙ ap (λ x. x.0) done) in
            inr (plan, subst₂ (λ x y. Suspended T K id plan x w y) same (ap (λ x. x.1) done) s)
      ]

  pub confirm_order_of_paid :
      (now : ℕ) (id request_id : String) (o : Order) (w : World T K)
      → find_order_by_id T id w.db ≡ some o
      → is_paid o.status ≡ true
      → confirm_order T K now id request_id w ≡ (ok o, w)
  unfolding confirm_order
  confirm_order_of_paid now id request_id o w found h = ground arith

  -- The order that a confirmation returns is the one that is stored under the id, and is paid.
  pub confirm_order-IsPaid :
      (now : ℕ) (id request_id : String) (o : Order) (w w' : World T K)
      → confirm_order T K now id request_id w ≡ (ok o, w')
      → (find_order_by_id T id w'.db ≡ some o) × (o.status ≡ paid)
  confirm_order-IsPaid now id request_id o w w' done =
      elim (confirm_order_cases T K now id request_id w) [
        | inr (e, failed, _) ↦ absurd (ground (arith, sym failed ∙ ap (λ x. x.0) done))
        | inl (o', ran, inl (unchanged, stored, was_paid)) ↦
            let same : o' ≡ o = ground (arith, sym ran ∙ ap (λ x. x.0) done) in
            let same_world : w' ≡ w = ap (λ x. x.1) (sym done) ∙ unchanged in
            (
              ap (λ (x : World T K). find_order_by_id T id x.db) same_world ∙ stored ∙ ap some same,
              ap (λ x. x.status) (sym same) ∙ is_paid_status o'.status was_paid,
            )
        | inl (o', ran, inr c) ↦
            let same : o' ≡ o = ground (arith, sym ran ∙ ap (λ x. x.0) done) in
            let now_paid =
              subst₂ (λ x y. Settled T K id c.order c.plan x w y) same (ap (λ x. x.1) done)
                c.settled in
            (now_paid.stored, now_paid.is_now_paid)
      ]

  -- A confirmation is idempotent: after one has returned, the next one of the same order, at any
  -- time and for any request, returns the same order and changes neither the database nor the
  -- credit service.
  pub confirm_order-confirm_order :
      (now now' : ℕ) (id request_id request_id' : String) (o : Order) (w w' : World T K)
      → confirm_order T K now id request_id w ≡ (ok o, w')
      → confirm_order T K now' id request_id' w' ≡ (ok o, w')
  confirm_order-confirm_order now now' id request_id request_id' o w w' done =
      let (stored, e) = confirm_order-IsPaid now id request_id o w w' done in
      confirm_order_of_paid now' id request_id' o w' stored (rw e refl)
