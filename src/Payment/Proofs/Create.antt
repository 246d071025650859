-- ===== src/Payment/Proofs/Create.antt =====
-- The creation of an order: at the price of its plan, and once for each key.
use mathlib.Core.Path.{subst}
use kokoro_platform.Base.{
  ℕ, String, ◌≡◌, refl, sym, ap, ◌∙◌, inl, inr, true, false, eqb, some, is_some, arith, Bool-cases,
  Option-cases, ◌==◌, eq_iff, eq_refl,
}
use kokoro_platform.Base.Effect.{ok, Result-cases}
use kokoro_platform.Base.Decimal.{to_string, parse_digits, parse_digits-to_string}
use kokoro_platform.Base.Table.{find_first-put}
use kokoro_platform.Payment.Types.{Order, Plan, PlanStatus, CreateOrderInput}
use kokoro_platform.Payment.Amount.{parse_positive_bigint_string}
use kokoro_platform.Payment.Store.{Tables, Store, Context}
use kokoro_platform.Payment.Credits.{Credits}
use kokoro_platform.Payment.Repository.Plans.{find_plan_by_id}
use kokoro_platform.Payment.Repository.Orders as Orders
use kokoro_platform.Payment.Repository.Orders.{
  same_target, assert_same_order_idempotency_target, new_order, find_order_by_id, order_by_key,
  put_order, insert_order, create_order_or_read_existing,
}
use kokoro_platform.Payment.Service.{World, create_order, assert_plan_sellable}
use kokoro_platform.Payment.Proofs.Sellable.{sellable, is_sellable}
use kokoro_platform.Payment.Proofs.Writes.{create_order_cases}

-- A text of which an amount was read is the amount's own only if they are the same number.
amount_of_text :
    (text : String) (a n : ℕ)
    → parse_positive_bigint_string text ≡ ok a
    → (to_string n == text) ≡ true
    → n ≡ a
unfolding parse_positive_bigint_string
amount_of_text text a n parsed same =
    let e = (eq_iff (to_string n) text).0 same in
    let read : parse_digits text ≡ some n = ap parse_digits (sym e) ∙ parse_digits-to_string n in
    ground arith

module _ (T : Tables) where
  -- The order is the one of the key, and what was asked for.
  pub record Made (input : CreateOrderInput) (amount : ℕ) (o : Order) (s : Store T) : Type 0 where
    pub stored : find_order_by_id T o.id s ≡ some o
    pub keyed : order_by_key T input.idempotency_key s ≡ some o
    pub team : o.team_id ≡ input.team_id
    pub plan : o.plan_id ≡ input.plan_id
    pub price : o.amount_minor ≡ amount
    pub currency : o.currency ≡ input.currency

  existing-Made :
      (ctx : Context) (input : CreateOrderInput) (amount : ℕ) (s : Store T) (e o : Order)
      → parse_positive_bigint_string input.amount_minor ≡ ok amount
      → order_by_key T input.idempotency_key s ≡ some e
      → assert_same_order_idempotency_target e input ≡ ok o
      → Made input amount o s
  unfolding assert_same_order_idempotency_target
  existing-Made ctx input amount s e o parsed found same =
      let (_, stored) =
        T.orders.find_first_sound (λ x. x.idempotency_key == input.idempotency_key) (λ _. 0)
          s.orders e found in
      let it : e ≡ o = ground arith in
      subst (λ x. Made input amount x s) it
        (record {
          stored = stored;
          keyed = found;
          team = (eq_iff e.team_id input.team_id).0 (ground arith);
          plan = (eq_iff e.plan_id input.plan_id).0 (ground arith);
          price = amount_of_text input.amount_minor amount e.amount_minor parsed (ground arith);
          currency = (eq_iff e.currency input.currency).0 (ground arith);
        })

  create_order-Made :
      (ctx : Context) (input : CreateOrderInput) (amount : ℕ) (s : Store T) (o : Order)
      → parse_positive_bigint_string input.amount_minor ≡ ok amount
      → (Orders.create_order T ctx input s).0 ≡ ok o
      → Made input amount o (Orders.create_order T ctx input s).1
  unfolding Orders.create_order create_order_or_read_existing insert_order
  create_order-Made ctx input amount s o parsed done =
      let after = (Orders.create_order T ctx input s).1 in
      elim (Option-cases (order_by_key T input.idempotency_key s)) [
        | inr (e, found) ↦
            let unchanged : s ≡ after = ground arith in
            subst (Made input amount o) unchanged
              (existing-Made ctx input amount s e o parsed found (ground arith))
        | inl unused ↦ elim (Option-cases (find_order_by_id T ctx.new_id s)) [
          | inr (x, taken) ↦ absurd (ground arith)
          | inl fresh ↦
              let new = new_order ctx input amount in
              let it : new ≡ o = ground arith in
              let written : put_order T new s ≡ after = ground arith in
              subst (λ x. Made input amount x after) it
                (subst (Made input amount new) written (record {
                  stored = T.orders.find_unique-put_self new s.orders;
                  keyed =
                      find_first-put T.orders (λ x. x.idempotency_key == input.idempotency_key)
                        (λ _. 0) new s.orders unused (eq_refl input.idempotency_key);
                  team = refl;
                  plan = refl;
                  price = refl;
                  currency = refl;
                }))
        ]
      ]

  create_order-plans :
      (ctx : Context) (input : CreateOrderInput) (s : Store T)
      → (Orders.create_order T ctx input s).1.plans ≡ s.plans
  create_order-plans ctx input s = elim (create_order_cases T ctx input s) [
    | inl e ↦ ap (λ (x : Store T). x.plans) e
    | inr c ↦ ap (λ (x : Store T). x.plans) c.written
  ]

  -- The same request finds the order.
  create_order-replay :
      (ctx : Context) (input : CreateOrderInput) (amount : ℕ) (o : Order) (s : Store T)
      → input.amount_minor ≡ to_string amount
      → Made input amount o s
      → Orders.create_order T ctx input s ≡ (ok o, s)
  unfolding Orders.create_order assert_same_order_idempotency_target
  create_order-replay ctx input amount o s canonical m =
      let found = m.keyed in
      let team : (o.team_id == input.team_id) ≡ true = rw m.team (eq_refl input.team_id) in
      let plan : (o.plan_id == input.plan_id) ≡ true = rw m.plan (eq_refl input.plan_id) in
      let price : (to_string o.amount_minor == input.amount_minor) ≡ true =
        rw (m.price, canonical) (eq_refl (to_string amount)) in
      let currency : (o.currency == input.currency) ≡ true =
        rw m.currency (eq_refl input.currency) in
      ground arith

module _ (T : Tables) (K : Credits) where
  -- The plan is for sale on the site, and the order has its price.
  pub record Anchored (input : CreateOrderInput) (o : Order) (w w' : World T K) : Type 0 where
    pub plan : Plan
    pub of_plan : find_plan_by_id T input.plan_id w.db ≡ some plan
    pub site : plan.site_id ≡ input.site_id
    pub live : is_some plan.deleted_at ≡ false
    pub on_sale : plan.status ≡ PlanStatus.active
    pub made : Made T input plan.amount_minor o w'.db
    pub currency : o.currency ≡ plan.currency
    pub asked : parse_positive_bigint_string input.amount_minor ≡ ok plan.amount_minor
    pub plans_kept : w'.db.plans ≡ w.db.plans

  -- An order that is created, or found under its key, is of a plan that is for sale on the site of
  -- the request, that is, neither deleted nor disabled, and has exactly the amount and the currency
  -- of the plan, whatever the request says; it is stored, under the key and the team of the request.
  pub create_order-Anchored :
      (ctx : Context) (input : CreateOrderInput) (o : Order) (w w' : World T K)
      → create_order T K ctx input w ≡ (ok o, w')
      → Anchored input o w w'
  unfolding create_order
  create_order-Anchored ctx input o w w' done =
      elim (Result-cases (parse_positive_bigint_string input.amount_minor)) [
        | inr (e, refused) ↦ absurd (ground arith)
        | inl (amount, parsed) ↦
            elim (Result-cases
              (assert_plan_sellable (find_plan_by_id T input.plan_id w.db) input.site_id)) [
                | inr (e, not_sold) ↦ absurd (ground arith)
                | inl (plan, sold) ↦
                    let (of_plan, site, live, on_sale) =
                      sellable (find_plan_by_id T input.plan_id w.db) input.site_id plan sold in
                    elim (Bool-cases (eqb amount plan.amount_minor)) [
                      | inr other_price ↦ absurd (ground arith)
                      | inl price ↦ elim (Bool-cases (input.currency == plan.currency)) [
                        | inr other ↦ absurd (ground arith)
                        | inl same_currency ↦
                            let run : (Orders.create_order T ctx input w.db).0 ≡ ok o =
                              ground arith in
                            let db_is : (Orders.create_order T ctx input w.db).1 ≡ w'.db =
                              ground arith in
                            let e : amount ≡ plan.amount_minor = ground arith in
                            let made : Made T input amount o w'.db =
                              subst (Made T input amount o) db_is
                                (create_order-Made T ctx input amount w.db o parsed run) in
                            record {
                              plan = plan;
                              of_plan = of_plan;
                              site = site;
                              live = live;
                              on_sale = on_sale;
                              made = subst (λ a. Made T input a o w'.db) e made;
                              currency =
                                  made.currency
                                  ∙ (eq_iff input.currency plan.currency).0 same_currency;
                              asked = parsed ∙ ap ok e;
                              plans_kept =
                                  ap (λ (x : Store T). x.plans) (sym db_is)
                                  ∙ create_order-plans T ctx input w.db;
                            }
                      ]
                    ]
              ]
      ]

  -- An order is created once for each key: after a request, whose amount is written without leading
  -- zeros, has returned an order, the same request, whatever the clock and the new ids, returns the
  -- same order and changes nothing.
  pub create_order-create_order :
      (ctx ctx' : Context) (input : CreateOrderInput) (n : ℕ) (o : Order) (w w' : World T K)
      → input.amount_minor ≡ to_string n
      → create_order T K ctx input w ≡ (ok o, w')
      → create_order T K ctx' input w' ≡ (ok o, w')
  unfolding create_order
  create_order-create_order ctx ctx' input n o w w' canonical done =
      let a = create_order-Anchored ctx input o w w' done in
      let same_number : n ≡ a.plan.amount_minor =
        amount_of_text input.amount_minor a.plan.amount_minor n a.asked
          (rw canonical (eq_refl (to_string n))) in
      let replay =
        create_order-replay T ctx' input a.plan.amount_minor o w'.db
          (canonical ∙ ap to_string same_number) a.made in
      let there : find_plan_by_id T input.plan_id w'.db ≡ some a.plan =
        ap (T.plans.find_unique input.plan_id) a.plans_kept ∙ a.of_plan in
      let sold : assert_plan_sellable (some a.plan) input.site_id ≡ ok a.plan =
        is_sellable a.plan input.site_id a.site a.live a.on_sale in
      let currency : (input.currency == a.plan.currency) ≡ true =
        rw (sym a.made.currency, a.currency) (eq_refl a.plan.currency) in
      ground (arith, a.asked)
