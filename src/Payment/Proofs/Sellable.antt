-- ===== src/Payment/Proofs/Sellable.antt =====
-- Which plans are for sale.
use mathlib.Core.Path.{subst}
use kokoro_platform.Base.{
  String, ◌≡◌, refl, inl, inr, true, false, some, none, Option, is_some, arith, Bool-cases, ◌==◌,
  eq_iff, eq_refl,
}
use kokoro_platform.Base.Effect.{ok}
use kokoro_platform.Payment.Types.{Plan, PlanStatus}
use kokoro_platform.Payment.Service.{assert_plan_sellable, assert_plan_not_deleted}

-- A plan that is for sale.
pub sellable :
    (found : Option Plan) (site : String) (plan : Plan)
    → assert_plan_sellable found site ≡ ok plan
    → (found ≡ some plan)
      × (plan.site_id ≡ site)
      × (is_some plan.deleted_at ≡ false)
      × (plan.status ≡ PlanStatus.active)
unfolding assert_plan_sellable assert_plan_not_deleted
sellable none site plan sold = absurd (ground arith)
sellable (some p) site plan sold = elim (Bool-cases (p.site_id == site)) [
  | inr other ↦ absurd (ground arith)
  | inl here ↦ elim (Bool-cases (is_some p.deleted_at)) [
    | inl gone ↦ absurd (ground arith)
    | inr live ↦ status_of p.status refl here live
  ]
]
  where
    status_of :
        (a : PlanStatus)
        → p.status ≡ a
        → (p.site_id == site) ≡ true
        → is_some p.deleted_at ≡ false
        → (some p ≡ some plan)
          × (plan.site_id ≡ site)
          × (is_some plan.deleted_at ≡ false)
          × (plan.status ≡ PlanStatus.active)
    status_of PlanStatus.active e here live =
        let it : p ≡ plan = ground arith in
        subst
          (λ x.
            (some p ≡ some x)
            × (x.site_id ≡ site)
            × (is_some x.deleted_at ≡ false)
            × (x.status ≡ PlanStatus.active))
          it (refl, (eq_iff p.site_id site).0 here, live, e)
    status_of PlanStatus.disabled e here live = absurd (ground arith)

pub is_sellable :
    (plan : Plan) (site : String)
    → plan.site_id ≡ site
    → is_some plan.deleted_at ≡ false
    → plan.status ≡ PlanStatus.active
    → assert_plan_sellable (some plan) site ≡ ok plan
unfolding assert_plan_sellable assert_plan_not_deleted
is_sellable plan site here live on_sale =
    let same : (plan.site_id == site) ≡ true = rw here (eq_refl site) in ground arith
