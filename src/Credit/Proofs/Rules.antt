-- ===== src/Credit/Proofs/Rules.antt =====
-- Which pricing rules can be charged by.
use kokoro_platform.Base.{
  ℕ, String, ◌≡◌, ◌≢◌, sym, ap, ◌∙◌, inl, inr, Option, none, some, is_some, arith, Bool-cases,
  Option-cases,
}
use kokoro_platform.Base.Effect.{ok}
use kokoro_platform.Credit.Types.{PricingRule, DeleteInput}
use kokoro_platform.Credit.Store.{Tables, Store}
use kokoro_platform.Credit.Repository.Pricing.{applies, find_pricing_rule}
use kokoro_platform.Credit.Repository.Rules.{find_rule, deleted_rule, delete_pricing_rule}

module _ (T : Tables) where
  -- The rule that is found applies and is not deleted.
  found_rule :
      (feature : String) (label : Option String) (now : ℕ) (unit : Option String) (s : Store T)
      (r : PricingRule)
      → find_pricing_rule T feature label now unit s ≡ some r
      → (find_rule T r.id s ≡ some r) × (r.deleted_at ≡ none)
  found_rule feature label now unit s r found =
      let (meets, there) =
        T.rules.find_first_sound (applies feature label now unit) (λ r. r.effective_from) s.rules r
          found in
      (there, ground arith)

  -- After a rule has been deleted, no lookup of a price, for whatever feature, label, time and
  -- unit, finds it.
  pub find_pricing_rule-delete_pricing_rule :
      (at : ℕ) (input : DeleteInput) (s s' : Store T) (gone : PricingRule) (feature : String)
      (label : Option String) (now : ℕ) (unit : Option String) (r : PricingRule)
      → delete_pricing_rule T at input s ≡ (ok gone, s')
      → find_pricing_rule T feature label now unit s' ≡ some r
      → r.id ≢ input.id
  unfolding delete_pricing_rule
  find_pricing_rule-delete_pricing_rule at input s s' gone feature label now unit r done found
        same =
      let (there, live) = found_rule feature label now unit s' r found in
      let here = ap (λ k. find_rule T k s') (sym same) ∙ there in
      elim (Option-cases (find_rule T input.id s)) [
        | inl absent ↦ ground arith
        | inr (existing, old) ↦
            let id_same = T.rules.find_unique-id input.id s.rules existing old in
            elim (Bool-cases (is_some existing.deleted_at)) [
              | inl was ↦
                  let es : s ≡ s' = ground arith in
                  let e = sym old ∙ ap (find_rule T input.id) es ∙ here in ground (arith, e)
              | inr not_yet ↦
                  let es : s'.rules ≡ T.rules.put (deleted_rule at input existing) s.rules =
                    ground arith in
                  let self =
                    T.rules.find_unique-put_self (deleted_rule at input existing) s.rules in
                  let e : some (deleted_rule at input existing) ≡ some r =
                    sym self
                    ∙ ap (λ x. T.rules.find_unique existing.id x) (sym es)
                    ∙ ap (λ k. find_rule T k s') id_same
                    ∙ here in
                  ground (arith, e)
            ]
      ]
