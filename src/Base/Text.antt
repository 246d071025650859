-- ===== src/Base/Text.antt =====
-- The order of texts: `compare` is antisymmetric and transitive.
use Prim.Native.Nat.compare as compare_ℕ
use Prim.Native.Nat.{Ordering, zero, suc, compare as compare_ℕ}
use Prim.Native.Char.{code}
use Prim.Native.String.compare
use Prim.Native.String.{String, [], ◌∷◌, compare, then}
use mathlib.Core.Path.{◌≡◌, refl, sym, ◌∙◌, ap, subst, subst⁻¹}
use text.Mathlib.TextEquality.{codes_equal}
pub use text.Mathlib.TextEquality.{path_by_compare}
use kokoro_platform.Base.Logic.{ℕ, ◌⊎◌, inl, inr}

abbrev IsLess : Ordering → Type 0
IsLess Ordering.lt = Unit
IsLess _ = ⊥

abbrev pub flip : Ordering → Ordering
flip Ordering.lt = Ordering.gt
flip Ordering.eq = Ordering.eq
flip Ordering.gt = Ordering.lt

compare_ℕ-flip : (m n : ℕ) → compare_ℕ n m ≡ flip (compare_ℕ m n)
compare_ℕ-flip zero zero = compare_ℕ.zero-zero ∙ ap flip (sym compare_ℕ.zero-zero)
compare_ℕ-flip zero (suc n) = compare_ℕ.suc-zero n ∙ ap flip (sym (compare_ℕ.zero-suc n))
compare_ℕ-flip (suc m) zero = compare_ℕ.zero-suc m ∙ ap flip (sym (compare_ℕ.suc-zero m))
compare_ℕ-flip (suc m) (suc n) =
    compare_ℕ.suc-suc n m ∙ compare_ℕ-flip m n ∙ ap flip (sym (compare_ℕ.suc-suc m n))

then-flip : (o r : Ordering) → flip (then o r) ≡ then (flip o) (flip r)
then-flip Ordering.lt r = refl
then-flip Ordering.eq r = refl
then-flip Ordering.gt r = refl

pub compare-flip : (s t : String) → compare t s ≡ flip (compare s t)
compare-flip [] [] = compare.nil-nil ∙ ap flip (sym compare.nil-nil)
compare-flip [] (d ∷ t) = compare.cons-nil d t ∙ ap flip (sym (compare.nil-cons d t))
compare-flip (c ∷ s) [] = compare.nil-cons c s ∙ ap flip (sym (compare.cons-nil c s))
compare-flip (c ∷ s) (d ∷ t) =
    compare.cons-cons d c t s
    ∙ ap (λ o. then o (compare t s)) (compare_ℕ-flip (code c) (code d))
    ∙ ap (then (flip (compare_ℕ (code c) (code d)))) (compare-flip s t)
    ∙ sym (then-flip (compare_ℕ (code c) (code d)) (compare s t))
    ∙ ap flip (sym (compare.cons-cons c d s t))

not-IsLess : {o : Ordering} → o ≡ Ordering.lt → IsLess o
not-IsLess e = subst⁻¹ IsLess e tt

compare_ℕ_trans :
    (m n k : ℕ)
    → compare_ℕ m n ≡ Ordering.lt
    → compare_ℕ n k ≡ Ordering.lt
    → compare_ℕ m k ≡ Ordering.lt
compare_ℕ_trans zero zero k a b = absurd (subst IsLess compare_ℕ.zero-zero (not-IsLess a))
compare_ℕ_trans zero (suc n) zero a b = absurd (subst IsLess (compare_ℕ.suc-zero n) (not-IsLess b))
compare_ℕ_trans zero (suc n) (suc k) a b = compare_ℕ.zero-suc k
compare_ℕ_trans (suc m) zero k a b = absurd (subst IsLess (compare_ℕ.suc-zero m) (not-IsLess a))
compare_ℕ_trans (suc m) (suc n) zero a b =
    absurd (subst IsLess (compare_ℕ.suc-zero n) (not-IsLess b))
compare_ℕ_trans (suc m) (suc n) (suc k) a b =
    compare_ℕ.suc-suc m k
    ∙ compare_ℕ_trans m n k (sym (compare_ℕ.suc-suc m n) ∙ a) (sym (compare_ℕ.suc-suc n k) ∙ b)

then_lt :
    (o r : Ordering)
    → then o r ≡ Ordering.lt
    → (o ≡ Ordering.lt) ⊎ ((o ≡ Ordering.eq) × (r ≡ Ordering.lt))
then_lt Ordering.lt r h = inl refl
then_lt Ordering.eq r h = inr (refl, h)
then_lt Ordering.gt r h = absurd (not-IsLess h)

pub compare_trans :
    (s t u : String)
    → compare s t ≡ Ordering.lt
    → compare t u ≡ Ordering.lt
    → compare s u ≡ Ordering.lt
compare_trans [] [] u a b = absurd (subst IsLess compare.nil-nil (not-IsLess a))
compare_trans [] (d ∷ t) [] a b = absurd (subst IsLess (compare.cons-nil d t) (not-IsLess b))
compare_trans [] (d ∷ t) (e ∷ u) a b = compare.nil-cons e u
compare_trans (c ∷ s) [] u a b = absurd (subst IsLess (compare.cons-nil c s) (not-IsLess a))
compare_trans (c ∷ s) (d ∷ t) [] a b = absurd (subst IsLess (compare.cons-nil d t) (not-IsLess b))
compare_trans (c ∷ s) (d ∷ t) (e ∷ u) a b =
    compare.cons-cons c e s u
    ∙ elim (then_lt (compare_ℕ (code c) (code d)) (compare s t)
        (sym (compare.cons-cons c d s t) ∙ a)) [
          | inl lower ↦
              elim (then_lt (compare_ℕ (code d) (code e)) (compare t u)
                (sym (compare.cons-cons d e t u) ∙ b)) [
                  | inl lower' ↦
                      ap (λ o. then o (compare s u))
                        (compare_ℕ_trans (code c) (code d) (code e) lower lower')
                  | inr (same, _) ↦
                      let e' = codes_equal d e same in
                      ap (λ o. then o (compare s u))
                        (ap (λ x. compare_ℕ (code c) (code x)) (sym e') ∙ lower)
                ]
          | inr (same, less) ↦
              let c' = codes_equal c d same in
              elim (then_lt (compare_ℕ (code d) (code e)) (compare t u)
                (sym (compare.cons-cons d e t u) ∙ b)) [
                  | inl lower' ↦
                      ap (λ o. then o (compare s u))
                        (ap (λ x. compare_ℕ (code x) (code e)) c' ∙ lower')
                  | inr (same', less') ↦
                      ap (λ o. then o (compare s u))
                        (ap (λ x. compare_ℕ (code x) (code e)) c' ∙ same')
                      ∙ compare_trans s t u less less'
                ]
        ]
