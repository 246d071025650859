-- ===== src/Credit/Proofs/Usage.antt =====
-- The amounts that the service holds and charges for a usage.
use kokoro_platform.Base.{
  ℕ, refl, ap, ◌∙◌, true, false, ◌%◌, ◌≤◌, ◌<◌, ◌≡◌, ◌⊎◌, inl, inr, arith, Bool-cases,
}
use kokoro_platform.Base.Int.{
  ℤ, pos, pos_part, neg_part, ◌+ℤ◌, ◌≤ℤ◌, ◌<ℤ◌, ltb_ℤ, int_laws, parts_of_eq,
}
use kokoro_platform.Credit.Amount.{
  micros_per_credit, ceil_to_credit_micros, ceil_to_credit_micros_bounds,
}
use kokoro_platform.Credit.Service.{
  RunBillingConfig, apply_buffer_percent, hold_amount, settle_amount,
}

-- What rounding `b`, or one micro where `b` is not positive, up to whole credits gives.
abbrev pub IsHoldAmount : ℤ → ℤ → Type 0
IsHoldAmount b x =
    (x ≡ pos (pos_part x))
    × (pos_part x % micros_per_credit ≡ 0)
    × (micros_per_credit ≤ pos_part x)
    × (b ≤ℤ x)
    × ((x <ℤ b +ℤ pos micros_per_credit) ⊎ ((b ≤ℤ pos 0) × (x ≡ pos micros_per_credit)))

round_positive : (b : ℤ) → ltb_ℤ (pos 0) b ≡ true → IsHoldAmount b (ceil_to_credit_micros b)
round_positive b positive =
    let (e, whole, above, below, zero) = ceil_to_credit_micros_bounds b in
    let p = parts_of_eq e in
    let first : 0 < pos_part b = ground arith in
    let none_below : neg_part b ≡ 0 = ground arith in
    (e, whole, omega arith, omega int_laws, inl (omega int_laws))

round_one : (b : ℤ) → ltb_ℤ (pos 0) b ≡ false → IsHoldAmount b (ceil_to_credit_micros (pos 1))
round_one b small =
    let (e, whole, above, below, zero) = ceil_to_credit_micros_bounds (pos 1) in
    let p = parts_of_eq e in
    let low : pos_part b ≡ 0 = ground arith in
    let n : pos_part (ceil_to_credit_micros (pos 1)) ≡ micros_per_credit = omega arith in
    (e, whole, omega arith, omega int_laws, inr (omega int_laws, e ∙ ap pos n))

-- A hold for a usage is of whole credits, one at least; it covers the buffered estimate, and is less
-- than one credit more than it, or exactly one credit where the buffered estimate is not positive.
pub hold_amount_bounds :
    (billing : RunBillingConfig) (estimate : ℤ)
    → IsHoldAmount
        (apply_buffer_percent estimate billing.buffer_percent)
        (hold_amount billing estimate)
unfolding hold_amount
hold_amount_bounds billing estimate =
    let b = apply_buffer_percent estimate billing.buffer_percent in
    elim (Bool-cases (ltb_ℤ (pos 0) b)) [
      | inl positive ↦ rw positive (round_positive b positive)
      | inr small ↦ rw small (round_one b small)
    ]

-- The charge for a usage is neither negative nor more than was held; where the hold is of whole
-- credits the charge is; it covers the usage unless it is all that was held; and it is nothing only
-- where the usage cost nothing or nothing was held.
pub settle_amount_bounds :
    (actual : ℤ) (held : ℕ)
    → let n = pos_part (settle_amount actual (pos held)) in
      (settle_amount actual (pos held) ≡ pos n)
      × (n ≤ held)
      × (held % micros_per_credit ≡ 0 → n % micros_per_credit ≡ 0)
      × ((actual ≤ℤ pos n) ⊎ (n ≡ held))
      × (n ≡ 0 → (pos_part actual ≡ 0) ⊎ (held ≡ 0))
unfolding settle_amount
settle_amount_bounds actual held =
    let (e, whole, above, below, zero) = ceil_to_credit_micros_bounds actual in
    let p = parts_of_eq e in
    elim (Bool-cases (ltb_ℤ (ceil_to_credit_micros actual) (pos held))) [
      | inl less ↦ rw less (e, ground arith, λ h. whole, inl (omega int_laws), λ z. inl (zero z))
      | inr more ↦ rw more (refl, omega arith, λ h. h, inr refl, λ z. inr z)
    ]
