-- ===== src/Credit/Amount.antt =====
-- Units and the parsing of amounts: kokoro-credit/src/domain/amount.ts and
-- kokoro-platform-kit/src/domain/amount.ts.
use Prim.Native.String
use kokoro_platform.Base.{
  ℕ, ◌+◌, ◌-◌, ◌%◌, ◌≤◌, ◌<◌, ◌≡◌, String, none, some, arith, eqb, if◌then◌else◌,
}
use kokoro_platform.Base.Int.{ℤ, pos, negsuc, pos_part}
use kokoro_platform.Base.Effect.{Result, ok, err}
use kokoro_platform.Base.Decimal.{parse_digits, to_string}
use kokoro_platform.Credit.Types.{Error, invalid_amount}

unfoldable pub parse_non_negative_bigint_string : String → Result Error ℤ
parse_non_negative_bigint_string value = elim (parse_digits value) [
  | none ↦ err invalid_amount
  | some n ↦ ok (pos n)
]

unfoldable pub parse_positive_bigint_string : String → Result Error ℤ
parse_positive_bigint_string value = elim (parse_digits value) [
  | none ↦ err invalid_amount
  | some n ↦ if eqb n 0 then err invalid_amount else ok (pos n)
]

-- `toString()` on a `bigint`
unfoldable pub bigint_to_string : ℤ → String
bigint_to_string (pos n) = to_string n
bigint_to_string (negsuc n) = String.◌++◌ "-" (to_string (n + 1))

-- 1 credit = 10_000 micros
abbrev pub micros_per_credit : ℕ
micros_per_credit = 10_000

ceil_pos : ℕ → ℕ
ceil_pos micros =
    let rem = micros % micros_per_credit in
    if eqb rem 0 then micros else micros + (micros_per_credit - rem)

unfoldable pub ceil_to_credit_micros : ℤ → ℤ
unfolding ceil_pos
ceil_to_credit_micros (pos micros) = pos (ceil_pos micros)
ceil_to_credit_micros (negsuc _) = pos 0

-- Rounding up reaches the next whole credit and no further, from below zero it gives zero, and only
-- an amount that is not positive becomes zero.
pub ceil_to_credit_micros_bounds :
    (micros : ℤ)
    → let n = pos_part (ceil_to_credit_micros micros) in
      (ceil_to_credit_micros micros ≡ pos n)
      × (n % micros_per_credit ≡ 0)
      × (pos_part micros ≤ n)
      × (n < pos_part micros + micros_per_credit)
      × (n ≡ 0 → pos_part micros ≡ 0)
unfolding ceil_to_credit_micros
ceil_to_credit_micros_bounds (pos micros) = ground arith
ceil_to_credit_micros_bounds (negsuc _) = ground arith

-- A positive amount is accepted, and nothing else is.
pub parse_positive_sound :
    (value : String) (a : ℤ)
    → parse_positive_bigint_string value ≡ ok a
    → (n : ℕ) × (a ≡ pos n) × (0 < n) × (parse_digits value ≡ some n)
unfolding parse_positive_bigint_string
parse_positive_sound value a h = (pos_part a, ground arith, ground arith, ground arith)

pub parse_non_negative_sound :
    (value : String) (a : ℤ) → parse_non_negative_bigint_string value ≡ ok a → (n : ℕ) × (a ≡ pos n)
unfolding parse_non_negative_bigint_string
parse_non_negative_sound value a h = (pos_part a, ground arith)
