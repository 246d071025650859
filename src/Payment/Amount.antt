-- ===== src/Payment/Amount.antt =====
-- The amounts of kokoro-payment: kokoro-payment/src/domain/amount.ts, and parsePositiveBigIntString
-- of kokoro-platform-kit/src/domain/amount.ts with the error that it is here.
use kokoro_platform.Base.{ℕ, ◌<◌, ◌≡◌, String, none, some, arith, eqb, if◌then◌else◌}
use kokoro_platform.Base.Effect.{Result, ok, err}
use kokoro_platform.Base.Decimal.{parse_digits, to_string, parse_digits-to_string}
use kokoro_platform.Payment.Types.{PaymentError, invalid_amount}

unfoldable pub parse_non_negative_bigint_string : String → Result PaymentError ℕ
parse_non_negative_bigint_string value = elim (parse_digits value) [
  | none ↦ err invalid_amount
  | some n ↦ ok n
]

unfoldable pub parse_positive_bigint_string : String → Result PaymentError ℕ
parse_positive_bigint_string value = elim (parse_digits value) [
  | none ↦ err invalid_amount
  | some n ↦ if eqb n 0 then err invalid_amount else ok n
]

pub parse_positive-to_string : (n : ℕ) → 0 < n → parse_positive_bigint_string (to_string n) ≡ ok n
unfolding parse_positive_bigint_string
parse_positive-to_string n h = ground (arith, parse_digits-to_string n)

-- What is accepted is positive.
pub parse_positive_sound :
    (value : String) (n : ℕ) → parse_positive_bigint_string value ≡ ok n → 0 < n
unfolding parse_positive_bigint_string
parse_positive_sound value n h = ground arith
