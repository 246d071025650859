-- ===== src/Base/Decimal.antt =====
-- Decimal amounts as they cross the services' boundaries: `BigInt(text)` behind the test
-- /^\d+$/ (kokoro-platform-kit/src/domain/amount.ts, kokoro-credit/src/domain/amount.ts,
-- kokoro-payment/src/domain/amount.ts), and `toString()` on a `bigint`.
use Prim.Native.Char.{Char, code}
use Prim.Native.String.{[], ◌∷◌}
use Prim.Native.String
use kokoro_platform.Base.Logic.{
  ℕ, zero, suc, ◌+◌, ◌-◌, ◌*◌, ◌/◌, ◌%◌, ◌≤◌, ◌<◌, ◌≡◌, refl, Bool, false, ◌&&◌, Bool-cases, inl,
  inr, ◌∙◌, Option, none, some, arith, leb, eqb, if◌then◌else◌,
}

-- `\d` is 0 to 9.
abbrev is_digit : Char → Bool
is_digit c = leb 48 (code c) && leb (code c) 57

-- The test and the conversion in one pass: none where a character is no digit.
scan : String.String → ℕ → Option ℕ
scan [] n = some n
scan (c ∷ s) n = if is_digit c then scan s (n * 10 + (code c - 48)) else none

-- The `+` of the pattern wants one digit at least.
unfoldable pub parse_digits : String.String → Option ℕ
unfolding scan
parse_digits [] = none
parse_digits (c ∷ s) = scan (c ∷ s) 0

digit_char : ℕ → Char
digit_char zero = "0"
digit_char (suc zero) = "1"
digit_char (suc (suc zero)) = "2"
digit_char (suc (suc (suc zero))) = "3"
digit_char (suc (suc (suc (suc zero)))) = "4"
digit_char (suc (suc (suc (suc (suc zero))))) = "5"
digit_char (suc (suc (suc (suc (suc (suc zero)))))) = "6"
digit_char (suc (suc (suc (suc (suc (suc (suc zero))))))) = "7"
digit_char (suc (suc (suc (suc (suc (suc (suc (suc zero)))))))) = "8"
digit_char _ = "9"

-- The digits of `n` in front of `out`; a number below the fuel is printed whole.
emit : ℕ → ℕ → String.String → String.String
unfolding digit_char
emit zero n out = out
emit (suc fuel) n out =
    let longer = emit fuel (n / 10) (digit_char (n % 10) ∷ out) in if eqb n 0 then out else longer

unfoldable pub to_string : ℕ → String.String
unfolding emit
to_string zero = "0"
to_string (suc n) = emit (suc n) (suc n) []

code-digit_char : (d : ℕ) → d < 10 → code (digit_char d) ≡ 48 + d
unfolding digit_char
code-digit_char zero _ = refl
code-digit_char (suc zero) _ = refl
code-digit_char (suc (suc zero)) _ = refl
code-digit_char (suc (suc (suc zero))) _ = refl
code-digit_char (suc (suc (suc (suc zero)))) _ = refl
code-digit_char (suc (suc (suc (suc (suc zero))))) _ = refl
code-digit_char (suc (suc (suc (suc (suc (suc zero)))))) _ = refl
code-digit_char (suc (suc (suc (suc (suc (suc (suc zero))))))) _ = refl
code-digit_char (suc (suc (suc (suc (suc (suc (suc (suc zero)))))))) _ = refl
code-digit_char (suc (suc (suc (suc (suc (suc (suc (suc (suc zero))))))))) _ = refl
code-digit_char (suc (suc (suc (suc (suc (suc (suc (suc (suc (suc d)))))))))) h =
    absurd (omega arith)

scan-digit_char :
    (d n : ℕ) (out : String.String) → d < 10 → scan (digit_char d ∷ out) n ≡ scan out (n * 10 + d)
unfolding scan
scan-digit_char d n out h = ground (arith, code-digit_char d h)

scan-emit : (fuel n : ℕ) (out : String.String) → n ≤ fuel → scan (emit fuel n out) 0 ≡ scan out n
unfolding emit
scan-emit zero n out h = ground arith
scan-emit (suc fuel) n out h = ground (
  arith,
  scan-emit fuel (n / 10) (digit_char (n % 10) ∷ out),
  scan-digit_char (n % 10) (n / 10) out,
)

-- Digits in front of a character are no empty text.
parse_digits-emit :
    (fuel n : ℕ) (c : Char) (s : String.String)
    → parse_digits (emit fuel n (c ∷ s)) ≡ scan (emit fuel n (c ∷ s)) 0
unfolding emit parse_digits
parse_digits-emit zero n c s = refl
parse_digits-emit (suc fuel) n c s = elim (Bool-cases (eqb n 0)) [
  | inl done ↦ rw done
  | inr more ↦ rw more (parse_digits-emit fuel (n / 10) (digit_char (n % 10)) (c ∷ s))
]

parse_digits-emit_pos :
    (n : ℕ) → parse_digits (emit (suc n) (suc n) []) ≡ scan (emit (suc n) (suc n) []) 0
unfolding emit
parse_digits-emit_pos n =
    let positive : eqb (suc n) 0 ≡ false = ground arith in
    rw positive (parse_digits-emit n (suc n / 10) (digit_char (suc n % 10)) [])

-- Every amount is read back from its decimal text.
pub parse_digits-to_string : (n : ℕ) → parse_digits (to_string n) ≡ some n
unfolding to_string parse_digits
parse_digits-to_string zero = refl
parse_digits-to_string (suc n) =
    parse_digits-emit_pos n ∙ scan-emit (suc n) (suc n) [] (omega arith)
