-- ===== src/Base/Iso.antt =====
-- `toISOString()` of a JavaScript `Date`, for the years 1970 to 9999.
use Prim.Native.String
use kokoro_platform.Base.Logic.{ℕ, ◌+◌, ◌/◌, ◌%◌, String, ◌≡◌, refl, ltb, if◌then◌else◌}
use kokoro_platform.Base.Calendar.{ms_per_day, year_of, month_of}
use kokoro_platform.Base.Decimal.{to_string}

-- With leading zeros, for numbers below 100 and below 1000.
abbrev two_digits : ℕ → String
two_digits n = if ltb n 10 then String.◌++◌ "0" (to_string n) else to_string n

abbrev three_digits : ℕ → String
three_digits n = if ltb n 100 then String.◌++◌ "0" (two_digits n) else to_string n

-- The texts one behind the other, with a separator between them.
abbrev joined : String → String → String → String
joined sep s t = String.◌++◌ s (String.◌++◌ sep t)

unfoldable pub to_iso_string : ℕ → String
unfolding year_of month_of
to_iso_string t =
    let (year, day) = year_of (t / ms_per_day) in
    let (month, d) = month_of year day in
    let seconds = t / 1000 % 86_400 in
    joined "T"
      (joined "-" (to_string (1970 + year))
        (joined "-" (two_digits (month + 1)) (two_digits (d + 1))))
      (joined ":" (two_digits (seconds / 3600)) (
        joined ":" (two_digits (seconds / 60 % 60))
          (joined "." (two_digits (seconds % 60)) (String.◌++◌ (three_digits (t % 1000)) "Z"))))

leap_day : to_iso_string 1_709_212_455_007 ≡ "2024-02-29T13:14:15.007Z"
unfolding to_iso_string year_of month_of to_string
leap_day = refl
