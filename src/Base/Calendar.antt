-- ===== src/Base/Calendar.antt =====
-- The UTC calendar of a JavaScript `Date`, for dates from 1970 on: `getUTCFullYear`, `getUTCMonth`,
-- `getUTCDate` and `Date.UTC`. A date is its milliseconds since 1970.
use kokoro_platform.Base.Logic.{
  ℕ, zero, suc, ◌+◌, ◌-◌, ◌*◌, ◌/◌, ◌%◌, ◌≤◌, ◌<◌, ◌≡◌, refl, Bool, not, ◌&&◌, ◌||◌, arith, ltb,
  eqb, if◌then◌else◌, inl, inr, ◌⊎◌, ap,
}

abbrev pub ms_per_day : ℕ
ms_per_day = 86_400_000

is_leap : ℕ → Bool
is_leap y = eqb (y % 4) 0 && not (eqb (y % 100) 0) || eqb (y % 400) 0

-- Years are counted from 1970, months and days of a year from 0.
year_length : ℕ → ℕ
unfolding is_leap
year_length k = if is_leap (1970 + k) then 366 else 365

month_length : ℕ → ℕ → ℕ
unfolding is_leap
month_length k m =
    if eqb m 1
    then if is_leap (1970 + k) then 29 else 28
    else if eqb m 3 || eqb m 5 || eqb m 8 || eqb m 10
    then 30
    else 31

-- A run of spans laid end to end: where each begins, and the span and the offset in it that an
-- offset from the beginning falls into.
module _ (length : ℕ → ℕ) where
  before : ℕ → ℕ
  before zero = 0
  before (suc k) = before k + length k

  walk : ℕ → ℕ → ℕ → ℕ × ℕ
  walk zero k d = (k, d)
  walk (suc fuel) k d =
      let rest = walk fuel (suc k) (d - length k) in if ltb d (length k) then (k, d) else rest

  before-walk : (fuel k d : ℕ) → let (j, e) = walk fuel k d in before j + e ≡ before k + d
  unfolding before walk
  before-walk zero k d = refl
  before-walk (suc fuel) k d = ground (arith, before-walk fuel (suc k) (d - length k))

  before_mono : (j k : ℕ) → j < k → before j + length j ≤ before k
  unfolding before
  before_mono j zero h = absurd (omega arith)
  before_mono j (suc k) h = elim (Nat_cases j k h) [
    | inl same ↦ rw same (omega arith)
    | inr less ↦ omega (arith, before_mono j k less)
  ]
    where
      Nat_cases : (j k : ℕ) → j < suc k → (j ≡ k) ⊎ (j < k)
      Nat_cases j k h = omega arith

  -- An offset falls into one span only.
  before_unique :
      (j k d e : ℕ) → d < length j → e < length k → before j + d ≡ before k + e → (j ≡ k) × (d ≡ e)
  before_unique j k d e h g same =
      let eq : j ≡ k = elim (order j k) [
        | inl less ↦ absurd (omega (arith, before_mono j k less))
        | inr (inl greater) ↦ absurd (omega (arith, before_mono k j greater))
        | inr (inr eq) ↦ eq
      ] in
      (eq, omega (arith, ap before eq))
    where
      order : (j k : ℕ) → (j < k) ⊎ ((k < j) ⊎ (j ≡ k))
      order j k = omega arith

  -- With spans enough for the offset the walk ends inside one.
  walk_within :
      (fuel k d n : ℕ)
      → n ≡ suc fuel + k
      → before k + d < before n
      → let (j, e) = walk fuel k d in e < length j
  unfolding walk before
  walk_within zero k d n eq h = let next : n ≡ suc k = omega arith in omega (arith, ap before next)
  walk_within (suc fuel) k d n eq h =
      ground (arith, walk_within fuel (suc k) (d - length k) n (omega arith))

  -- So the walk finds the span and the offset that an offset was made from.
  walk-before :
      (fuel j e n : ℕ)
      → n ≡ suc fuel
      → e < length j
      → before j + e < before n
      → walk fuel 0 (before j + e) ≡ (j, e)
  unfolding before
  walk-before fuel j e n eq h fits =
      let d = before j + e in
      let within = walk_within fuel 0 d n (omega arith) (omega arith) in
      let same = before-walk fuel 0 d in
      let (x, y) = before_unique (walk fuel 0 d).0 j (walk fuel 0 d).1 e within h (omega arith) in
      λ i. (x i, y i)

  le-before : ((k : ℕ) → 0 < length k) → (k : ℕ) → k ≤ before k
  unfolding before
  le-before positive zero = omega arith
  le-before positive (suc k) = omega (arith, le-before positive k, positive k)

year_length_pos : (k : ℕ) → 0 < year_length k
unfolding year_length
year_length_pos k = ground arith

-- `getUTCFullYear`, less 1970, with the day in the year.
unfoldable pub year_of : ℕ → ℕ × ℕ
unfolding walk year_length
year_of day = walk year_length day 0 day

-- `getUTCMonth`, with `getUTCDate` less 1.
unfoldable pub month_of : ℕ → ℕ → ℕ × ℕ
unfolding walk month_length
month_of year day = walk (month_length year) 11 0 day

-- `Date.UTC(year, month, date)`, the year less 1970 and the date less 1.
date_utc : ℕ → ℕ → ℕ → ℕ
date_utc year month date =
    (before year_length year + before (month_length year) month + date) * ms_per_day

-- The twelve months fill the year.
months_fill : (k : ℕ) → before (month_length k) 12 ≡ year_length k
unfolding before month_length year_length
months_fill k = ground arith

-- `new Date(Date.UTC(d.getUTCFullYear(), d.getUTCMonth(), d.getUTCDate()))`
unfoldable pub start_of_day : ℕ → ℕ
unfolding year_of month_of date_utc walk before year_length month_length
start_of_day t =
    let (year, day) = year_of (t / ms_per_day) in
    let (month, date) = month_of year day in date_utc year month date

-- `new Date(Date.UTC(d.getUTCFullYear(), d.getUTCMonth(), 1))`
unfoldable pub start_of_month : ℕ → ℕ
unfolding year_of month_of date_utc walk before year_length month_length
start_of_month t =
    let (year, day) = year_of (t / ms_per_day) in
    let (month, _) = month_of year day in date_utc year month 0

year_of_within : (day : ℕ) → let (year, d) = year_of day in d < year_length year
unfolding year_of before
year_of_within day =
    walk_within year_length day 0 day (suc day) (omega arith)
      (omega (arith, le-before year_length year_length_pos (suc day)))

month_of_within :
    (year day : ℕ)
    → day < year_length year
    → let (month, date) = month_of year day in date < month_length year month
unfolding month_of before
month_of_within year day h =
    walk_within (month_length year) 11 0 day 12 refl (omega (arith, months_fill year))

-- The year, the month and the date of a day give the day back.
date_parts :
    (D : ℕ)
    → let (year, day) = year_of D in
      let (month, date) = month_of year day in
      before year_length year + before (month_length year) month + date ≡ D
unfolding year_of month_of before
date_parts D =
    let (year, day) = year_of D in
    omega (arith, before-walk year_length D 0 D, before-walk (month_length year) 11 0 day)

-- The beginning of a day is the multiple of a day's length at or below the time.
pub start_of_day_lem : (t : ℕ) → start_of_day t ≡ t / ms_per_day * ms_per_day
unfolding start_of_day
start_of_day_lem t = omega (arith, date_parts (t / ms_per_day))

pub start_of_month-le : (t : ℕ) → start_of_month t ≤ t
unfolding start_of_month
start_of_month-le t = omega (arith, date_parts (t / ms_per_day))

-- The first of a month lies in that month, on day 0.
first_of_month :
    (D : ℕ)
    → let (year, day) = year_of D in
      let (month, _) = month_of year day in
      let first = before year_length year + before (month_length year) month in
      (year_of first ≡ (year, before (month_length year) month))
      × (month_of year (before (month_length year) month) ≡ (month, 0))
unfolding year_of month_of before
first_of_month D =
    let (year, day) = year_of D in
    let (month, date) = month_of year day in
    let first = before (month_length year) month in
    let within = month_of_within year day (year_of_within D) in
    let in_year : first < year_length year =
      omega (arith, year_of_within D, before-walk (month_length year) 11 0 day) in
    let plain : first + 0 ≡ first = omega arith in
    (
      walk-before year_length (before year_length year + first) year first
          (suc (before year_length year + first)) refl in_year
          (omega
            (arith, le-before year_length year_length_pos (suc (before year_length year + first)))),
      rw plain at (
          walk-before (month_length year) 11 month 0 12 refl (omega (arith, within))
            (omega (arith, months_fill year))),
    )

first_day : ℕ → ℕ
first_day D =
    let (year, day) = year_of D in
    let (month, _) = month_of year day in before year_length year + before (month_length year) month

start_of_month-first_day : (t : ℕ) → start_of_month t ≡ first_day (t / ms_per_day) * ms_per_day
unfolding start_of_month first_day
start_of_month-first_day t = omega arith

first_day_idempotent : (D : ℕ) → first_day (first_day D) ≡ first_day D
unfolding first_day
first_day_idempotent D = let (e, f) = first_of_month D in rw (e, f) refl

-- The beginning of a month lies in that month.
pub start_of_month_idempotent : (t : ℕ) → start_of_month (start_of_month t) ≡ start_of_month t
start_of_month_idempotent t =
    let D = first_day (t / ms_per_day) in
    let back : D * ms_per_day / ms_per_day ≡ D = omega arith in
    rw (start_of_month-first_day t, start_of_month-first_day (D * ms_per_day), back)
      (rw (first_day_idempotent (t / ms_per_day)))

-- 2024-02-29T13:14:15Z
leap_day :
    (start_of_month 1709212455000 ≡ 1706745600000) × (start_of_day 1709212455000 ≡ 1709164800000)
unfolding start_of_month start_of_day
leap_day = (refl, refl)
