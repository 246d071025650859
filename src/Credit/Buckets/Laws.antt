-- ===== src/Credit/Buckets/Laws.antt =====
-- What the arithmetic of the buckets keeps.
use kokoro_platform.Base.{◌≡◌, ◌↔◌, inl, inr, Bool, arith, if◌then◌else◌}
use kokoro_platform.Base.Int.{
  ℤ, pos, ◌+ℤ◌, ◌-ℤ◌, ◌≤ℤ◌, ◌<ℤ◌, ltb_ℤ, int_laws, parts_of_eq, lt_or_le,
}
use kokoro_platform.Credit.Buckets.{
  Buckets, Allowances, Debit, available, take, debit, refresh, clamp, credit_back,
}

pub record IsNonneg (b : Buckets) : Type 0 where
  pub daily : pos 0 ≤ℤ b.daily
  pub period : pos 0 ≤ℤ b.period
  pub permanent : pos 0 ≤ℤ b.permanent

-- `amount > 0n ? amount : 0n`
abbrev pub wanted : ℤ → ℤ
wanted amount = if ltb_ℤ (pos 0) amount then amount else pos 0

-- A debit takes no more than a bucket holds, and goes on to the next bucket only from an empty one.
pub record IsDebit (b : Buckets) (amount : ℤ) (d : Debit) : Type 0 where
  pub daily_nonneg : pos 0 ≤ℤ d.daily
  pub period_nonneg : pos 0 ≤ℤ d.period
  pub permanent_nonneg : pos 0 ≤ℤ d.permanent
  pub shortfall_nonneg : pos 0 ≤ℤ d.shortfall
  pub daily_within : d.daily ≤ℤ b.daily
  pub period_within : d.period ≤ℤ b.period
  pub permanent_within : d.permanent ≤ℤ b.permanent
  pub covers : d.daily +ℤ d.period +ℤ d.permanent +ℤ d.shortfall ≡ wanted amount
  pub daily_first : pos 0 <ℤ d.period +ℤ d.permanent +ℤ d.shortfall → d.daily ≡ b.daily
  pub period_next : pos 0 <ℤ d.permanent +ℤ d.shortfall → d.period ≡ b.period
  pub permanent_last : pos 0 <ℤ d.shortfall → d.permanent ≡ b.permanent

-- One call of `take`.
take_bounds :
    (bucket remaining : ℤ)
    → pos 0 ≤ℤ bucket
    → pos 0 ≤ℤ remaining
    → let t = take bucket remaining in
      (pos 0 ≤ℤ t) × (t ≤ℤ bucket) × (t ≤ℤ remaining) × (t <ℤ remaining → t ≡ bucket)
take_bounds bucket remaining h k = ground arith

wanted_nonneg : (amount : ℤ) → pos 0 ≤ℤ wanted amount
wanted_nonneg amount = ground arith

-- A debit of non-negative buckets takes from each at most what it has, goes on from daily to period
-- and from period to permanent only where the one before is emptied, reports a shortfall only where
-- all three are, and what it takes and the shortfall add up to the amount (to 0 for a negative one).
pub debit-IsDebit : (b : Buckets) (amount : ℤ) → IsNonneg b → IsDebit b amount (debit b amount)
unfolding debit
debit-IsDebit b amount h =
    let r = wanted amount in
    let hr : pos 0 ≤ℤ r = wanted_nonneg amount in
    let (d1, d2, d3, d4) = take_bounds b.daily r h.daily hr in
    let r' = r -ℤ take b.daily r in
    let hr' : pos 0 ≤ℤ r' = omega int_laws in
    let (e1, e2, e3, e4) = take_bounds b.period r' h.period hr' in
    let r'' = r' -ℤ take b.period r' in
    let hr'' : pos 0 ≤ℤ r'' = omega int_laws in
    let (f1, f2, f3, f4) = take_bounds b.permanent r'' h.permanent hr'' in
    record {
      daily_nonneg = d1;
      period_nonneg = e1;
      permanent_nonneg = f1;
      shortfall_nonneg = omega int_laws;
      daily_within = d2;
      period_within = e2;
      permanent_within = f2;
      covers = omega int_laws;
      daily_first = λ p. d4 (omega int_laws);
      period_next = λ p. e4 (omega int_laws);
      permanent_last = λ p. f4 (omega int_laws);
    }

-- A debit of non-negative buckets leaves no shortfall exactly when the available sum covers the
-- amount, or 0 for a negative amount.
pub debit_covered :
    (b : Buckets) (amount : ℤ)
    → IsNonneg b
    → ((debit b amount).shortfall ≡ pos 0) ↔ (wanted amount ≤ℤ available b)
unfolding available
debit_covered b amount h =
    let k = debit-IsDebit b amount h in
    (
      λ e. omega (int_laws, parts_of_eq k.covers, parts_of_eq e),
      λ fits. elim (lt_or_le (pos 0) (debit b amount).shortfall) [
        | inl short ↦
            let d = k.daily_first (omega int_laws) in
            let p = k.period_next (omega int_laws) in
            let q = k.permanent_last short in
            absurd
              (omega (int_laws, parts_of_eq k.covers, parts_of_eq d, parts_of_eq p, parts_of_eq q))
        | inr none_short ↦ omega int_laws
      ],
    )

-- What a debit leaves, bucket by bucket.
abbrev pub after : Buckets → Debit → Buckets
after b d = record {
  daily = b.daily -ℤ d.daily;
  period = b.period -ℤ d.period;
  permanent = b.permanent -ℤ d.permanent;
}

pub after-IsNonneg : (b : Buckets) (amount : ℤ) → IsNonneg b → IsNonneg (after b (debit b amount))
after-IsNonneg b amount h =
    let k = debit-IsDebit b amount h in
    record { daily = omega int_laws; period = omega int_laws; permanent = omega int_laws }

-- A debit without shortfall lowers the available sum by exactly the amount.
pub available-after :
    (b : Buckets) (amount : ℤ)
    → IsNonneg b
    → pos 0 ≤ℤ amount
    → (debit b amount).shortfall ≡ pos 0
    → available (after b (debit b amount)) ≡ available b -ℤ amount
unfolding available
available-after b amount h n e =
    let k = debit-IsDebit b amount h in
    let w : wanted amount ≡ amount = ground arith in
    omega (int_laws, parts_of_eq k.covers, parts_of_eq e, parts_of_eq w)

-- No time bucket holds more than its allowance.
pub record IsWithin (b : Buckets) (allowances : Allowances) : Type 0 where
  pub daily : b.daily ≤ℤ allowances.daily
  pub period : b.period ≤ℤ allowances.period

pub record IsNonnegAllowance (a : Allowances) : Type 0 where
  pub daily : pos 0 ≤ℤ a.daily
  pub period : pos 0 ≤ℤ a.period

-- Refreshing puts a time bucket to its allowance or leaves it, and leaves the permanent one.
pub refresh_sound :
    (b : Buckets) (a : Allowances) (daily_stale period_stale : Bool)
    → IsNonneg b
    → IsNonnegAllowance a
    → IsWithin b a
    → let r = refresh b a daily_stale period_stale in
      IsNonneg r × IsWithin r a × (r.permanent ≡ b.permanent)
unfolding refresh
refresh_sound b a daily_stale period_stale h n w = ground arith

-- What returning credit does to buckets within their allowances: nothing is lost, no more than
-- `delta` comes back, a time bucket stays within its allowance, and paid credit comes back in full.
pub record IsReturned (b delta : Buckets) (a : Allowances) (r : Buckets) : Type 0 where
  pub nonneg : IsNonneg r
  pub within : IsWithin r a
  pub daily_kept : b.daily ≤ℤ r.daily
  pub period_kept : b.period ≤ℤ r.period
  pub daily_back : r.daily ≤ℤ b.daily +ℤ delta.daily
  pub period_back : r.period ≤ℤ b.period +ℤ delta.period
  pub permanent : r.permanent ≡ b.permanent +ℤ delta.permanent
  pub in_full :
      b.daily +ℤ delta.daily ≤ℤ a.daily
      → b.period +ℤ delta.period ≤ℤ a.period
      → available r ≡ available b +ℤ available delta

clamp_bounds :
    (value cap : ℤ)
    → (clamp value cap ≤ℤ value)
      × (clamp value cap ≤ℤ cap)
      × ((low : ℤ) → low ≤ℤ value → low ≤ℤ cap → low ≤ℤ clamp value cap)
clamp_bounds value cap = (ground arith, ground arith, λ low h k. ground arith)

-- Returning a non-negative `delta` to non-negative buckets within their allowances keeps them so,
-- lowers no bucket, adds at most the delta to a time bucket and exactly the delta to the permanent
-- one, and all of it where no time bucket would exceed its allowance.
pub credit_back-IsReturned :
    (b delta : Buckets) (a : Allowances)
    → IsNonneg b
    → IsNonneg delta
    → IsWithin b a
    → IsReturned b delta a (credit_back b delta a)
unfolding credit_back available
credit_back-IsReturned b delta a h k w =
    let (d1, d2, d3) = clamp_bounds (b.daily +ℤ delta.daily) a.daily in
    let (p1, p2, p3) = clamp_bounds (b.period +ℤ delta.period) a.period in
    let low_d = d3 b.daily (omega int_laws) w.daily in
    let low_p = p3 b.period (omega int_laws) w.period in
    record {
      nonneg = record {
        daily = omega int_laws;
        period = omega int_laws;
        permanent = omega int_laws;
      };
      within = record { daily = d2; period = p2 };
      daily_kept = low_d;
      period_kept = low_p;
      daily_back = d1;
      period_back = p1;
      permanent = omega int_laws;
      in_full = λ x y.
          let full_d = d3 (b.daily +ℤ delta.daily) (omega int_laws) x in
          let full_p = p3 (b.period +ℤ delta.period) (omega int_laws) y in omega int_laws;
    }
