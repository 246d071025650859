-- ===== src/Credit/Buckets.antt =====
-- The three buckets of a balance: kokoro-credit/src/domain/buckets.ts.
pub mod Laws
use kokoro_platform.Base.{Bool, if◌then◌else◌}
use kokoro_platform.Base.Int.{ℤ, pos, ◌+ℤ◌, ◌-ℤ◌, ltb_ℤ}

-- Also the `delta` of `creditBack`.
pub record Buckets : Type 0 where
  pub daily : ℤ
  pub period : ℤ
  pub permanent : ℤ

pub record Allowances : Type 0 where
  pub daily : ℤ
  pub period : ℤ

pub record Debit : Type 0 where
  pub daily : ℤ
  pub period : ℤ
  pub permanent : ℤ
  pub shortfall : ℤ

unfoldable pub available : Buckets → ℤ
available b = b.daily +ℤ b.period +ℤ b.permanent

-- One call of the closure `take`: what it takes from `bucket` where `remaining` is wanted.
abbrev pub take : ℤ → ℤ → ℤ
take bucket remaining = if ltb_ℤ bucket remaining then bucket else remaining

-- Buckets are emptied in the order daily, period, permanent.
unfoldable pub debit : Buckets → ℤ → Debit
debit b amount =
    let remaining = if ltb_ℤ (pos 0) amount then amount else pos 0 in
    let daily = take b.daily remaining in
    let remaining' = remaining -ℤ daily in
    let period = take b.period remaining' in
    let remaining'' = remaining' -ℤ period in
    let permanent = take b.permanent remaining'' in
    record {
      daily = daily;
      period = period;
      permanent = permanent;
      shortfall = remaining'' -ℤ permanent;
    }

-- A stale bucket is overwritten by its allowance.
unfoldable pub refresh : Buckets → Allowances → Bool → Bool → Buckets
refresh b allowances daily_stale period_stale = record {
  daily = if daily_stale then allowances.daily else b.daily;
  period = if period_stale then allowances.period else b.period;
  permanent = b.permanent;
}

abbrev pub clamp : ℤ → ℤ → ℤ
clamp value cap = if ltb_ℤ value cap then value else cap

unfoldable pub credit_back : Buckets → Buckets → Allowances → Buckets
credit_back b delta allowances = record {
  daily = clamp (b.daily +ℤ delta.daily) allowances.daily;
  period = clamp (b.period +ℤ delta.period) allowances.period;
  permanent = b.permanent +ℤ delta.permanent;
}
