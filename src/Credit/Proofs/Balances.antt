-- ===== src/Credit/Proofs/Balances.antt =====
-- The operations of kokoro-credit keep each account's buckets sound.
use kokoro_platform.Base.{ℕ, ◌≡◌, false, arith}
use kokoro_platform.Base.Int.{ℤ, pos, ◌≤ℤ◌, ltb_ℤ, int_laws, parts_of_eq}
use kokoro_platform.Credit.Types.{Account, Hold, HoldInput}
use kokoro_platform.Credit.Buckets.{Buckets, available, debit}
use kokoro_platform.Credit.Buckets.Laws.{
  IsNonneg, wanted, IsWithin, debit-IsDebit, refresh_sound, after-IsNonneg, credit_back-IsReturned,
}
use kokoro_platform.Credit.Boundary.{daily_boundary, period_boundary, is_stale}
use kokoro_platform.Credit.Store.{Tables, Context}
use kokoro_platform.Credit.Repository.Rows.{buckets_of, allowances_of, reserved_of, refresh_row}
use kokoro_platform.Credit.Repository.Accounts.{refreshed}
use kokoro_platform.Credit.Proofs.Invariant.{IsSound, IsSplit}
use kokoro_platform.Credit.Proofs.Mutations.{granted, current, charged, reset_to}
use kokoro_platform.Credit.Proofs.Holds.{settled, unspent, new_hold}

pub granted-IsSound : (row : Account) (n : ℕ) → IsSound row → IsSound (granted row (pos n))
granted-IsSound row n h = record {
  buckets = record {
    daily = h.buckets.daily;
    period = h.buckets.period;
    permanent = omega (int_laws, h.buckets.permanent);
  };
  allowances = h.allowances;
  within = record { daily = h.within.daily; period = h.within.period };
}

pub reset_to-IsSound : (row : Account) (n : ℕ) → IsSound row → IsSound (reset_to row (pos n))
reset_to-IsSound row n h = record {
  buckets = record { daily = h.buckets.daily; period = h.buckets.period; permanent = omega arith };
  allowances = h.allowances;
  within = record { daily = h.within.daily; period = h.within.period };
}

-- The test `d.shortfall > 0n` fails only where nothing is short.
pub no_shortfall : (x : ℤ) → pos 0 ≤ℤ x → ltb_ℤ (pos 0) x ≡ false → x ≡ pos 0
no_shortfall x h e = ground arith

pub wanted-pos : (n : ℕ) → wanted (pos n) ≡ pos n
wanted-pos n = ground arith

-- What is given back of a hold is part of what it reserved.
pub unspent-IsNonneg : (h : Hold) (actual : ℤ) → IsSplit h → IsNonneg (unspent h actual)
unspent-IsNonneg h actual split =
    let rest = after-IsNonneg (reserved_of h) actual split.parts in
    record { daily = rest.daily; period = rest.period; permanent = rest.permanent }

pub settled-IsSound :
    (acct : Account) (returned : Buckets) (amount : ℤ)
    → IsSound acct
    → IsNonneg returned
    → IsSound (settled acct returned amount)
settled-IsSound acct returned amount h n =
    let k =
      credit_back-IsReturned (buckets_of acct) returned (allowances_of acct) h.buckets n h.within in
    record { buckets = k.nonneg; allowances = h.allowances; within = k.within }

module _ (T : Tables) (ctx : Context) where
  -- A refreshed balance is sound.
  pub current_sound :
      (row : Account)
      → IsSound row
      → IsNonneg (current T ctx row)
        × IsWithin (current T ctx row) (allowances_of row)
        × ((current T ctx row).permanent ≡ row.balance_micros)
  unfolding refresh_row
  current_sound row h =
      refresh_sound (buckets_of row) (allowances_of row)
        (is_stale row.daily_reset_on (daily_boundary ctx.now))
        (is_stale row.period_reset_on (period_boundary ctx.now)) h.buckets h.allowances h.within

  pub charged-IsSound :
      (row : Account) (amount : ℤ) → IsSound row → IsSound (charged T ctx row amount)
  charged-IsSound row amount h =
      let b = current T ctx row in
      let (nonneg, within, _) = current_sound row h in
      let k = debit-IsDebit b amount nonneg in
      let rest = after-IsNonneg b amount nonneg in
      record {
        buckets = record { daily = rest.daily; period = rest.period; permanent = rest.permanent };
        allowances = h.allowances;
        within = record {
          daily = omega (int_laws, within.daily, k.daily_nonneg);
          period = omega (int_laws, within.period, k.period_nonneg);
        };
      }

  -- A hold reserves exactly its amount.
  pub new_hold-IsSplit :
      (input : HoldInput) (row : Account) (n : ℕ)
      → IsSound row
      → ltb_ℤ (pos 0) (debit (current T ctx row) (pos n)).shortfall ≡ false
      → IsSplit (new_hold T ctx input row (pos n))
  unfolding available
  new_hold-IsSplit input row n h covered =
      let (nonneg, _, _) = current_sound row h in
      let k = debit-IsDebit (current T ctx row) (pos n) nonneg in
      record {
        parts = record {
          daily = k.daily_nonneg;
          period = k.period_nonneg;
          permanent = k.permanent_nonneg;
        };
        amount = omega (
          int_laws,
          parts_of_eq k.covers,
          parts_of_eq (no_shortfall _ k.shortfall_nonneg covered),
          parts_of_eq (wanted-pos n),
        );
      }

-- A refresh leaves a row sound.
pub refreshed-IsSound :
    (T : Tables) (row : Account) (now : ℕ)
    → IsSound row
    → IsSound (refreshed T row (refresh_row row now))
unfolding refresh_row
refreshed-IsSound T row now h =
    let (nonneg, within, _) =
      refresh_sound (buckets_of row) (allowances_of row)
        (is_stale row.daily_reset_on (daily_boundary now))
        (is_stale row.period_reset_on (period_boundary now)) h.buckets h.allowances h.within in
    record {
      buckets = record {
        daily = nonneg.daily;
        period = nonneg.period;
        permanent = h.buckets.permanent;
      };
      allowances = h.allowances;
      within = record { daily = within.daily; period = within.period };
    }
