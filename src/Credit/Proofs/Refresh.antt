-- ===== src/Credit/Proofs/Refresh.antt =====
-- The time buckets of an account are refreshed once for each day and each month.
use mathlib.Core.Path.{subst}
use kokoro_platform.Base.{
  ℕ, String, ◌≡◌, sym, ap, ◌∙◌, inl, inr, false, some, ◌||◌, arith, Option-cases, Bool-cases,
}
use kokoro_platform.Base.Effect.{ok}
use kokoro_platform.Credit.Types.{Account}
use kokoro_platform.Credit.Boundary.{daily_boundary, period_boundary, is_stale}
use kokoro_platform.Credit.Store.{Tables, Store}
use kokoro_platform.Credit.Repository.Rows.{refresh_row, find_account, put_account}
use kokoro_platform.Credit.Repository.Accounts.{refreshed, refresh_allowances}

-- After a refresh neither bucket is due.
marks_fresh :
    (row : Account) (now : ℕ)
    → (is_stale (some (refresh_row row now).daily_reset_on) (daily_boundary now) ≡ false)
      × (is_stale (some (refresh_row row now).period_reset_on) (period_boundary now) ≡ false)
unfolding refresh_row is_stale
marks_fresh row now = (
  elim (Option-cases row.daily_reset_on) [ inl unset ↦ ground arith | inr (t, set) ↦ ground arith ],
  elim (Option-cases row.period_reset_on) [
    | inl unset ↦ ground arith
    | inr (t, set) ↦ ground arith
  ],
)

module _ (T : Tables) where
  quiet :
      (id : String) (a : Account) (now : ℕ) (s : Store T)
      → find_account T id s ≡ some a
      → is_stale a.daily_reset_on (daily_boundary now) ≡ false
      → is_stale a.period_reset_on (period_boundary now) ≡ false
      → refresh_allowances T id now s ≡ (ok a, s)
  unfolding refresh_allowances
  quiet id a now s found daily period = ground arith

  -- After `refreshAllowances` has returned an account, another call at any time of the same day and
  -- month, in UTC, returns the same account and changes nothing: an allowance is given once.
  pub refresh_allowances-refresh_allowances :
      (id : String) (now later : ℕ) (s s' : Store T) (a : Account)
      → refresh_allowances T id now s ≡ (ok a, s')
      → daily_boundary later ≡ daily_boundary now
      → period_boundary later ≡ period_boundary now
      → refresh_allowances T id later s' ≡ (ok a, s')
  unfolding refresh_allowances
  refresh_allowances-refresh_allowances id now later s s' a done day month =
      elim (Option-cases (find_account T id s)) [
        | inl absent ↦ ground arith
        | inr (row, found) ↦
            let daily_due = is_stale row.daily_reset_on (daily_boundary now) in
            let period_due = is_stale row.period_reset_on (period_boundary now) in
            elim (Bool-cases (daily_due || period_due)) [
              | inr fresh ↦
                  let ea : row ≡ a = ground arith in
                  let es : s ≡ s' =
                    ap (λ x. x.1)
                      (sym (quiet id row now s found (ground arith) (ground arith)) ∙ done) in
                  quiet id a later s' (ap (find_account T id) (sym es) ∙ found ∙ ap some ea)
                    (rw (day, ← ea) (ground arith)) (rw (month, ← ea) (ground arith))
              | inl due ↦
                  let new = refreshed T row (refresh_row row now) in
                  let ea : new ≡ a = ground arith in
                  let es : put_account T new s ≡ s' = ground arith in
                  let eid : row.id ≡ id = T.accounts.find_unique-id id s.accounts row found in
                  let there : find_account T id (put_account T new s) ≡ some new =
                    subst (λ k. find_account T k (put_account T new s) ≡ some new) eid
                      (T.accounts.find_unique-put_self new s.accounts) in
                  let (d, p) = marks_fresh row now in
                  quiet id a later s' (ap (find_account T id) (sym es) ∙ there ∙ ap some ea)
                    (rw (day, ← ea) d) (rw (month, ← ea) p)
            ]
      ]
