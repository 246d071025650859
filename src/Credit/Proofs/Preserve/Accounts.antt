-- ===== src/Credit/Proofs/Preserve/Accounts.antt =====
-- The operations on accounts keep the database well formed.
use mathlib.Core.Path.{subst, subst₂}
use kokoro_platform.Base.{
  ℕ, String, ◌≡◌, refl, sym, ◌∙◌, inl, inr, Option, none, some, arith, Option-cases, Bool-cases,
  is_some, ◌==◌, eq_iff, ap, ◌||◌, ◌⊎◌,
}
use kokoro_platform.Base.Int.{pos, ltb_ℤ}
use kokoro_platform.Base.Decimal.{parse_digits}
use kokoro_platform.Credit.Types.{
  Account, AccountStatus, EnsureAccountInput, DeleteInput, QuotaPeriod,
}
use kokoro_platform.Credit.Buckets.Laws.{IsNonneg, IsNonnegAllowance, IsWithin}
use kokoro_platform.Credit.Boundary.{daily_boundary, period_boundary, is_stale}
use kokoro_platform.Credit.Store.{Tables, Store, Context}
use kokoro_platform.Credit.Repository.Rows.{
  buckets_of, allowances_of, refresh_row, find_account, put_account,
}
use kokoro_platform.Credit.Repository.Accounts.{
  new_account, is_owner, deletion_data, restore_data, count_active_holds, account_by_owner,
  ensure_account, refreshed, refresh_allowances, delete_account, delete_account_update,
  restore_account, set_account_quota,
}
use kokoro_platform.Credit.Proofs.Invariant.{
  IsSound, frozen_of, frozen, IsWellFormed, put_account-IsWellFormed, held_of_row,
}
use kokoro_platform.Credit.Proofs.Balances.{refreshed-IsSound}

-- A row that no operation has written yet is sound.
new_account-IsSound : (ctx : Context) (input : EnsureAccountInput) → IsSound (new_account ctx input)
new_account-IsSound ctx input = record {
  buckets = record { daily = omega arith; period = omega arith; permanent = omega arith };
  allowances = record { daily = omega arith; period = omega arith };
  within = record { daily = omega arith; period = omega arith };
}

-- Soundness reads the buckets and the allowances only.
same-IsSound :
    (row a : Account)
    → buckets_of a ≡ buckets_of row
    → allowances_of a ≡ allowances_of row
    → IsSound row
    → IsSound a
same-IsSound row a eb ea k = record {
  buckets = subst IsNonneg (sym eb) k.buckets;
  allowances = subst IsNonnegAllowance (sym ea) k.allowances;
  within = subst₂ IsWithin (sym eb) (sym ea) k.within;
}

module _ (T : Tables) where
  -- A row is written that differs from one that is there in nothing that counts.
  rewrite_account-IsWellFormed :
      (id : String) (row a : Account) (s : Store T)
      → IsWellFormed T s
      → find_account T id s ≡ some row
      → IsSound a
      → a.id ≡ row.id
      → a.held_micros ≡ row.held_micros
      → IsWellFormed T (put_account T a s)
  rewrite_account-IsWellFormed id row a s w found sound same held =
      put_account-IsWellFormed T a s w sound (
        held
        ∙ subst (λ k. row.held_micros ≡ frozen T k s) (sym same) (held_of_row T s id row w found))

  -- What an operation on one account does to the database: nothing, or a write that counts for
  -- nothing else.
  abbrev Rewrites : Store T → Store T → Type 0
  Rewrites s s' =
      (s' ≡ s)
      ⊎ ((id : String) × (row : Account) × (a : Account) × (find_account T id s ≡ some row)
          × (IsSound row → IsSound a)
          × (a.id ≡ row.id)
          × (a.held_micros ≡ row.held_micros)
          × (s' ≡ put_account T a s))

  Rewrites-IsWellFormed : (s s' : Store T) → Rewrites s s' → IsWellFormed T s → IsWellFormed T s'
  Rewrites-IsWellFormed s s' (inl same) w = subst (IsWellFormed T) (sym same) w
  Rewrites-IsWellFormed s s' (inr (id, row, a, found, sound, same, held, e)) w =
      subst (IsWellFormed T) (sym e) (
        rewrite_account-IsWellFormed id row a s w found (sound (w.accounts id row found)) same held)

  -- No hold is kept under an id that no account has.
  frozen_of_none :
      (id : String) (s : Store T)
      → IsWellFormed T s
      → find_account T id s ≡ none
      → frozen T id s ≡ pos 0
  frozen_of_none id s w absent = T.holds.aggregate_none (frozen_of id) s.holds (λ i h found.
      elim (Bool-cases (h.account_id == id)) [
        | inr other ↦ rw other
        | inl mine ↦
            let (a, there) = w.owned i h found in
            let e = (eq_iff h.account_id id).0 mine in
            ground (arith, ap (λ k. find_account T k s) e)
      ])

  -- The database gives a new account an id that no account has.
  pub ensure_account-IsWellFormed :
      (ctx : Context) (input : EnsureAccountInput) (s : Store T)
      → IsWellFormed T s
      → find_account T ctx.account_id s ≡ none
      → IsWellFormed T (ensure_account T ctx input s).1
  unfolding ensure_account
  ensure_account-IsWellFormed ctx input s w fresh =
      elim (Option-cases (account_by_owner T input s)) [
        | inl absent ↦
            rw (ensure_account, absent)
              (put_account-IsWellFormed T (new_account ctx input) s w
                (new_account-IsSound ctx input) (sym (frozen_of_none ctx.account_id s w fresh)))
        | inr (row, found) ↦
            let (_, there) =
              T.accounts.find_first_sound (is_owner input) (λ _. 0) s.accounts row found in
            Rewrites-IsWellFormed s _
              (elim (Bool-cases (is_some row.deleted_at)) [
                | inl gone ↦ inl (ground arith)
                | inr live ↦ inr (
                  row.id,
                  row,
                  record row { status = AccountStatus.active },
                  there,
                  same-IsSound row _ refl refl,
                  refl,
                  refl,
                  ground arith,
                )
              ])
              w
      ]

  pub refresh_allowances-IsWellFormed :
      (id : String) (now : ℕ) (s : Store T)
      → IsWellFormed T s
      → IsWellFormed T (refresh_allowances T id now s).1
  unfolding refresh_allowances
  refresh_allowances-IsWellFormed id now s w = Rewrites-IsWellFormed s _ rewrites w
    where
      rewrites : Rewrites s (refresh_allowances T id now s).1
      rewrites = elim (Option-cases (find_account T id s)) [
        | inl absent ↦ inl (ground arith)
        | inr (row, found) ↦
            elim (Bool-cases (
              is_stale row.daily_reset_on (daily_boundary now)
              || is_stale row.period_reset_on (period_boundary now))) [
                | inl stale ↦ inr (
                  id,
                  row,
                  refreshed T row (refresh_row row now),
                  found,
                  refreshed-IsSound T row now,
                  refl,
                  refl,
                  ground arith,
                )
                | inr fresh ↦ inl (ground arith)
              ]
      ]

  pub delete_account_update-IsWellFormed :
      (now : ℕ) (input : DeleteInput) (s : Store T)
      → IsWellFormed T s
      → IsWellFormed T (delete_account_update T now input s).1
  unfolding delete_account_update
  delete_account_update-IsWellFormed now input s w = Rewrites-IsWellFormed s _ rewrites w
    where
      rewrites : Rewrites s (delete_account_update T now input s).1
      rewrites = elim (Option-cases (find_account T input.id s)) [
        | inl absent ↦ inl (ground arith)
        | inr (row, found) ↦ inr (
          input.id,
          row,
          deletion_data now input row,
          found,
          same-IsSound row _ refl refl,
          refl,
          refl,
          ground arith,
        )
      ]

  pub delete_account-IsWellFormed :
      (now : ℕ) (input : DeleteInput) (s : Store T)
      → IsWellFormed T s
      → IsWellFormed T (delete_account T now input s).1
  unfolding delete_account delete_account_update
  delete_account-IsWellFormed now input s w = Rewrites-IsWellFormed s _ rewrites w
    where
      rewrites : Rewrites s (delete_account T now input s).1
      rewrites = elim (Option-cases (find_account T input.id s)) [
        | inl absent ↦ inl (ground arith)
        | inr (row, found) ↦
            elim (Bool-cases
              (is_some row.deleted_at || ltb_ℤ (pos 0) (count_active_holds T input.id s))) [
                | inl stays ↦ inl (ground arith)
                | inr goes ↦ inr (
                  input.id,
                  row,
                  deletion_data now input row,
                  found,
                  same-IsSound row _ refl refl,
                  refl,
                  refl,
                  ground arith,
                )
              ]
      ]

  pub restore_account-IsWellFormed :
      (id : String) (s : Store T) → IsWellFormed T s → IsWellFormed T (restore_account T id s).1
  unfolding restore_account
  restore_account-IsWellFormed id s w = Rewrites-IsWellFormed s _ rewrites w
    where
      rewrites : Rewrites s (restore_account T id s).1
      rewrites = elim (Option-cases (find_account T id s)) [
        | inl absent ↦ inl (ground arith)
        | inr (row, found) ↦ elim (Bool-cases (is_some row.deleted_at)) [
          | inl gone ↦ inr (
            id,
            row,
            restore_data row,
            found,
            same-IsSound row _ refl refl,
            refl,
            refl,
            ground arith,
          )
          | inr live ↦ inl (ground arith)
        ]
      ]

  pub set_account_quota-IsWellFormed :
      (id : String) (quota : Option String) (period : QuotaPeriod) (s : Store T)
      → IsWellFormed T s
      → IsWellFormed T (set_account_quota T id quota period s).1
  unfolding set_account_quota
  set_account_quota-IsWellFormed id quota period s w = Rewrites-IsWellFormed s _ rewrites w
    where
      rewrites : Rewrites s (set_account_quota T id quota period s).1
      rewrites = elim (Option-cases (find_account T id s)) [
        | inl absent ↦ inl (ground arith)
        | inr (row, found) ↦ elim (Bool-cases (is_some row.deleted_at)) [
          | inl gone ↦ inl (ground arith)
          | inr live ↦ elim (Option-cases quota) [
            | inl unset ↦ inr (
              id,
              row,
              record row { quota_micros = none; quota_period = none },
              found,
              same-IsSound row _ refl refl,
              refl,
              refl,
              ground arith,
            )
            | inr (text, given) ↦ elim (Option-cases (parse_digits text)) [
              | inl bad ↦ inl (ground arith)
              | inr (n, parsed) ↦ inr (
                id,
                row,
                record row { quota_micros = some (pos n); quota_period = some period },
                found,
                same-IsSound row _ refl refl,
                refl,
                refl,
                ground arith,
              )
            ]
          ]
        ]
      ]
