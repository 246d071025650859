-- ===== src/Credit/Proofs/Mutations.antt =====
-- What the bodies of `grantCredits`, `spendCredits` and `resetBalance` have done where they return.
use kokoro_platform.Base.{◌≡◌, inl, inr, false, none, some, arith, Option-cases}
use kokoro_platform.Base.Int.{ℤ, pos, ◌+ℤ◌, ◌-ℤ◌, ltb_ℤ}
use kokoro_platform.Base.Effect.{ok, Result-cases}
use kokoro_platform.Credit.Types.{
  Account, AccountStatus, LedgerEntry, AmountInput, ResetInput, MutationResult,
}
use kokoro_platform.Credit.Amount.{parse_positive_bigint_string, parse_non_negative_bigint_string}
use kokoro_platform.Credit.Buckets.{Buckets, available, debit}
use kokoro_platform.Credit.Store.{Tables, Store, Context}
use kokoro_platform.Credit.Repository.Rows.{
  buckets_of, refresh_row, with_buckets, with_reset, find_account, create_entry,
  assert_writable_account,
}
use kokoro_platform.Credit.Repository.Mutations.{
  debited, ledger_row, grant_body, spend_body, reset_body,
}

abbrev pub granted : Account → ℤ → Account
granted row amount = record row { balance_micros = row.balance_micros +ℤ amount }

abbrev pub reset_to : Account → ℤ → Account
reset_to row target = record row { balance_micros = target }

module _ (T : Tables) (ctx : Context) where
  -- A ledger entry and an account are written, and the result shows both.
  abbrev pub Written : Account → LedgerEntry → Store T → MutationResult → Store T → Type 0
  Written a e s r s' =
      (r ≡ record { account = a; entry = e })
      × (s' ≡ record s {
        accounts = T.accounts.put a s.accounts;
        entries = T.entries.put e s.entries;
      })

  pub grant_body_ok :
      (input : AmountInput) (s s' : Store T) (r : MutationResult)
      → grant_body T ctx input s ≡ ok (r, s')
      → (amount : ℤ) × (row : Account) × (parse_positive_bigint_string input.amount_micros
          ≡ ok amount)
        × (find_account T input.account_id s ≡ some row)
        × (row.deleted_at ≡ none)
        × Written
            (granted row amount)
            (ledger_row T ctx row.id amount
              (granted row amount).balance_micros
              input.reason
              input.idempotency_key
              input.request_id)
            s
            r
            s'
  unfolding grant_body assert_writable_account create_entry
  grant_body_ok input s s' r h =
      elim (Result-cases (parse_positive_bigint_string input.amount_micros)) [
        | inr (e, bad) ↦ ground arith
        | inl (amount, parsed) ↦ elim (Option-cases (find_account T input.account_id s)) [
          | inl absent ↦ ground arith
          | inr (row, found) ↦
              (amount, row, parsed, found, ground arith, (ground arith, ground arith))
        ]
      ]

  -- The buckets of a row as of now.
  abbrev pub current : Account → Buckets
  current row = (refresh_row row ctx.now).buckets

  -- The account after `amount` has been taken out of its buckets.
  abbrev pub charged : Account → ℤ → Account
  charged row amount =
      let fresh = refresh_row row ctx.now in
      with_reset (with_buckets row (debited fresh.buckets (debit fresh.buckets amount))) fresh

  -- An account that may spend `amount`.
  abbrev pub CanSpend : Account → ℤ → Type 0
  CanSpend row amount =
      (row.deleted_at ≡ none)
      × (row.status ≡ AccountStatus.active)
      × (ltb_ℤ (pos 0) (debit (current row) amount).shortfall ≡ false)

  pub spend_body_ok :
      (input : AmountInput) (s s' : Store T) (r : MutationResult)
      → spend_body T ctx input s ≡ ok (r, s')
      → (amount : ℤ) × (row : Account) × (parse_positive_bigint_string input.amount_micros
          ≡ ok amount)
        × (find_account T input.account_id s ≡ some row)
        × CanSpend row amount
        × Written
            (charged row amount)
            (ledger_row T ctx row.id
              (pos 0 -ℤ amount)
              (available (buckets_of (charged row amount)))
              input.reason
              input.idempotency_key
              input.request_id)
            s
            r
            s'
  unfolding spend_body create_entry
  spend_body_ok input s s' r h =
      elim (Result-cases (parse_positive_bigint_string input.amount_micros)) [
        | inr (e, bad) ↦ ground arith
        | inl (amount, parsed) ↦ elim (Option-cases (find_account T input.account_id s)) [
          | inl absent ↦ ground arith
          | inr (row, found) ↦ (
            amount,
            row,
            parsed,
            found,
            (ground arith, ground arith, ground arith),
            (ground arith, ground arith),
          )
        ]
      ]

  pub reset_body_ok :
      (input : ResetInput) (s s' : Store T) (r : MutationResult)
      → reset_body T ctx input s ≡ ok (r, s')
      → (target : ℤ) × (row : Account) × (parse_non_negative_bigint_string input.target_micros
          ≡ ok target)
        × (find_account T input.account_id s ≡ some row)
        × (row.deleted_at ≡ none)
        × (ltb_ℤ target row.held_micros ≡ false)
        × Written
            (reset_to row target)
            (ledger_row T ctx row.id
              (target -ℤ row.balance_micros)
              target
              input.reason
              input.idempotency_key
              input.request_id)
            s
            r
            s'
  unfolding reset_body create_entry
  reset_body_ok input s s' r h =
      elim (Result-cases (parse_non_negative_bigint_string input.target_micros)) [
        | inr (e, bad) ↦ ground arith
        | inl (target, parsed) ↦ elim (Option-cases (find_account T input.account_id s)) [
          | inl absent ↦ ground arith
          | inr (row, found) ↦
              (target, row, parsed, found, ground arith, ground arith, (ground arith, ground arith))
        ]
      ]
