-- ===== src/Credit/Repository/Mutations.antt =====
-- `grantCredits`, `spendCredits` and `resetBalance`.
use kokoro_platform.Base.{String, Option, is_some, not}
use kokoro_platform.Base.Int.{ℤ, pos, ◌+ℤ◌, ◌-ℤ◌, ltb_ℤ}
use kokoro_platform.Base.Effect.{Tx, Action}
use kokoro_platform.Base.Effect.Transaction.{
  pure, gets, lift, modify, throw_if, or_throw, ◌>>=◌, ◌>>◌,
}
use kokoro_platform.Credit.Types.{
  Account, LedgerEntry, Reason, AmountInput, ResetInput, MutationResult, Error, account_not_found,
  account_deleted, insufficient_credit, reset_below_held,
}
use kokoro_platform.Credit.Amount.{parse_positive_bigint_string, parse_non_negative_bigint_string}
use kokoro_platform.Credit.Buckets.{Buckets, Debit, available, debit}
use kokoro_platform.Credit.Store.{Tables, Store, Context}
use kokoro_platform.Credit.Repository.Rows.{
  is_active_account, buckets_of, refresh_row, with_buckets, with_reset, find_account, put_account,
  create_entry, once, assert_writable_account,
}

-- The buckets after a debit.
abbrev pub debited : Buckets → Debit → Buckets
debited b d = record {
  daily = b.daily -ℤ d.daily;
  period = b.period -ℤ d.period;
  permanent = b.permanent -ℤ d.permanent;
}

module _ (T : Tables) (ctx : Context) where
  -- The row that a mutation writes to the ledger.
  abbrev pub ledger_row : String → ℤ → ℤ → Reason → String → Option String → LedgerEntry
  ledger_row account_id amount balance_after reason key request_id = record {
    id = ctx.entry_id;
    account_id = account_id;
    amount_micros = amount;
    balance_after_micros = balance_after;
    reason = reason;
    idempotency_key = key;
    request_id = request_id;
    created_at = ctx.now;
  }

  unfoldable pub grant_body : AmountInput → Tx (Store T) Error MutationResult
  grant_body input = do
    amount ← lift (parse_positive_bigint_string input.amount_micros)
    before ← gets (find_account T input.account_id)
    row ← assert_writable_account T before
    let account = record row { balance_micros = row.balance_micros +ℤ amount }
    modify (put_account T account)
    entry ← create_entry T (
        ledger_row account.id amount account.balance_micros input.reason input.idempotency_key
          input.request_id)
    pure (record { account = account; entry = entry })

  unfoldable pub grant_credits : AmountInput → Action (Store T) Error MutationResult
  unfolding grant_body
  grant_credits input = once T input.idempotency_key (grant_body input)

  -- The row, locked, of an account that may spend.
  unfoldable pub lock_spendable : String → Tx (Store T) Error Account
  lock_spendable account_id = do
    row ← or_throw (← gets (find_account T account_id)) account_not_found
    throw_if (is_some row.deleted_at) account_deleted
    throw_if (not (is_active_account row.status)) insufficient_credit
    pure row

  unfoldable pub spend_body : AmountInput → Tx (Store T) Error MutationResult
  unfolding lock_spendable
  spend_body input = do
    amount ← lift (parse_positive_bigint_string input.amount_micros)
    row ← lock_spendable input.account_id
    let fresh = refresh_row row ctx.now
    let d = debit fresh.buckets amount
    throw_if (ltb_ℤ (pos 0) d.shortfall) insufficient_credit
    let account = with_reset (with_buckets row (debited fresh.buckets d)) fresh
    modify (put_account T account)
    entry ← create_entry T (
        ledger_row account.id (pos 0 -ℤ amount) (available (buckets_of account)) input.reason
          input.idempotency_key input.request_id)
    pure (record { account = account; entry = entry })

  unfoldable pub spend_credits : AmountInput → Action (Store T) Error MutationResult
  unfolding spend_body
  spend_credits input = once T input.idempotency_key (spend_body input)

  unfoldable pub reset_body : ResetInput → Tx (Store T) Error MutationResult
  reset_body input = do
    target ← lift (parse_non_negative_bigint_string input.target_micros)
    before ← or_throw (← gets (find_account T input.account_id)) account_not_found
    throw_if (is_some before.deleted_at) account_deleted
    throw_if (ltb_ℤ target before.held_micros) reset_below_held
    let delta = target -ℤ before.balance_micros
    let account = record before { balance_micros = target }
    modify (put_account T account)
    entry ← create_entry T (
        ledger_row account.id delta account.balance_micros input.reason input.idempotency_key
          input.request_id)
    pure (record { account = account; entry = entry })

  unfoldable pub reset_balance : ResetInput → Action (Store T) Error MutationResult
  unfolding reset_body
  reset_balance input = once T input.idempotency_key (reset_body input)
