-- ===== src/Credit/Repository/Rows.antt =====
-- The steps that the operations of kokoro-credit/src/infrastructure/prisma/prisma-credit-repository.ts
-- share: reading and writing rows, refreshing a balance, returning reserved credit.
use kokoro_platform.Base.{
  ℕ, String, Bool, true, false, Option, none, some, is_some, ◌==◌, if◌then◌else◌,
}
use kokoro_platform.Base.Int.{ℤ, ◌-ℤ◌}
use kokoro_platform.Base.Effect.{ok, err, Tx, Action}
use kokoro_platform.Base.Effect.Transaction.{pure, throw, ◌>>=◌}
use kokoro_platform.Base.Effect.Async.{transaction}
use kokoro_platform.Credit.Types.{
  Account, AccountStatus, LedgerEntry, Hold, HoldStatus, MutationResult, Error, account_not_found,
  account_deleted, unique_conflict, record_missing,
}
use kokoro_platform.Credit.Buckets.{Buckets, Allowances, refresh, credit_back}
use kokoro_platform.Credit.Boundary.{daily_boundary, period_boundary, is_stale}
use kokoro_platform.Credit.Store.{Tables, Store}

abbrev pub is_active_account : AccountStatus → Bool
is_active_account AccountStatus.active = true
is_active_account AccountStatus.disabled = false

abbrev pub is_active : HoldStatus → Bool
is_active HoldStatus.active = true
is_active _ = false

abbrev pub buckets_of : Account → Buckets
buckets_of a = record {
  daily = a.daily_micros;
  period = a.period_micros;
  permanent = a.balance_micros;
}

abbrev pub allowances_of : Account → Allowances
allowances_of a = record { daily = a.daily_allowance_micros; period = a.period_allowance_micros }

abbrev pub reserved_of : Hold → Buckets
reserved_of h = record {
  daily = h.reserved_daily_micros;
  period = h.reserved_period_micros;
  permanent = h.reserved_permanent_micros;
}

-- `if (existing) return existing;`
abbrev pub or_existing : {S E A : Type 0} → Option A → Tx S E A → Tx S E A
or_existing none body = body
or_existing (some a) _ = pure a

abbrev or_date : Option ℕ → ℕ → ℕ
or_date none d = d
or_date (some t) _ = t

pub record Fresh : Type 0 where
  pub buckets : Buckets
  pub daily_reset_on : ℕ
  pub period_reset_on : ℕ

-- The buckets of a row as of `now`, with their new water marks.
unfoldable pub refresh_row : Account → ℕ → Fresh
refresh_row row now =
    let daily_boundary_now = daily_boundary now in
    let period_boundary_now = period_boundary now in
    let daily_stale = is_stale row.daily_reset_on daily_boundary_now in
    let period_stale = is_stale row.period_reset_on period_boundary_now in
    record {
      buckets = refresh (buckets_of row) (allowances_of row) daily_stale period_stale;
      daily_reset_on =
          if daily_stale then daily_boundary_now else or_date row.daily_reset_on daily_boundary_now;
      period_reset_on =
          if period_stale
          then period_boundary_now
          else or_date row.period_reset_on period_boundary_now;
    }

-- The fields that a refresh writes.
abbrev pub with_buckets : Account → Buckets → Account
with_buckets a b = record a {
  balance_micros = b.permanent;
  daily_micros = b.daily;
  period_micros = b.period;
}

abbrev pub with_reset : Account → Fresh → Account
with_reset a fresh = record a {
  daily_reset_on = some fresh.daily_reset_on;
  period_reset_on = some fresh.period_reset_on;
}

module _ (T : Tables) where
  abbrev pub find_account : String → Store T → Option Account
  find_account id s = T.accounts.find_unique id s.accounts

  abbrev pub find_hold : String → Store T → Option Hold
  find_hold id s = T.holds.find_unique id s.holds

  -- `tx.creditAccount.update`
  abbrev pub put_account : Account → Store T → Store T
  put_account a s = record s { accounts = T.accounts.put a s.accounts }

  abbrev pub put_hold : Hold → Store T → Store T
  put_hold h s = record s { holds = T.holds.put h s.holds }

  abbrev pub entry_by_key : String → Store T → Option LedgerEntry
  entry_by_key key s = T.entries.find_first (λ e. e.idempotency_key == key) (λ _. 0) s.entries

  abbrev pub hold_by_key : String → Store T → Option Hold
  hold_by_key key s = T.holds.find_first (λ h. h.idempotency_key == key) (λ _. 0) s.holds

  -- The entry with its account, which the foreign key says is there.
  unfoldable pub find_existing_entry : String → Tx (Store T) Error (Option MutationResult)
  find_existing_entry key s = elim (entry_by_key key s) [
    | none ↦ ok (none, s)
    | some e ↦ elim (find_account e.account_id s) [
      | none ↦ err record_missing
      | some a ↦ ok (some (record { account = a; entry = e }), s)
    ]
  ]

  -- `idempotencyKey` is a unique column.
  unfoldable pub create_entry : LedgerEntry → Tx (Store T) Error LedgerEntry
  create_entry e s = elim (entry_by_key e.idempotency_key s) [
    | some _ ↦ err unique_conflict
    | none ↦ ok (e, record s { entries = T.entries.put e s.entries })
  ]

  unfoldable pub create_hold : Hold → Tx (Store T) Error Hold
  create_hold h s = elim (hold_by_key h.idempotency_key s) [
    | some _ ↦ err unique_conflict
    | none ↦ ok (h, put_hold h s)
  ]

  -- The `catch` of the mutations: another call created the entry in between.
  unfoldable pub find_existing_entry_after_unique_conflict :
      String → Action (Store T) Error MutationResult → Action (Store T) Error MutationResult
  unfolding find_existing_entry
  find_existing_entry_after_unique_conflict key body s =
      let (r, s') = body s in
      elim r [
        | err unique_conflict ↦ elim (find_existing_entry key s') [
          | ok (some existing, _) ↦ (ok existing, s')
          | ok (none, _) ↦ (err unique_conflict, s')
          | err e ↦ (err e, s')
        ]
        | other ↦ (other, s')
      ]

  -- A mutation of the ledger: the entry that is there under the key, or what `body` does.
  unfoldable pub once :
      String → Tx (Store T) Error MutationResult → Action (Store T) Error MutationResult
  unfolding find_existing_entry_after_unique_conflict
  once key body =
      find_existing_entry_after_unique_conflict key
        (transaction do existing ← find_existing_entry key; or_existing existing body)

  unfoldable pub find_existing_hold_after_unique_conflict :
      String → Action (Store T) Error Hold → Action (Store T) Error Hold
  find_existing_hold_after_unique_conflict key body s =
      let (r, s') = body s in
      elim r [
        | err unique_conflict ↦ elim (hold_by_key key s') [
          | some existing ↦ (ok existing, s')
          | none ↦ (err unique_conflict, s')
        ]
        | other ↦ (other, s')
      ]

  unfoldable pub assert_writable_account : Option Account → Tx (Store T) Error Account
  assert_writable_account none = throw account_not_found
  assert_writable_account (some a) = if is_some a.deleted_at then throw account_deleted else pure a

  -- `updateMany({ where: { id, status: "active" }, data: { status } })`, and whether it found one.
  unfoldable pub transition_hold : String → HoldStatus → Store T → Bool × Store T
  transition_hold id status s = elim (find_hold id s) [
    | none ↦ (false, s)
    | some h ↦
        if is_active h.status then (true, put_hold (record h { status = status }) s) else (false, s)
  ]

  -- Returns `returned` to the buckets, clamped, and takes the hold out of `heldMicros`.
  unfoldable pub apply_bucket_return : String → Buckets → ℤ → Tx (Store T) Error Account
  apply_bucket_return account_id returned held_decrement s = elim (find_account account_id s) [
    | none ↦ err account_not_found
    | some acct ↦
        let next = credit_back (buckets_of acct) returned (allowances_of acct) in
        let account = record (with_buckets acct next) {
          held_micros = acct.held_micros -ℤ held_decrement;
        } in
        ok (account, put_account account s)
  ]
