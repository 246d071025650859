-- ===== src/Credit/Repository/Accounts.antt =====
-- `ensureAccount`, `refreshAllowances`, `deleteAccount`, `restoreAccount`, `setAccountQuota` and the
-- lookups of accounts and holds.
use kokoro_platform.Base.{
  ℕ, String, Bool, true, false, ◌&&◌, ◌||◌, Option, none, some, is_some, ◌==◌, if◌then◌else◌,
}
use kokoro_platform.Base.Int.{ℤ, pos, ltb_ℤ}
use kokoro_platform.Base.Effect.{ok, err, Action}
use kokoro_platform.Credit.Types.{
  Account, AccountStatus, OwnerKind, user, team, QuotaPeriod, Hold, EnsureAccountInput, DeleteInput,
  Error, account_not_found, account_deleted, active_hold_exists, lifecycle_not_found,
  invalid_amount,
}
use kokoro_platform.Base.Decimal.{parse_digits}
use kokoro_platform.Credit.Boundary.{daily_boundary, period_boundary, is_stale}
use kokoro_platform.Credit.Store.{Tables, Store, Context}
use kokoro_platform.Credit.Repository.Rows.{
  is_active, Fresh, refresh_row, find_account, find_hold, put_account,
}

abbrev same_kind : OwnerKind → OwnerKind → Bool
same_kind user user = true
same_kind team team = true
same_kind _ _ = false

-- `where: { siteId_ownerKind_ownerId }`, a unique key
abbrev pub is_owner : EnsureAccountInput → Account → Bool
is_owner input a =
    a.site_id == input.site_id
    && same_kind a.owner_kind input.owner_kind
    && a.owner_id == input.owner_id

-- `status: "active"` of one account's hold, as `count` sums it.
abbrev pub active_hold_of : String → Hold → ℤ
active_hold_of id h = if h.account_id == id && is_active h.status then pos 1 else pos 0

-- A row with the defaults of prisma/schema.prisma.
abbrev pub new_account : Context → EnsureAccountInput → Account
new_account ctx input = record {
  id = ctx.account_id;
  site_id = input.site_id;
  owner_kind = input.owner_kind;
  owner_id = input.owner_id;
  status = AccountStatus.active;
  balance_micros = pos 0;
  held_micros = pos 0;
  daily_micros = pos 0;
  daily_reset_on = none;
  period_micros = pos 0;
  period_reset_on = none;
  daily_allowance_micros = pos 0;
  period_allowance_micros = pos 0;
  quota_micros = none;
  quota_period = none;
  deleted_at = none;
  deleted_by = none;
  delete_reason = none;
  created_at = ctx.now;
}

-- `deletionData`, `restoreData`
abbrev pub deletion_data : ℕ → DeleteInput → Account → Account
deletion_data now input a = record a {
  deleted_at = some now;
  deleted_by = some input.deleted_by;
  delete_reason = input.reason;
}

abbrev pub restore_data : Account → Account
restore_data a = record a { deleted_at = none; deleted_by = none; delete_reason = none }

module _ (T : Tables) where
  -- `findUnique` by the owner
  abbrev pub account_by_owner : EnsureAccountInput → Store T → Option Account
  account_by_owner input s = T.accounts.find_first (is_owner input) (λ _. 0) s.accounts

  -- With whether the account is new.
  unfoldable pub ensure_account :
      Context → EnsureAccountInput → Action (Store T) Error (Account × Bool)
  ensure_account ctx input s = elim (account_by_owner input s) [
    | none ↦ let account = new_account ctx input in (ok (account, true), put_account T account s)
    | some existing ↦
        if is_some existing.deleted_at
        then (err account_deleted, s)
        else let account = record existing { status = AccountStatus.active } in
          (ok (account, false), put_account T account s)
  ]

  -- The time buckets of a row as a refresh writes them; the permanent one is not written.
  abbrev pub refreshed : Account → Fresh → Account
  refreshed row fresh = record row {
    daily_micros = fresh.buckets.daily;
    period_micros = fresh.buckets.period;
    daily_reset_on = some fresh.daily_reset_on;
    period_reset_on = some fresh.period_reset_on;
  }

  unfoldable pub refresh_allowances : String → ℕ → Action (Store T) Error Account
  refresh_allowances account_id now s = elim (find_account T account_id s) [
    | none ↦ (err account_not_found, s)
    | some row ↦
        if is_stale row.daily_reset_on (daily_boundary now)
          || is_stale row.period_reset_on (period_boundary now)
        then (let account = refreshed row (refresh_row row now) in
            (ok account, put_account T account s))
        else (ok row, s)
  ]

  -- `tx.creditHold.count({ where: { accountId, status: "active" } })`
  abbrev pub count_active_holds : String → Store T → ℤ
  count_active_holds id s = T.holds.aggregate (active_hold_of id) s.holds

  -- `tx.creditAccount.update` of `deleteAccount`, which the reads before it lock nothing for.
  unfoldable pub delete_account_update : ℕ → DeleteInput → Action (Store T) Error Account
  delete_account_update now input s = elim (find_account T input.id s) [
    | none ↦ (err lifecycle_not_found, s)
    | some row ↦ let account = deletion_data now input row in (ok account, put_account T account s)
  ]

  -- `deleteAccount` with nothing between its reads and its update.
  unfoldable pub delete_account : ℕ → DeleteInput → Action (Store T) Error Account
  unfolding delete_account_update
  delete_account now input s = elim (find_account T input.id s) [
    | none ↦ (err lifecycle_not_found, s)
    | some existing ↦
        if is_some existing.deleted_at
        then (ok existing, s)
        else if ltb_ℤ (pos 0) (count_active_holds input.id s)
        then (err active_hold_exists, s)
        else delete_account_update now input s
  ]

  unfoldable pub restore_account : String → Action (Store T) Error Account
  restore_account id s = elim (find_account T id s) [
    | none ↦ (err lifecycle_not_found, s)
    | some existing ↦
        if is_some existing.deleted_at
        then (let account = restore_data existing in (ok account, put_account T account s))
        else (ok existing, s)
  ]

  -- `BigInt(text)` throws on what is no integer; callers hand decimal digits over.
  unfoldable pub set_account_quota :
      String → Option String → QuotaPeriod → Action (Store T) Error Account
  set_account_quota account_id quota period s = elim (find_account T account_id s) [
    | none ↦ (err account_not_found, s)
    | some existing ↦
        if is_some existing.deleted_at then (err account_not_found, s) else elim quota [
          | none ↦
              let account = record existing { quota_micros = none; quota_period = none } in
              (ok account, put_account T account s)
          | some text ↦ elim (parse_digits text) [
            | none ↦ (err invalid_amount, s)
            | some n ↦
                let account = record existing {
                  quota_micros = some (pos n);
                  quota_period = some period;
                } in
                (ok account, put_account T account s)
          ]
        ]
  ]

  -- A deleted account counts as none.
  unfoldable pub find_active_account_by_owner : EnsureAccountInput → Store T → Option Account
  find_active_account_by_owner input s = elim (account_by_owner input s) [
    | none ↦ none
    | some a ↦ if is_some a.deleted_at then none else some a
  ]

  unfoldable pub get_account_by_id : String → Store T → Option Account
  get_account_by_id id s = find_account T id s

  unfoldable pub get_hold_by_id : String → Store T → Option Hold
  get_hold_by_id id s = find_hold T id s
