-- ===== src/Credit/Proofs/Reach.antt =====
-- What holds of the database of kokoro-credit whatever calls it has served.
use kokoro_platform.Base.{◌≡◌, Option, some, none, sym, ◌∙◌, arith}
use kokoro_platform.Credit.Store.{Tables, Store}
use kokoro_platform.Credit.Machine.{
  Step, ensure, grant, spend, reset, hold, capture, release, sweep, refresh, delete, delete_late,
  restore, set_quota, Reach, here, next, IsEmpty,
}
use kokoro_platform.Credit.Proofs.Invariant.{IsWellFormed}
use kokoro_platform.Credit.Proofs.Preserve.Ledger.{
  grant_credits-IsWellFormed, spend_credits-IsWellFormed, reset_balance-IsWellFormed,
}
use kokoro_platform.Credit.Proofs.Preserve.Holds.{capture_hold-IsWellFormed}
use kokoro_platform.Credit.Proofs.Preserve.Settle.{
  hold_credits-IsWellFormed, release_hold-IsWellFormed, sweep_expired_holds-IsWellFormed,
}
use kokoro_platform.Credit.Proofs.Preserve.Accounts.{
  ensure_account-IsWellFormed, refresh_allowances-IsWellFormed, delete_account-IsWellFormed,
  delete_account_update-IsWellFormed, restore_account-IsWellFormed, set_account_quota-IsWellFormed,
}

-- What is absent is not found.
cannot_be : {A B : Type 0} {o : Option A} {a : A} → o ≡ none → o ≡ some a → B
cannot_be absent found = ground (arith, sym absent ∙ found)

module _ (T : Tables) where
  Step-IsWellFormed : {s t : Store T} → Step T s t → IsWellFormed T s → IsWellFormed T t
  Step-IsWellFormed (ensure ctx input fresh) w = ensure_account-IsWellFormed T ctx input _ w fresh
  Step-IsWellFormed (grant ctx input) w = grant_credits-IsWellFormed T ctx input _ w
  Step-IsWellFormed (spend ctx input) w = spend_credits-IsWellFormed T ctx input _ w
  Step-IsWellFormed (reset ctx input) w = reset_balance-IsWellFormed T ctx input _ w
  Step-IsWellFormed (hold ctx input fresh) w = hold_credits-IsWellFormed T ctx input _ w fresh
  Step-IsWellFormed (capture ctx input) w = capture_hold-IsWellFormed T ctx input _ w
  Step-IsWellFormed (release id) w = release_hold-IsWellFormed T id _ w
  Step-IsWellFormed (sweep now) w = sweep_expired_holds-IsWellFormed T now _ w
  Step-IsWellFormed (refresh id now) w = refresh_allowances-IsWellFormed T id now _ w
  Step-IsWellFormed (delete now input) w = delete_account-IsWellFormed T now input _ w
  Step-IsWellFormed (delete_late now input) w = delete_account_update-IsWellFormed T now input _ w
  Step-IsWellFormed (restore id) w = restore_account-IsWellFormed T id _ w
  Step-IsWellFormed (set_quota id quota period) w =
      set_account_quota-IsWellFormed T id quota period _ w

  pub empty-IsWellFormed : (s : Store T) → IsEmpty T s → IsWellFormed T s
  empty-IsWellFormed s empty = record {
    accounts = λ id a found. cannot_be (empty.no_accounts id) found;
    holds = λ id h found. cannot_be (empty.no_holds id) found;
    owned = λ id h found. cannot_be (empty.no_holds id) found;
    held = λ id a found. cannot_be (empty.no_accounts id) found;
  }

  pub Reach-IsWellFormed : {s t : Store T} → Reach T s t → IsWellFormed T s → IsWellFormed T t
  Reach-IsWellFormed here w = w
  Reach-IsWellFormed (next r step) w = Step-IsWellFormed step (Reach-IsWellFormed r w)

  -- Whatever calls a database that starts without accounts and holds has served, and in whatever
  -- order, no bucket of an account is negative, no time bucket exceeds its allowance, `heldMicros`
  -- of an account is the sum of its active holds, each hold belongs to an account that is there,
  -- and its reserved parts make up its amount.
  pub reachable-IsWellFormed : (s t : Store T) → IsEmpty T s → Reach T s t → IsWellFormed T t
  reachable-IsWellFormed s t empty r = Reach-IsWellFormed r (empty-IsWellFormed s empty)
