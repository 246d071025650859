-- ===== src/Credit/Machine.antt =====
-- The calls of the repository of kokoro-credit as steps of the database, in any order. The database
-- gives a row that it creates an id that no row has.
use kokoro_platform.Base.{ℕ, String, ◌≡◌, Option, none}
use kokoro_platform.Credit.Types.{
  EnsureAccountInput, AmountInput, ResetInput, HoldInput, CaptureInput, DeleteInput, QuotaPeriod,
}
use kokoro_platform.Credit.Store.{Tables, Store, Context}
use kokoro_platform.Credit.Repository.Rows.{find_account, find_hold}
use kokoro_platform.Credit.Repository.Mutations.{grant_credits, spend_credits, reset_balance}
use kokoro_platform.Credit.Repository.Holds.{
  hold_credits, capture_hold, release_hold, sweep_expired_holds,
}
use kokoro_platform.Credit.Repository.Accounts.{
  ensure_account, refresh_allowances, delete_account, delete_account_update, restore_account,
  set_account_quota,
}

module _ (T : Tables) where
  pub data Step (s : Store T) : Store T → Type 0 where
    ensure :
        (ctx : Context) (input : EnsureAccountInput)
        → find_account T ctx.account_id s ≡ none
        → Step s (ensure_account T ctx input s).1
    grant : (ctx : Context) (input : AmountInput) → Step s (grant_credits T ctx input s).1
    spend : (ctx : Context) (input : AmountInput) → Step s (spend_credits T ctx input s).1
    reset : (ctx : Context) (input : ResetInput) → Step s (reset_balance T ctx input s).1
    hold :
        (ctx : Context) (input : HoldInput)
        → find_hold T ctx.hold_id s ≡ none
        → Step s (hold_credits T ctx input s).1
    capture : (ctx : Context) (input : CaptureInput) → Step s (capture_hold T ctx input s).1
    release : (id : String) → Step s (release_hold T id s).1
    sweep : (now : ℕ) → Step s (sweep_expired_holds T now s).1
    refresh : (id : String) (now : ℕ) → Step s (refresh_allowances T id now s).1
    delete : (now : ℕ) (input : DeleteInput) → Step s (delete_account T now input s).1
    -- The update of a deletion whose reads were done some steps before.
    delete_late : (now : ℕ) (input : DeleteInput) → Step s (delete_account_update T now input s).1
    restore : (id : String) → Step s (restore_account T id s).1
    set_quota :
        (id : String) (quota : Option String) (period : QuotaPeriod)
        → Step s (set_account_quota T id quota period s).1

  pub data Reach (s : Store T) : Store T → Type 0 where
    here : Reach s s
    next : {t u : Store T} → Reach s t → Step t u → Reach s u

  -- A database without accounts and holds.
  pub record IsEmpty (s : Store T) : Type 0 where
    pub no_accounts : (id : String) → find_account T id s ≡ none
    pub no_holds : (id : String) → find_hold T id s ≡ none
