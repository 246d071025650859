-- ===== src/Credit/Tests/Witnesses.antt =====
-- The theorems on kokoro-credit at concrete inputs.
use mathlib.Core.Path.{subst, sym}
use kokoro_platform.Base.{
  ℕ, String, ◌+◌, ◌%◌, ◌⊎◌, ◌↔◌, ◌≤◌, ◌<◌, ◌≡◌, refl, false, some, none, arith,
}
use kokoro_platform.Base.Int.{pos, pos_part, ltb_ℤ, ◌≤ℤ◌, ◌<ℤ◌, ◌-ℤ◌, ◌+ℤ◌}
use kokoro_platform.Base.Effect.{ok, err}
use kokoro_platform.Base.Decimal.{parse_digits}
use kokoro_platform.Credit.Types.{
  Account, Hold, HoldStatus, captured, MutationResult, Reason, insufficient_credit,
}
use kokoro_platform.Credit.Amount.{
  ceil_to_credit_micros_bounds, ceil_to_credit_micros, micros_per_credit,
  parse_positive_bigint_string,
}
use kokoro_platform.Credit.Buckets.{Buckets, Allowances, available, debit, refresh, credit_back}
use kokoro_platform.Credit.Buckets.Laws.{
  IsNonneg, IsDebit, wanted, debit-IsDebit, debit_covered, IsReturned, credit_back-IsReturned,
}
use kokoro_platform.Base.Calendar.{start_of_day, start_of_month}
use kokoro_platform.Credit.Boundary.{is_stale, daily_boundary, period_boundary}
use kokoro_platform.Credit.Store.{Store}
use kokoro_platform.Credit.Repository.Rows.{
  put_account, put_hold, entry_by_key, find_hold, find_account, reserved_of, buckets_of,
  refresh_row, once, find_existing_entry_after_unique_conflict, find_existing_entry,
  assert_writable_account, create_entry, transition_hold, apply_bucket_return,
}
use kokoro_platform.Credit.Repository.Mutations.{
  ledger_row, grant_body, grant_credits, spend_credits,
}
use kokoro_platform.Credit.Repository.Holds.{
  hold_body, hold_credits, capture_body, create_usage, set_status, capture_hold,
  sweep_expired_holds, is_expired,
}
use kokoro_platform.Credit.Repository.Accounts.{ensure_account}
use kokoro_platform.Credit.Machine.{here, next, ensure, grant, hold, capture, IsEmpty}
use kokoro_platform.Credit.Mutation.{Mutation, run}
use kokoro_platform.Credit.Tests.{
  tables, nothing, noon, context, later, owner, account, funded, spend_input, grant_input,
  hold_input, capture_input, held,
}
use kokoro_platform.Credit.Proofs.Invariant.{IsSound, IsWellFormed, put_account-IsWellFormed}
use kokoro_platform.Credit.Proofs.Mutations.{granted as granted_account, current, charged}
use kokoro_platform.Credit.Proofs.Holds.{new_hold, held_account, settled, unspent, with_status}
use kokoro_platform.Credit.Proofs.Replay.{run-run, hold_credits-hold_credits}
use kokoro_platform.Credit.Proofs.Spend.{
  hold_body_covered, spend_credits_decides, hold_credits_decides,
}
use kokoro_platform.Credit.Proofs.Preserve.Holds.{hold_body-IsWellFormed}
use kokoro_platform.Credit.Proofs.HoldOnce.{hold_credits_new}
use kokoro_platform.Credit.Proofs.Capture.{Gains, capture_hold_settles}
use kokoro_platform.Credit.Proofs.Sweep.{sweep_expired_holds_clears}
use kokoro_platform.Credit.Proofs.Usage.{IsHoldAmount, hold_amount_bounds, settle_amount_bounds}
use kokoro_platform.Credit.Service.{
  default_run_billing_config, apply_buffer_percent, hold_amount, settle_amount,
}
use kokoro_platform.Credit.Proofs.Reach.{empty-IsWellFormed, reachable-IsWellFormed}
use kokoro_platform.Credit.Proofs.Carries.{Follows}
use kokoro_platform.Credit.Proofs.Lifecycle.{grant_credits-holds, Reach-Carries}
use kokoro_platform.Credit.Proofs.Preserve.Settle.{hold_credits-IsWellFormed}

abbrev some_buckets : Buckets
some_buckets = record { daily = pos 500; period = pos 0; permanent = pos 20_000 }

abbrev some_allowances : Allowances
some_allowances = record { daily = pos 500; period = pos 0 }

some_buckets-IsNonneg : IsNonneg some_buckets
some_buckets-IsNonneg = record {
  daily = omega arith;
  period = omega arith;
  permanent = omega arith;
}

debit-IsDebit_example : IsDebit some_buckets (pos 700) (debit some_buckets (pos 700))
debit-IsDebit_example = debit-IsDebit some_buckets (pos 700) some_buckets-IsNonneg

nothing-IsEmpty : IsEmpty tables nothing
nothing-IsEmpty = record { no_accounts = λ id. refl; no_holds = λ id. refl }

account-IsSound : IsSound account
account-IsSound = record {
  buckets = record { daily = omega arith; period = omega arith; permanent = omega arith };
  allowances = record { daily = omega arith; period = omega arith };
  within = record { daily = omega arith; period = omega arith };
}

funded-IsWellFormed : IsWellFormed tables funded
funded-IsWellFormed =
    put_account-IsWellFormed tables account nothing
      (empty-IsWellFormed tables nothing nothing-IsEmpty) account-IsSound refl

held-IsWellFormed : IsWellFormed tables held
held-IsWellFormed =
    hold_credits-IsWellFormed tables context hold_input funded funded-IsWellFormed refl

abbrev opened : Store tables
opened = (ensure_account tables context owner nothing).1

abbrev granted : Store tables
granted = (grant_credits tables context grant_input opened).1

opened_holds : find_hold tables "hold-1" opened ≡ none
unfolding ensure_account
opened_holds = refl

granted_holds : find_hold tables "hold-1" granted ≡ none
granted_holds =
    subst (λ h. tables.holds.find_unique "hold-1" h ≡ none)
      (sym (grant_credits-holds tables context grant_input opened)) opened_holds

parsed_700 : parse_positive_bigint_string "700" ≡ ok (pos 700)
unfolding parse_positive_bigint_string parse_digits
parsed_700 = refl

reachable-IsWellFormed_example :
    IsWellFormed tables (hold_credits tables context hold_input granted).1
reachable-IsWellFormed_example =
    reachable-IsWellFormed tables nothing (hold_credits tables context hold_input granted).1
      nothing-IsEmpty
      (next (next (next here (ensure context owner refl)) (grant context grant_input))
        (hold context hold_input granted_holds))

abbrev grant_result : MutationResult
grant_result = record {
  account = granted_account account (pos 30_000);
  entry =
      ledger_row tables context "account-1" (pos 30_000) (pos 50_000) Reason.model_call "key-0"
        none;
}

abbrev granted_store : Store tables
granted_store = record (put_account tables grant_result.account funded) {
  entries = tables.entries.put grant_result.entry funded.entries;
}

grant_done :
    run tables context (Mutation.grant grant_input) funded ≡ (ok grant_result, granted_store)
unfolding run grant_credits once find_existing_entry_after_unique_conflict find_existing_entry
    grant_body assert_writable_account create_entry parse_positive_bigint_string parse_digits ◌+ℤ◌
grant_done = refl

run-run_example :
    run tables later
      (Mutation.spend (record spend_input { idempotency_key = "key-0" }))
      granted_store
    ≡ (ok grant_result, granted_store)
run-run_example =
    run-run tables context later (Mutation.grant grant_input)
      (Mutation.spend (record spend_input { idempotency_key = "key-0" })) funded granted_store
      grant_result refl grant_done

abbrev frozen_hold : Hold
frozen_hold = new_hold tables context hold_input account (pos 10_000)

abbrev frozen_store : Store tables
frozen_store =
    put_hold tables frozen_hold
      (put_account tables (held_account tables context account (pos 10_000)) funded)

parsed_10000 : parse_positive_bigint_string "10000" ≡ ok (pos 10_000)
unfolding parse_positive_bigint_string parse_digits
parsed_10000 = refl

covered_10000 :
    ltb_ℤ (pos 0) (debit (current tables context account) (pos 10_000)).shortfall ≡ false
unfolding debit refresh_row refresh ◌-ℤ◌ is_stale daily_boundary start_of_day period_boundary
    start_of_month
covered_10000 = refl

hold_done : hold_body tables context hold_input funded ≡ ok (frozen_hold, frozen_store)
hold_done =
    hold_body_covered tables context hold_input funded account (pos 10_000) parsed_10000 refl refl
      refl refl covered_10000

frozen_store-IsWellFormed : IsWellFormed tables frozen_store
frozen_store-IsWellFormed =
    hold_body-IsWellFormed tables context hold_input funded frozen_store frozen_hold
      funded-IsWellFormed refl hold_done

abbrev capture_result : MutationResult
capture_result =
    let a =
      settled (held_account tables context account (pos 10_000)) (unspent frozen_hold (pos 800))
        (pos 10_000) in
    record {
      account = a;
      entry =
          ledger_row tables later "account-1" (pos 0 -ℤ pos 800) (available (buckets_of a))
            Reason.model_call "key-3" none;
    }

parsed_800 : parse_positive_bigint_string "800" ≡ ok (pos 800)
unfolding parse_positive_bigint_string parse_digits
parsed_800 = refl

capture_done :
    capture_hold tables later capture_input frozen_store
    ≡ (ok capture_result, (capture_hold tables later capture_input frozen_store).1)
unfolding capture_hold once find_existing_entry_after_unique_conflict find_existing_entry
    capture_body create_entry create_usage set_status transition_hold apply_bucket_return
    parse_positive_bigint_string parse_digits
capture_done = refl

spend_credits_decides_example :
    let b = current tables context account in
    let a = charged tables context account (pos 700) in
    let e =
      ledger_row tables context "account-1"
        (pos 0 -ℤ pos 700)
        (available b -ℤ pos 700)
        Reason.model_call
        "key-1"
        none in
    ((pos 700 ≤ℤ available b)
      × (available (buckets_of a) ≡ available b -ℤ pos 700)
      × (a.held_micros ≡ pos 0)
      × (spend_credits tables context spend_input funded ≡ (
        ok (record { account = a; entry = e }),
        record funded {
          accounts = tables.accounts.put a funded.accounts;
          entries = tables.entries.put e funded.entries;
        },
      )))
    ⊎ ((available b <ℤ pos 700)
        × (spend_credits tables context spend_input funded ≡ (err insufficient_credit, funded)))
spend_credits_decides_example =
    spend_credits_decides tables context spend_input funded account 700 funded-IsWellFormed refl
      parsed_700 refl refl refl

hold_credits_decides_example :
    let b = current tables context account in
    ((pos 10_000 ≤ℤ available b)
      × (available (buckets_of (held_account tables context account (pos 10_000)))
          ≡ available b -ℤ pos 10_000)
      × (available (reserved_of frozen_hold) ≡ pos 10_000)
      × (hold_credits tables context hold_input funded ≡ (ok frozen_hold, frozen_store)))
    ⊎ ((available b <ℤ pos 10_000)
        × (hold_credits tables context hold_input funded ≡ (err insufficient_credit, funded)))
hold_credits_decides_example =
    hold_credits_decides tables context hold_input funded account 10_000 funded-IsWellFormed refl
      parsed_10000 refl refl refl

hold_credits-hold_credits_example :
    hold_credits tables later (record hold_input { amount_micros = "1" }) frozen_store
    ≡ (ok frozen_hold, frozen_store)
hold_credits-hold_credits_example =
    hold_credits-hold_credits tables context later hold_input
      (record hold_input { amount_micros = "1" }) funded frozen_store frozen_hold refl
      (hold_credits_new tables context hold_input funded frozen_store frozen_hold refl hold_done)

capture_hold_settles_example :
    (n : ℕ) × (h : Hold) × (acct : Account) × (parse_positive_bigint_string "800" ≡ ok (pos n))
    × (find_hold tables "hold-1" frozen_store ≡ some h)
    × (h.status ≡ HoldStatus.active)
    × (find_account tables h.account_id frozen_store ≡ some acct)
    × (ltb_ℤ h.amount_micros (pos n) ≡ false)
    × (find_hold tables "hold-1" (capture_hold tables later capture_input frozen_store).1
        ≡ some (with_status h captured))
    × (entry_by_key tables capture_input.idempotency_key
          (capture_hold tables later capture_input frozen_store).1
        ≡ some capture_result.entry)
    × (find_account tables h.account_id (capture_hold tables later capture_input frozen_store).1
        ≡ some capture_result.account)
    × (capture_result.entry.account_id ≡ h.account_id)
    × (capture_result.entry.amount_micros ≡ pos 0 -ℤ pos n)
    × (capture_result.account.held_micros ≡ acct.held_micros -ℤ h.amount_micros)
    × Gains acct capture_result.account (h.amount_micros -ℤ pos n)
capture_hold_settles_example =
    capture_hold_settles tables later capture_input frozen_store
      (capture_hold tables later capture_input frozen_store).1 capture_result
      frozen_store-IsWellFormed refl capture_done

Reach-Carries_example :
    (h : Hold) × (find_hold tables "hold-1" (capture_hold tables later capture_input frozen_store).1
      ≡ some h)
    × Follows frozen_hold h
Reach-Carries_example =
    Reach-Carries tables "hold-1" frozen_hold (next here (capture later capture_input)) refl

sweep_expired_holds_clears_example :
    (total : ℕ) × ((sweep_expired_holds tables (noon + 1000) frozen_store).0 ≡ ok total)
    × ((id : String) (h : Hold)
        → find_hold tables id (sweep_expired_holds tables (noon + 1000) frozen_store).1 ≡ some h
        → is_expired (noon + 1000) h ≡ false)
sweep_expired_holds_clears_example =
    sweep_expired_holds_clears tables (noon + 1000) frozen_store frozen_store-IsWellFormed

debit_covered_example :
    ((debit some_buckets (pos 700)).shortfall ≡ pos 0)
    ↔ (wanted (pos 700) ≤ℤ available some_buckets)
debit_covered_example = debit_covered some_buckets (pos 700) some_buckets-IsNonneg

credit_back-IsReturned_example :
    IsReturned some_buckets some_buckets some_allowances
      (credit_back some_buckets some_buckets some_allowances)
credit_back-IsReturned_example =
    credit_back-IsReturned some_buckets some_buckets some_allowances some_buckets-IsNonneg
      some_buckets-IsNonneg (record { daily = omega arith; period = omega arith })

hold_amount_bounds_example :
    IsHoldAmount
      (apply_buffer_percent (pos 12_345) 20)
      (hold_amount default_run_billing_config (pos 12_345))
hold_amount_bounds_example = hold_amount_bounds default_run_billing_config (pos 12_345)

settle_amount_bounds_example :
    let n = pos_part (settle_amount (pos 12_345) (pos 20_000)) in
    (settle_amount (pos 12_345) (pos 20_000) ≡ pos n)
    × (n ≤ 20_000)
    × (20_000 % micros_per_credit ≡ 0 → n % micros_per_credit ≡ 0)
    × ((pos 12_345 ≤ℤ pos n) ⊎ (n ≡ 20_000))
    × (n ≡ 0 → (pos_part (pos 12_345) ≡ 0) ⊎ (pos_part (pos 20_000) ≡ 0))
settle_amount_bounds_example = settle_amount_bounds (pos 12_345) 20_000

ceil_to_credit_micros_bounds_example :
    let n = pos_part (ceil_to_credit_micros (pos 12_345)) in
    (ceil_to_credit_micros (pos 12_345) ≡ pos n)
    × (n % micros_per_credit ≡ 0)
    × (12_345 ≤ n)
    × (n < 12_345 + micros_per_credit)
    × (n ≡ 0 → pos_part (pos 12_345) ≡ 0)
ceil_to_credit_micros_bounds_example = ceil_to_credit_micros_bounds (pos 12_345)
