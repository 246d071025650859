-- ===== src/Credit/Proofs/Spend.antt =====
-- `spendCredits` and `holdCredits` succeed exactly where the balance covers the amount.
use kokoro_platform.Base.{
  ◌≡◌, sym, refl, ◌⊎◌, inl, inr, Bool-cases, true, false, none, some, arith, ℕ,
}
use kokoro_platform.Base.Int.{ℤ, pos, ◌-ℤ◌, ◌≤ℤ◌, ◌<ℤ◌, ltb_ℤ, int_laws, parts_of_eq, lt_or_le}
use kokoro_platform.Base.Effect.{ok, err}
use kokoro_platform.Credit.Types.{
  Account, AccountStatus, AmountInput, HoldInput, insufficient_credit,
}
use kokoro_platform.Credit.Amount.{parse_positive_bigint_string}
use kokoro_platform.Credit.Buckets.{Buckets, available, debit}
use kokoro_platform.Credit.Buckets.Laws.{IsNonneg, debit-IsDebit, debit_covered, available-after}
use kokoro_platform.Credit.Store.{Tables, Store, Context}
use kokoro_platform.Credit.Repository.Rows.{
  buckets_of, reserved_of, find_account, entry_by_key, hold_by_key, put_account, put_hold,
  create_entry, create_hold, find_existing_hold_after_unique_conflict,
}
use kokoro_platform.Credit.Repository.Mutations.{
  ledger_row, lock_spendable, spend_body, spend_credits,
}
use kokoro_platform.Credit.Repository.Holds.{hold_body, hold_credits}
use kokoro_platform.Credit.Proofs.Once.{once_new, once_error}
use kokoro_platform.Credit.Proofs.HoldOnce.{hold_credits_new}
use kokoro_platform.Credit.Proofs.Invariant.{IsWellFormed}
use kokoro_platform.Credit.Proofs.Mutations.{current, charged}
use kokoro_platform.Credit.Proofs.Holds.{held_account, new_hold}
use kokoro_platform.Credit.Proofs.Balances.{
  current_sound, new_hold-IsSplit, no_shortfall, wanted-pos,
}

differ : (x : ℤ) → x ≡ pos 0 → ltb_ℤ (pos 0) x ≡ true → ⊥
differ x e h = ground arith

-- The test for a shortfall compares the amount with what is available.
pub shortfall_test :
    (b : Buckets) (n : ℕ)
    → IsNonneg b
    → ((ltb_ℤ (pos 0) (debit b (pos n)).shortfall ≡ false)
        × (pos n ≤ℤ available b)
        × (available b -ℤ pos n
            ≡ available (record {
              daily = b.daily -ℤ (debit b (pos n)).daily;
              period = b.period -ℤ (debit b (pos n)).period;
              permanent = b.permanent -ℤ (debit b (pos n)).permanent;
            })))
      ⊎ ((ltb_ℤ (pos 0) (debit b (pos n)).shortfall ≡ true) × (available b <ℤ pos n))
shortfall_test b n h =
    let k = debit-IsDebit b (pos n) h in
    let w = wanted-pos n in
    elim (Bool-cases (ltb_ℤ (pos 0) (debit b (pos n)).shortfall)) [
      | inl short ↦ elim (lt_or_le (available b) (pos n)) [
        | inl over ↦ inr (short, over)
        | inr fits ↦
            let none_short = (debit_covered b (pos n) h).1 (omega (int_laws, parts_of_eq w)) in
            absurd (differ _ none_short short)
      ]
      | inr covered ↦
          let none_short = no_shortfall _ k.shortfall_nonneg covered in
          let fits = (debit_covered b (pos n) h).0 none_short in
          let left = available-after b (pos n) h (omega arith) none_short in
          inl (covered, omega (int_laws, parts_of_eq w), omega (int_laws, parts_of_eq left))
    ]

module _ (T : Tables) (ctx : Context) where
  spend_body_covered :
      (input : AmountInput) (s : Store T) (row : Account) (amount : ℤ)
      → parse_positive_bigint_string input.amount_micros ≡ ok amount
      → find_account T input.account_id s ≡ some row
      → row.deleted_at ≡ none
      → row.status ≡ AccountStatus.active
      → entry_by_key T input.idempotency_key s ≡ none
      → ltb_ℤ (pos 0) (debit (current T ctx row) amount).shortfall ≡ false
      → let a = charged T ctx row amount in
        let e =
          ledger_row T ctx row.id
            (pos 0 -ℤ amount)
            (available (buckets_of a))
            input.reason
            input.idempotency_key
            input.request_id in
        spend_body T ctx input s
        ≡ ok (
          record { account = a; entry = e },
          record s { accounts = T.accounts.put a s.accounts; entries = T.entries.put e s.entries },
        )
  unfolding spend_body lock_spendable create_entry
  spend_body_covered input s row amount parsed found live active new covered = ground arith

  spend_body_short :
      (input : AmountInput) (s : Store T) (row : Account) (amount : ℤ)
      → parse_positive_bigint_string input.amount_micros ≡ ok amount
      → find_account T input.account_id s ≡ some row
      → row.deleted_at ≡ none
      → row.status ≡ AccountStatus.active
      → ltb_ℤ (pos 0) (debit (current T ctx row) amount).shortfall ≡ true
      → spend_body T ctx input s ≡ err insufficient_credit
  unfolding spend_body lock_spendable
  spend_body_short input s row amount parsed found live active short = ground arith

  pub hold_body_covered :
      (input : HoldInput) (s : Store T) (row : Account) (amount : ℤ)
      → parse_positive_bigint_string input.amount_micros ≡ ok amount
      → find_account T input.account_id s ≡ some row
      → row.deleted_at ≡ none
      → row.status ≡ AccountStatus.active
      → hold_by_key T input.idempotency_key s ≡ none
      → ltb_ℤ (pos 0) (debit (current T ctx row) amount).shortfall ≡ false
      → let h = new_hold T ctx input row amount in
        hold_body T ctx input s
        ≡ ok (h, put_hold T h (put_account T (held_account T ctx row amount) s))
  unfolding hold_body lock_spendable create_hold
  hold_body_covered input s row amount parsed found live active new covered = ground arith

  hold_body_short :
      (input : HoldInput) (s : Store T) (row : Account) (amount : ℤ)
      → parse_positive_bigint_string input.amount_micros ≡ ok amount
      → find_account T input.account_id s ≡ some row
      → row.deleted_at ≡ none
      → row.status ≡ AccountStatus.active
      → ltb_ℤ (pos 0) (debit (current T ctx row) amount).shortfall ≡ true
      → hold_body T ctx input s ≡ err insufficient_credit
  unfolding hold_body lock_spendable
  hold_body_short input s row amount parsed found live active short = ground arith

  -- Let the database be well formed, let the account be there, active and not deleted, let the
  -- amount be positive and the key new. If the refreshed buckets cover the amount, `spendCredits`
  -- returns the account with the amount taken from its buckets, so that exactly the amount less is
  -- available and what it holds is unchanged, and an entry of minus the amount that shows the sum
  -- then available; both are what the database has changed by. Otherwise it fails with
  -- `insufficient_credit` and changes nothing.
  pub spend_credits_decides :
      (input : AmountInput) (s : Store T) (row : Account) (n : ℕ)
      → IsWellFormed T s
      → entry_by_key T input.idempotency_key s ≡ none
      → parse_positive_bigint_string input.amount_micros ≡ ok (pos n)
      → find_account T input.account_id s ≡ some row
      → row.deleted_at ≡ none
      → row.status ≡ AccountStatus.active
      → let b = current T ctx row in
        let a = charged T ctx row (pos n) in
        let e =
          ledger_row T ctx row.id
            (pos 0 -ℤ pos n)
            (available b -ℤ pos n)
            input.reason
            input.idempotency_key
            input.request_id in
        ((pos n ≤ℤ available b)
          × (available (buckets_of a) ≡ available b -ℤ pos n)
          × (a.held_micros ≡ row.held_micros)
          × (spend_credits T ctx input s ≡ (
            ok (record { account = a; entry = e }),
            record s {
              accounts = T.accounts.put a s.accounts;
              entries = T.entries.put e s.entries;
            },
          )))
        ⊎ ((available b <ℤ pos n) × (spend_credits T ctx input s ≡ (err insufficient_credit, s)))
  unfolding spend_credits
  spend_credits_decides input s row n w new parsed found live active =
      let (nonneg, _, _) = current_sound T ctx row (w.accounts input.account_id row found) in
      elim (shortfall_test (current T ctx row) n nonneg) [
        | inl (covered, fits, left) ↦
            let ran = spend_body_covered input s row (pos n) parsed found live active new covered in
            inl (
              fits,
              sym left,
              refl,
              once_new T input.idempotency_key (spend_body T ctx input) s _ _ new (rw left ran),
            )
        | inr (short, over) ↦ inr (
          over,
          once_error T input.idempotency_key (spend_body T ctx input) s insufficient_credit new
              (spend_body_short input s row (pos n) parsed found live active short),
        )
      ]

  -- Under the same conditions `holdCredits` either takes the amount from the refreshed buckets,
  -- adds it to `heldMicros` and creates an active hold that reserves what it took of each bucket,
  -- or, where the buckets do not cover it, fails with `insufficient_credit` and changes nothing.
  pub hold_credits_decides :
      (input : HoldInput) (s : Store T) (row : Account) (n : ℕ)
      → IsWellFormed T s
      → hold_by_key T input.idempotency_key s ≡ none
      → parse_positive_bigint_string input.amount_micros ≡ ok (pos n)
      → find_account T input.account_id s ≡ some row
      → row.deleted_at ≡ none
      → row.status ≡ AccountStatus.active
      → let b = current T ctx row in
        let a = held_account T ctx row (pos n) in
        let h = new_hold T ctx input row (pos n) in
        ((pos n ≤ℤ available b)
          × (available (buckets_of a) ≡ available b -ℤ pos n)
          × (available (reserved_of h) ≡ pos n)
          × (hold_credits T ctx input s ≡ (ok h, put_hold T h (put_account T a s))))
        ⊎ ((available b <ℤ pos n) × (hold_credits T ctx input s ≡ (err insufficient_credit, s)))
  unfolding hold_credits find_existing_hold_after_unique_conflict
  hold_credits_decides input s row n w new parsed found live active =
      let sound = w.accounts input.account_id row found in
      let (nonneg, _, _) = current_sound T ctx row sound in
      elim (shortfall_test (current T ctx row) n nonneg) [
        | inl (covered, fits, left) ↦ inl (
          fits,
          sym left,
          sym (new_hold-IsSplit T ctx input row n sound covered).amount,
          hold_credits_new T ctx input s _ _ new
              (hold_body_covered input s row (pos n) parsed found live active new covered),
        )
        | inr (short, over) ↦
            let failed = hold_body_short input s row (pos n) parsed found live active short in
            inr (over, ground arith)
      ]
