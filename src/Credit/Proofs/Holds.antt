-- ===== src/Credit/Proofs/Holds.antt =====
-- What the bodies of `holdCredits`, `captureHold`, `releaseHold` and the reclaiming of an expired
-- hold have done where they return.
use mathlib.Core.Path.{subst}
use kokoro_platform.Base.{
  ℕ, String, ◌≡◌, sym, inl, inr, ◌⊎◌, ◌≢◌, Bool, true, false, some, arith, Option-cases, Bool-cases,
}
use kokoro_platform.Base.Int.{ℤ, pos, ◌+ℤ◌, ◌-ℤ◌, ltb_ℤ}
use kokoro_platform.Base.Effect.{ok, Result-cases}
use kokoro_platform.Credit.Types.{
  Account, Hold, HoldStatus, captured, released, expired, HoldInput, CaptureInput, MutationResult,
}
use kokoro_platform.Credit.Amount.{parse_positive_bigint_string}
use kokoro_platform.Credit.Buckets.{Buckets, available, debit, credit_back}
use kokoro_platform.Credit.Store.{Tables, Store, Context}
use kokoro_platform.Credit.Repository.Rows.{
  buckets_of, allowances_of, reserved_of, with_buckets, find_account, find_hold, put_account,
  put_hold, create_entry, create_hold, apply_bucket_return,
}
use kokoro_platform.Credit.Repository.Mutations.{debited, ledger_row}
use kokoro_platform.Credit.Repository.Holds.{
  hold_body, capture_body, release_body, reclaim_body, is_expired,
}
use kokoro_platform.Credit.Proofs.Mutations.{current, charged, CanSpend}

-- The account after `returned` has come back to its buckets and `amount` out of what it holds.
abbrev pub settled : Account → Buckets → ℤ → Account
settled acct returned amount =
    record (with_buckets acct (credit_back (buckets_of acct) returned (allowances_of acct))) {
      held_micros = acct.held_micros -ℤ amount;
    }

-- What a capture of `actual` gives back.
abbrev pub unspent : Hold → ℤ → Buckets
unspent hold actual = debited (reserved_of hold) (debit (reserved_of hold) actual)

abbrev pub with_status : Hold → HoldStatus → Hold
with_status h status = record h { status = status }

module _ (T : Tables) where
  -- The hold and its account that a settlement to `status` finds and writes.
  abbrev pub Settles : String → HoldStatus → Buckets → Hold → Account → Store T → Store T → Type 0
  Settles id status returned hold acct s s' =
      (find_hold T id s ≡ some hold)
      × (hold.status ≡ HoldStatus.active)
      × (find_account T hold.account_id s ≡ some acct)
      × (s'.holds ≡ T.holds.put (with_status hold status) s.holds)
      × (s'.accounts ≡ T.accounts.put (settled acct returned hold.amount_micros) s.accounts)

  pub same_hold :
      (id : String) (s : Store T) (h : Hold)
      → find_hold T id s ≡ some h
      → find_hold T h.id s ≡ some h
  same_hold id s h found =
      subst (λ k. find_hold T k s ≡ some h) (sym (T.holds.find_unique-id id s.holds h found)) found

  module _ (ctx : Context) where
    abbrev pub held_account : Account → ℤ → Account
    held_account row amount = record (charged T ctx row amount) {
      held_micros = row.held_micros +ℤ amount;
    }

    abbrev pub new_hold : HoldInput → Account → ℤ → Hold
    new_hold input row amount =
        let d = debit (current T ctx row) amount in
        record {
          id = ctx.hold_id;
          account_id = input.account_id;
          amount_micros = amount;
          reserved_daily_micros = d.daily;
          reserved_period_micros = d.period;
          reserved_permanent_micros = d.permanent;
          status = HoldStatus.active;
          idempotency_key = input.idempotency_key;
          expires_at = input.expires_at;
          feature_key = input.feature_key;
          label_key = input.label_key;
          model_binding_id = input.model_binding_id;
          request_id = input.request_id;
          created_at = ctx.now;
        }

    pub hold_body_ok :
        (input : HoldInput) (s s' : Store T) (h : Hold)
        → hold_body T ctx input s ≡ ok (h, s')
        → (amount : ℤ) × (row : Account) × (parse_positive_bigint_string input.amount_micros
            ≡ ok amount)
          × (find_account T input.account_id s ≡ some row)
          × CanSpend T ctx row amount
          × (h ≡ new_hold input row amount)
          × (s' ≡ put_hold T h (put_account T (held_account row amount) s))
    unfolding hold_body create_hold
    hold_body_ok input s s' h e =
        elim (Result-cases (parse_positive_bigint_string input.amount_micros)) [
          | inr (_, bad) ↦ ground arith
          | inl (amount, parsed) ↦ elim (Option-cases (find_account T input.account_id s)) [
            | inl absent ↦ ground arith
            | inr (row, found) ↦ (
              amount,
              row,
              parsed,
              found,
              (ground arith, ground arith, ground arith),
              ground arith,
              ground arith,
            )
          ]
        ]

    pub capture_body_ok :
        (input : CaptureInput) (s s' : Store T) (r : MutationResult)
        → capture_body T ctx input s ≡ ok (r, s')
        → (actual : ℤ) × (hold : Hold) × (acct : Account) × (parse_positive_bigint_string
              input.actual_amount_micros
            ≡ ok actual)
          × (ltb_ℤ hold.amount_micros actual ≡ false)
          × Settles input.hold_id captured (unspent hold actual) hold acct s s'
          × (r.account ≡ settled acct (unspent hold actual) hold.amount_micros)
          × (r.entry
              ≡ ledger_row T ctx acct.id
                  (pos 0 -ℤ actual)
                  (available (buckets_of r.account))
                  input.reason
                  input.idempotency_key
                  input.request_id)
          × (s'.entries ≡ T.entries.put r.entry s.entries)
    unfolding capture_body create_entry apply_bucket_return
    capture_body_ok input s s' r e =
        elim (Result-cases (parse_positive_bigint_string input.actual_amount_micros)) [
          | inr (_, bad) ↦ ground arith
          | inl (actual, parsed) ↦ elim (Option-cases (find_hold T input.hold_id s)) [
            | inl absent ↦ ground arith
            | inr (hold, found) ↦
                let again = same_hold input.hold_id s hold found in
                elim (Option-cases (find_account T hold.account_id s)) [
                  | inl lost ↦ ground arith
                  | inr (acct, owner) ↦ (
                    actual,
                    hold,
                    acct,
                    parsed,
                    ground arith,
                    (found, ground arith, owner, ground arith, ground arith),
                    ground arith,
                    ground arith,
                    ground arith,
                  )
                ]
          ]
        ]

  abbrev pub Released : String → Hold → Store T → Store T → Type 0
  Released id h s s' =
      ((find_hold T id s ≡ some h) × (h.status ≡ released) × (s' ≡ s))
      ⊎ ((hold : Hold) × (acct : Account) × Settles id released (reserved_of hold) hold acct s s'
          × (h ≡ with_status hold released)
          × (s'.entries ≡ s.entries))

  pub release_body_ok :
      (id : String) (s s' : Store T) (h : Hold)
      → release_body T id s ≡ ok (h, s')
      → Released id h s s'
  unfolding release_body apply_bucket_return
  release_body_ok id s s' h e = elim (Option-cases (find_hold T id s)) [
    | inl absent ↦ ground arith
    | inr (hold, found) ↦
        let again = same_hold id s hold found in
        let after = T.holds.find_unique-put_self (with_status hold released) s.holds in
        elim (Option-cases (find_account T hold.account_id s)) [
          | inl lost ↦ inl (ground arith)
          | inr (acct, owner) ↦ elim (status_cases hold) [
            | inl active ↦ inr (
              hold,
              acct,
              (found, active, owner, ground arith, ground arith),
              ground arith,
              ground arith,
            )
            | inr other ↦ inl (ground arith)
          ]
        ]
  ]
    where
      status_cases : (h : Hold) → (h.status ≡ HoldStatus.active) ⊎ (h.status ≢ HoldStatus.active)
      status_cases h = ground arith

  -- Where nothing was won nothing has changed.
  abbrev pub Reclaimed : String → ℕ → Bool → Store T → Store T → Type 0
  Reclaimed id now won s s' =
      ((won ≡ false) × (s' ≡ s))
      ⊎ ((hold : Hold) × (acct : Account) × (won ≡ true)
          × (is_expired now hold ≡ true)
          × Settles id expired (reserved_of hold) hold acct s s'
          × (s'.entries ≡ s.entries))

  pub reclaim_body_ok :
      (id : String) (now : ℕ) (s s' : Store T) (won : Bool)
      → reclaim_body T id now s ≡ ok (won, s')
      → Reclaimed id now won s s'
  unfolding reclaim_body apply_bucket_return
  reclaim_body_ok id now s s' won e = elim (Option-cases (find_hold T id s)) [
    | inl absent ↦ inl (ground arith)
    | inr (hold, found) ↦ elim (Bool-cases (is_expired now hold)) [
      | inr live ↦ inl (ground arith)
      | inl due ↦ elim (Option-cases (find_account T hold.account_id s)) [
        | inl lost ↦ ground arith
        | inr (acct, owner) ↦ inr (
          hold,
          acct,
          ground arith,
          due,
          (found, ground arith, owner, ground arith, ground arith),
          ground arith,
        )
      ]
    ]
  ]
