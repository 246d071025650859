-- ===== src/Credit/Repository/Holds.antt =====
-- `holdCredits`, `captureHold`, `releaseHold` and `sweepExpiredHolds`.
use Prim.Native.String
use kokoro_platform.Base.{
  ℕ, ◌+◌, String, Bool, true, false, ◌&&◌, Option, none, some, ◌==◌, List, [], ◌∷◌, map, ltb, not,
  if◌then◌else◌,
}
use kokoro_platform.Base.Int.{pos, ◌+ℤ◌, ◌-ℤ◌, ltb_ℤ}
use kokoro_platform.Base.Effect.{ok, err, Tx, Action}
use kokoro_platform.Base.Effect.Transaction.{
  pure, throw, gets, lift, modify, throw_if, or_throw, ◌>>=◌, ◌>>◌,
}
use kokoro_platform.Base.Effect.Async.{transaction}
use kokoro_platform.Credit.Types.{
  Hold, HoldStatus, captured, released, expired, UsageRecord, UsageStatus, HoldInput, CaptureInput,
  MutationResult, Error, insufficient_credit, hold_not_found, capture_exceeds_hold, hold_not_active,
  unique_conflict, record_missing,
}
use kokoro_platform.Credit.Amount.{parse_positive_bigint_string}
use kokoro_platform.Credit.Buckets.{available, debit}
use kokoro_platform.Credit.Store.{Tables, Store, Context}
use kokoro_platform.Credit.Repository.Rows.{
  is_active, buckets_of, reserved_of, refresh_row, with_buckets, with_reset, find_hold, put_account,
  hold_by_key, create_entry, create_hold, once, or_existing,
  find_existing_hold_after_unique_conflict, transition_hold, apply_bucket_return,
}
use kokoro_platform.Credit.Repository.Mutations.{debited, ledger_row, lock_spendable}

abbrev is_key : String → UsageRecord → Bool
is_key key u = elim u.idempotency_key [ none ↦ false | some k ↦ k == key ]

abbrev is_released : HoldStatus → Bool
is_released released = true
is_released _ = false

-- `expiresAt: { lt: now }`, which no hold without a date meets.
abbrev pub expires_before : ℕ → Option ℕ → Bool
expires_before now none = false
expires_before now (some t) = ltb t now

abbrev pub is_expired : ℕ → Hold → Bool
is_expired now h = is_active h.status && expires_before now h.expires_at

module _ (T : Tables) where
  -- `transition.count === 0` is the flag that `transition_hold` returns.
  unfoldable pub set_status : String → HoldStatus → Tx (Store T) Error Bool
  unfolding transition_hold
  set_status id status s = ok (transition_hold T id status s)

  unfoldable pub create_usage : UsageRecord → Tx (Store T) Error (Unit {0})
  create_usage u s = elim u.idempotency_key [
    | none ↦ ok (tt, record s { usages = T.usages.put u s.usages })
    | some key ↦ elim (T.usages.find_first (is_key key) (λ _. 0) s.usages) [
      | some _ ↦ err unique_conflict
      | none ↦ ok (tt, record s { usages = T.usages.put u s.usages })
    ]
  ]

  module _ (ctx : Context) where
    unfoldable pub hold_body : HoldInput → Tx (Store T) Error Hold
    unfolding lock_spendable
    hold_body input = do
      amount ← lift (parse_positive_bigint_string input.amount_micros)
      row ← lock_spendable T ctx input.account_id
      let fresh = refresh_row row ctx.now
      let d = debit fresh.buckets amount
      throw_if (ltb_ℤ (pos 0) d.shortfall) insufficient_credit
      let account = with_reset (with_buckets row (debited fresh.buckets d)) fresh
      modify (put_account T (record account { held_micros = row.held_micros +ℤ amount }))
      create_hold T (record {
        id = ctx.hold_id;
        account_id = input.account_id;
        amount_micros = amount;
        reserved_daily_micros = d.daily;
        reserved_period_micros = d.period;
        reserved_permanent_micros = d.permanent;
        status = HoldStatus.active;
        idempotency_key = input.idempotency_key;
        expires_at = input.expires_at;
        feature_key = input.feature_key;
        label_key = input.label_key;
        model_binding_id = input.model_binding_id;
        request_id = input.request_id;
        created_at = ctx.now;
      })

    unfoldable pub hold_credits : HoldInput → Action (Store T) Error Hold
    hold_credits input = find_existing_hold_after_unique_conflict T input.idempotency_key (
        transaction do
          existing ← gets (hold_by_key T input.idempotency_key)
          or_existing existing (hold_body input))

    -- Of the reserved amount `actual` is spent, in the order of the buckets; the rest goes back.
    unfoldable pub capture_body : CaptureInput → Tx (Store T) Error MutationResult
    unfolding set_status create_usage
    capture_body input = do
      actual ← lift (parse_positive_bigint_string input.actual_amount_micros)
      hold ← or_throw (← gets (find_hold T input.hold_id)) hold_not_found
      throw_if (not (is_active hold.status)) (hold_not_active hold.status)
      throw_if (ltb_ℤ hold.amount_micros actual) capture_exceeds_hold
      transitioned ← set_status hold.id captured
      throw_if (not transitioned) (hold_not_active captured)
      let reserved = reserved_of hold
      let spent = debit reserved actual
      account ← apply_bucket_return T hold.account_id (debited reserved spent) hold.amount_micros
      entry ← create_entry T (
          ledger_row T ctx account.id (pos 0 -ℤ actual) (available (buckets_of account))
            input.reason input.idempotency_key input.request_id)
      create_usage (record {
        id = ctx.usage_id;
        account_id = some account.id;
        feature_key = input.feature_key;
        amount_micros = actual;
        model_binding_id = input.model_binding_id;
        request_id = input.request_id;
        idempotency_key = some (String.◌++◌ input.idempotency_key ":usage");
        status = UsageStatus.settled;
        created_at = ctx.now;
      })
      pure (record { account = account; entry = entry })

    unfoldable pub capture_hold : CaptureInput → Action (Store T) Error MutationResult
    capture_hold input = once T input.idempotency_key (capture_body input)

  -- The hold lost the race: what became of it decides.
  unfoldable pub lost_release : String → Tx (Store T) Error Hold
  lost_release id = do
    current ← or_throw (← gets (find_hold T id)) record_missing
    if is_released current.status then pure current else throw (hold_not_active current.status)

  unfoldable pub release_active : Hold → Tx (Store T) Error Hold
  unfolding set_status lost_release
  release_active hold = do
    transitioned ← set_status hold.id released
    let settle = do
      apply_bucket_return T hold.account_id (reserved_of hold) hold.amount_micros
      or_throw (← gets (find_hold T hold.id)) record_missing
    if not transitioned then lost_release hold.id else settle

  unfoldable pub release_body : String → Tx (Store T) Error Hold
  unfolding release_active
  release_body hold_id = do
    hold ← or_throw (← gets (find_hold T hold_id)) hold_not_found
    if is_released hold.status
        then pure hold
        else if not (is_active hold.status)
        then throw (hold_not_active hold.status)
        else release_active hold

  unfoldable pub release_hold : String → Action (Store T) Error Hold
  release_hold hold_id = transaction (release_body hold_id)

  unfoldable pub reclaim_active : String → Hold → Tx (Store T) Error Bool
  unfolding set_status
  reclaim_active hold_id hold = do
    transitioned ← set_status hold_id expired
    let settle = do
      apply_bucket_return T hold.account_id (reserved_of hold) hold.amount_micros
      pure true
    if not transitioned then pure false else settle

  -- Something else may have settled the hold since the scan.
  unfoldable pub reclaim_body : String → ℕ → Tx (Store T) Error Bool
  unfolding reclaim_active
  reclaim_body hold_id now s = elim (find_hold T hold_id s) [
    | none ↦ ok (false, s)
    | some hold ↦ if is_expired now hold then reclaim_active hold_id hold s else ok (false, s)
  ]

  unfoldable pub reclaim_expired_hold : String → ℕ → Action (Store T) Error Bool
  reclaim_expired_hold hold_id now = transaction (reclaim_body hold_id now)

  -- `for (const { id } of expired)`, with the count so far.
  unfoldable pub reclaim_all : ℕ → ℕ → List String → Action (Store T) Error ℕ
  reclaim_all now reclaimed [] s = (ok reclaimed, s)
  reclaim_all now reclaimed (id ∷ ids) s =
      let (r, s') = reclaim_expired_hold id now s in
      elim r [
        | ok won ↦ reclaim_all now (if won then reclaimed + 1 else reclaimed) ids s'
        | err e ↦ (err e, s')
      ]

  unfoldable pub sweep_expired_holds : ℕ → Action (Store T) Error ℕ
  sweep_expired_holds now s =
      reclaim_all now 0 (map (λ h. h.id) (T.holds.find_many (is_expired now) s.holds)) s
