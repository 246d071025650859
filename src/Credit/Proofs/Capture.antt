-- ===== src/Credit/Proofs/Capture.antt =====
-- What a capture charges and gives back.
use mathlib.Core.Path.{subst}
use kokoro_platform.Base.{ℕ, ◌≡◌, refl, sym, ap, ◌∙◌, inl, inr, none, some, arith, false}
use kokoro_platform.Base.Int.{ℤ, pos, ◌+ℤ◌, ◌-ℤ◌, ◌≤ℤ◌, ◌<ℤ◌, ltb_ℤ, int_laws, parts_of_eq}
use kokoro_platform.Base.Effect.{ok, Result-cases}
use kokoro_platform.Credit.Types.{Account, Hold, HoldStatus, captured, CaptureInput, MutationResult}
use kokoro_platform.Credit.Amount.{parse_positive_bigint_string, parse_positive_sound}
use kokoro_platform.Credit.Buckets.{available}
use kokoro_platform.Credit.Buckets.Laws.{credit_back-IsReturned}
use kokoro_platform.Credit.Store.{Tables, Store, Context}
use kokoro_platform.Credit.Repository.Rows.{
  buckets_of, allowances_of, reserved_of, find_account, find_hold, entry_by_key,
}
use kokoro_platform.Credit.Repository.Holds.{capture_body, capture_hold}
use kokoro_platform.Credit.Mutation.{capture, run}
use kokoro_platform.Credit.Proofs.Replay.{run-Shows}
use kokoro_platform.Credit.Proofs.Once.{once_new, once_error}
use kokoro_platform.Credit.Proofs.Invariant.{IsWellFormed, IsSound, IsSplit}
use kokoro_platform.Credit.Proofs.Holds.{settled, unspent, with_status, capture_body_ok}
use kokoro_platform.Credit.Proofs.Balances.{unspent-IsNonneg}
use kokoro_platform.Credit.Proofs.Spend.{shortfall_test}

-- What is given back of a hold is what it froze less what is spent.
unspent_lem :
    (h : Hold) (n : ℕ)
    → IsSplit h
    → ltb_ℤ h.amount_micros (pos n) ≡ false
    → available (unspent h (pos n)) ≡ h.amount_micros -ℤ pos n
unspent_lem h n split fits = elim (shortfall_test (reserved_of h) n split.parts) [
  | inl (_, _, left) ↦ sym left ∙ ap (λ x. x -ℤ pos n) (sym split.amount)
  | inr (_, over) ↦
      absurd (clash h.amount_micros (available (reserved_of h)) n split.amount fits over)
]
  where
    clash : (a b : ℤ) (n : ℕ) → a ≡ b → ltb_ℤ a (pos n) ≡ false → b <ℤ pos n → ⊥
    clash a b n e fits over = ground arith

-- `after` has what `before` had, and at most `amount` more.
abbrev pub Gains : Account → Account → ℤ → Type 0
Gains before after amount =
    (available (buckets_of before) ≤ℤ available (buckets_of after))
    × (available (buckets_of after) ≤ℤ available (buckets_of before) +ℤ amount)

settled-Gains :
    (acct : Account) (h : Hold) (n : ℕ)
    → IsSound acct
    → IsSplit h
    → ltb_ℤ h.amount_micros (pos n) ≡ false
    → Gains acct (settled acct (unspent h (pos n)) h.amount_micros) (h.amount_micros -ℤ pos n)
unfolding available
settled-Gains acct h n sound split fits =
    let back = unspent h (pos n) in
    let nonneg = unspent-IsNonneg h (pos n) split in
    let k =
      credit_back-IsReturned (buckets_of acct) back (allowances_of acct) sound.buckets nonneg
        sound.within in
    let e = unspent_lem h n split fits in
    (
      omega (int_laws, k.daily_kept, k.period_kept, parts_of_eq k.permanent, nonneg.permanent),
      omega (int_laws, k.daily_back, k.period_back, parts_of_eq k.permanent, parts_of_eq e),
    )

module _ (T : Tables) (ctx : Context) where
  -- A capture under a new key that succeeds on a well-formed database finds an active hold with its
  -- account, ends it as captured, books exactly the actual amount, which is positive and no more
  -- than was held, by an entry that is stored under the key, takes the whole hold out of `heldMicros`, and gives the account back some of
  -- what is left of it: nothing is taken from what is available, and no more than held minus
  -- actual is added. The account is stored as it is returned.
  pub capture_hold_settles :
      (input : CaptureInput) (s s' : Store T) (r : MutationResult)
      → IsWellFormed T s
      → entry_by_key T input.idempotency_key s ≡ none
      → capture_hold T ctx input s ≡ (ok r, s')
      → (n : ℕ) × (h : Hold) × (acct : Account) × (parse_positive_bigint_string
            input.actual_amount_micros
          ≡ ok (pos n))
        × (find_hold T input.hold_id s ≡ some h)
        × (h.status ≡ HoldStatus.active)
        × (find_account T h.account_id s ≡ some acct)
        × (ltb_ℤ h.amount_micros (pos n) ≡ false)
        × (find_hold T input.hold_id s' ≡ some (with_status h captured))
        × (entry_by_key T input.idempotency_key s' ≡ some r.entry)
        × (find_account T h.account_id s' ≡ some r.account)
        × (r.entry.account_id ≡ h.account_id)
        × (r.entry.amount_micros ≡ pos 0 -ℤ pos n)
        × (r.account.held_micros ≡ acct.held_micros -ℤ h.amount_micros)
        × Gains acct r.account (h.amount_micros -ℤ pos n)
  unfolding capture_hold run
  capture_hold_settles input s s' r w new done = elim (Result-cases (capture_body T ctx input s)) [
    | inr (e, failed) ↦ absurd (
        ground (
          arith,
          ap (λ x. x.0)
              (sym (once_error T input.idempotency_key (capture_body T ctx input) s e new failed)
                ∙ done),
        ))
    | inl ((r', s''), ran) ↦
        let same =
          sym done ∙ once_new T input.idempotency_key (capture_body T ctx input) s s'' r' new ran in
        let er : r ≡ r' = ground arith in
        let es : s' ≡ s'' = ap (λ x. x.1) same in
        let (actual, h, acct, parsed, fits, settles, ea, ee, _) =
          capture_body_ok T ctx input s s'' r' ran in
        let (found, active, owner, eh, _) = settles in
        let (n, en, _, _) = parse_positive_sound input.actual_amount_micros actual parsed in
        let split = w.holds input.hold_id h found in
        let fits' = subst (λ (x : ℤ). ltb_ℤ h.amount_micros x ≡ false) en fits in
        let shown = run-Shows T ctx (capture input) s s' r done in
        let owned : r.entry.account_id ≡ h.account_id =
          ap (λ x. x.entry.account_id) er
          ∙ ap (λ x. x.account_id) ee
          ∙ T.accounts.find_unique-id h.account_id s.accounts acct owner in
        let id_same = T.holds.find_unique-id input.hold_id s.holds h found in
        (
          n,
          h,
          acct,
          parsed ∙ ap ok en,
          found,
          active,
          owner,
          fits',
          subst
              (λ (x : T.Holds). T.holds.find_unique input.hold_id x ≡ some (with_status h captured))
              (sym (ap (λ (x : Store T). x.holds) es ∙ eh))
              (subst
                (λ k.
                  T.holds.find_unique k (T.holds.put (with_status h captured) s.holds)
                  ≡ some (with_status h captured))
                id_same (T.holds.find_unique-put_self (with_status h captured) s.holds)),
          shown.0,
          ap (λ k. find_account T k s') (sym owned) ∙ shown.1,
          owned,
          rw (er, ee, en) refl,
          rw (er, ea) refl,
          rw (er, ea, en) (settled-Gains acct h n (w.accounts h.account_id acct owner) split fits'),
        )
  ]
