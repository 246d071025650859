-- ===== src/Credit/Proofs/HoldOnce.antt =====
-- A hold is made once for each idempotency key.
use kokoro_platform.Base.{◌≡◌, refl, ◌⊎◌, inl, inr, none, some, arith, ◌==◌, eq_refl, Option-cases}
use kokoro_platform.Base.Effect.{ok, Result-cases}
use kokoro_platform.Base.Table.{find_first-put}
use kokoro_platform.Credit.Types.{Hold, HoldInput}
use kokoro_platform.Credit.Store.{Tables, Store, Context}
use kokoro_platform.Credit.Repository.Rows.{
  hold_by_key, put_hold, find_existing_hold_after_unique_conflict,
}
use kokoro_platform.Credit.Repository.Holds.{hold_body, hold_credits}

module _ (T : Tables) where
  -- The hold that is found under a key after one was created with it, where there was none.
  pub hold_by_key-put :
      (h : Hold) (s : Store T)
      → hold_by_key T h.idempotency_key s ≡ none
      → hold_by_key T h.idempotency_key (put_hold T h s) ≡ some h
  hold_by_key-put h s absent =
      find_first-put T.holds (λ x. x.idempotency_key == h.idempotency_key) (λ _. 0) h s.holds absent
        (eq_refl h.idempotency_key)

  module _ (ctx : Context) where
    -- A hold under the key is returned as it is, and nothing changes.
    pub hold_credits_replay :
        (input : HoldInput) (s : Store T) (h : Hold)
        → hold_by_key T input.idempotency_key s ≡ some h
        → hold_credits T ctx input s ≡ (ok h, s)
    unfolding hold_credits find_existing_hold_after_unique_conflict
    hold_credits_replay input s h found = ground arith

    -- Without one, what the body does counts.
    pub hold_credits_new :
        (input : HoldInput) (s s' : Store T) (h : Hold)
        → hold_by_key T input.idempotency_key s ≡ none
        → hold_body T ctx input s ≡ ok (h, s')
        → hold_credits T ctx input s ≡ (ok h, s')
    unfolding hold_credits find_existing_hold_after_unique_conflict
    hold_credits_new input s s' h absent done = ground arith

    -- So does it where a call has made a new hold.
    pub hold_credits_made :
        (input : HoldInput) (s s' : Store T) (h : Hold)
        → hold_by_key T input.idempotency_key s ≡ none
        → hold_credits T ctx input s ≡ (ok h, s')
        → hold_body T ctx input s ≡ ok (h, s')
    unfolding hold_credits find_existing_hold_after_unique_conflict
    hold_credits_made input s s' h absent done = elim (Result-cases (hold_body T ctx input s)) [
      | inl (r, ran) ↦ ground arith
      | inr (e, failed) ↦ ground arith
    ]

    -- What a call of `holdCredits` can have done.
    pub hold_credits_cases :
        (input : HoldInput) (s : Store T)
        → ((hold_credits T ctx input s).1 ≡ s)
          ⊎ ((h : Hold) × (hold_by_key T input.idempotency_key s ≡ none)
              × (hold_body T ctx input s ≡ ok (h, (hold_credits T ctx input s).1))
              × ((hold_credits T ctx input s).0 ≡ ok h))
    unfolding hold_credits find_existing_hold_after_unique_conflict
    hold_credits_cases input s = elim (Option-cases (hold_by_key T input.idempotency_key s)) [
      | inl absent ↦ elim (Result-cases (hold_body T ctx input s)) [
        | inl ((h, s'), done) ↦
            let e = hold_credits_new input s s' h absent done in
            inr (h, absent, rw e done, rw e refl)
        | inr (e, failed) ↦ inl (ground arith)
      ]
      | inr (h, found) ↦ inl (rw (hold_credits_replay input s h found))
    ]
