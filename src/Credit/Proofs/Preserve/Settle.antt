-- ===== src/Credit/Proofs/Preserve/Settle.antt =====
-- Releasing, reclaiming and sweeping holds keep the database well formed.
use mathlib.Core.Path.{subst}
use kokoro_platform.Base.{
  ℕ, ◌+◌, String, ◌≡◌, refl, sym, inl, inr, Bool, List, [], ◌∷◌, map, none, arith, if◌then◌else◌,
}
use kokoro_platform.Base.Effect.{ok, err, Result-cases}
use kokoro_platform.Base.Effect.Async.{transaction_keeps}
use kokoro_platform.Credit.Types.{Hold, released, expired, HoldInput, Error}
use kokoro_platform.Credit.Store.{Tables, Store, Context}
use kokoro_platform.Credit.Repository.Rows.{reserved_of, find_hold}
use kokoro_platform.Credit.Repository.Holds.{
  hold_credits, release_body, release_hold, reclaim_body, reclaim_expired_hold, reclaim_all,
  sweep_expired_holds, is_expired,
}
use kokoro_platform.Credit.Proofs.HoldOnce.{hold_credits_cases}
use kokoro_platform.Credit.Proofs.Invariant.{IsWellFormed}
use kokoro_platform.Credit.Proofs.Holds.{release_body_ok, reclaim_body_ok}
use kokoro_platform.Credit.Proofs.Preserve.Writes.{Settles-IsWellFormed}
use kokoro_platform.Credit.Proofs.Preserve.Holds.{hold_body-IsWellFormed}

module _ (T : Tables) where
  pub hold_credits-IsWellFormed :
      (ctx : Context) (input : HoldInput) (s : Store T)
      → IsWellFormed T s
      → find_hold T ctx.hold_id s ≡ none
      → IsWellFormed T (hold_credits T ctx input s).1
  hold_credits-IsWellFormed ctx input s w fresh = elim (hold_credits_cases T ctx input s) [
    | inl same ↦ subst (IsWellFormed T) (sym same) w
    | inr (h, _, done, _) ↦ hold_body-IsWellFormed T ctx input s _ h w fresh done
  ]

  pub release_hold-IsWellFormed :
      (id : String) (s : Store T) → IsWellFormed T s → IsWellFormed T (release_hold T id s).1
  unfolding release_hold
  release_hold-IsWellFormed id s w =
      transaction_keeps (IsWellFormed T) (release_body T id) s (λ h s' done. keep h s' done) w
    where
      keep : (h : Hold) (s' : Store T) → release_body T id s ≡ ok (h, s') → IsWellFormed T s'
      keep h s' done = elim (release_body_ok T id s s' h done) [
        | inl (_, _, same) ↦ subst (IsWellFormed T) (sym same) w
        | inr (hold, acct, settles, _, _) ↦
            Settles-IsWellFormed T id released (reserved_of hold) hold acct s s' refl w
              (w.holds id hold settles.0).parts settles
      ]

  pub reclaim_expired_hold-IsWellFormed :
      (id : String) (now : ℕ) (s : Store T)
      → IsWellFormed T s
      → IsWellFormed T (reclaim_expired_hold T id now s).1
  unfolding reclaim_expired_hold
  reclaim_expired_hold-IsWellFormed id now s w =
      transaction_keeps (IsWellFormed T) (reclaim_body T id now) s (λ won s' done. keep won s' done)
        w
    where
      keep :
          (won : Bool) (s' : Store T) → reclaim_body T id now s ≡ ok (won, s') → IsWellFormed T s'
      keep won s' done = elim (reclaim_body_ok T id now s s' won done) [
        | inl (_, same) ↦ subst (IsWellFormed T) (sym same) w
        | inr (hold, acct, _, _, settles, _) ↦
            Settles-IsWellFormed T id expired (reserved_of hold) hold acct s s' refl w
              (w.holds id hold settles.0).parts settles
      ]

  -- One round of the loop.
  pub reclaim_all_next :
      (now count : ℕ) (id : String) (ids : List String) (s : Store T) (won : Bool)
      → (reclaim_expired_hold T id now s).0 ≡ ok won
      → reclaim_all T now count (id ∷ ids) s
        ≡ reclaim_all T now
            (if won then count + 1 else count)
            ids
            (reclaim_expired_hold T id now s).1
  unfolding reclaim_all
  reclaim_all_next now count id ids s won done = ground arith

  pub reclaim_all_stop :
      (now count : ℕ) (id : String) (ids : List String) (s : Store T) (e : Error)
      → (reclaim_expired_hold T id now s).0 ≡ err e
      → reclaim_all T now count (id ∷ ids) s ≡ (err e, (reclaim_expired_hold T id now s).1)
  unfolding reclaim_all
  reclaim_all_stop now count id ids s e failed = ground arith

  pub reclaim_all-IsWellFormed :
      (now count : ℕ) (ids : List String) (s : Store T)
      → IsWellFormed T s
      → IsWellFormed T (reclaim_all T now count ids s).1
  unfolding reclaim_all
  reclaim_all-IsWellFormed now count [] s w = w
  reclaim_all-IsWellFormed now count (id ∷ ids) s w =
      let kept = reclaim_expired_hold-IsWellFormed id now s w in
      elim (Result-cases (reclaim_expired_hold T id now s).0) [
        | inr (e, failed) ↦
            subst (λ r. IsWellFormed T r.1) (sym (reclaim_all_stop now count id ids s e failed))
              kept
        | inl (won, done) ↦
            subst (λ r. IsWellFormed T r.1) (sym (reclaim_all_next now count id ids s won done))
              (reclaim_all-IsWellFormed now (if won then count + 1 else count) ids _ kept)
      ]

  pub sweep_expired_holds-IsWellFormed :
      (now : ℕ) (s : Store T) → IsWellFormed T s → IsWellFormed T (sweep_expired_holds T now s).1
  unfolding sweep_expired_holds
  sweep_expired_holds-IsWellFormed now s w =
      reclaim_all-IsWellFormed now 0 (map (λ h. h.id) (T.holds.find_many (is_expired now) s.holds))
        s w
