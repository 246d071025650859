-- ===== src/Credit/Proofs/Carries.antt =====
-- What the settlements of holds leave of the holds: each is carried on.
use mathlib.Core.Path.{subst}
use kokoro_platform.Base.{
  ℕ, ◌+◌, String, ◌≡◌, refl, sym, ap, ◌∙◌, ◌⊎◌, inl, inr, Bool, false, some, ◌==◌, eq_iff, arith,
  List, [], ◌∷◌, Bool-cases, if◌then◌else◌,
}
use kokoro_platform.Base.Effect.{ok, Result-cases, Tx}
use kokoro_platform.Base.Effect.Async.{transaction_keeps}
use kokoro_platform.Base.Table.{find-put}
use kokoro_platform.Credit.Types.{
  Account, Hold, HoldStatus, released, expired, MutationResult, Error,
}
use kokoro_platform.Credit.Buckets.{Buckets}
use kokoro_platform.Credit.Store.{Tables, Store}
use kokoro_platform.Credit.Repository.Rows.{is_active, find_hold, once, reserved_of}
use kokoro_platform.Credit.Repository.Holds.{
  release_body, release_hold, reclaim_body, reclaim_expired_hold, reclaim_all,
}
use kokoro_platform.Credit.Proofs.Once.{once_cases}
use kokoro_platform.Credit.Proofs.Holds.{
  Settles, with_status, same_hold, release_body_ok, reclaim_body_ok,
}
use kokoro_platform.Credit.Proofs.Preserve.Settle.{reclaim_all_next, reclaim_all_stop}

-- What can have become of a hold: it is as it was, or it was active and only its status has
-- changed, to one that is final.
abbrev pub Follows : Hold → Hold → Type 0
Follows h h' =
    (h' ≡ h)
    ⊎ ((status : HoldStatus) × (h.status ≡ HoldStatus.active)
        × (is_active status ≡ false)
        × (h' ≡ with_status h status))

pub Follows-trans : (a b c : Hold) → Follows a b → Follows b c → Follows a c
Follows-trans a b c (inl e) q = subst (λ x. Follows x c) e q
Follows-trans a b c (inr (st, active, final, e)) (inl e') = inr (st, active, final, e' ∙ e)
Follows-trans a b c (inr (st, active, final, e)) (inr (st', again, _, _)) =
    absurd (ended st final (sym (ap (λ (h : Hold). h.status) e) ∙ again))
  where
    ended : (st : HoldStatus) → is_active st ≡ false → st ≡ HoldStatus.active → ⊥
    ended st f a = ground arith

module _ (T : Tables) where
  -- Every hold of the first database is in the second one.
  abbrev pub Carries : Store T → Store T → Type 0
  Carries s t =
      (id : String) (h : Hold)
      → find_hold T id s ≡ some h
      → (h' : Hold) × (find_hold T id t ≡ some h') × Follows h h'

  pub Carries-trans : (s t u : Store T) → Carries s t → Carries t u → Carries s u
  Carries-trans s t u p q id h found =
      let (h', there, f) = p id h found in
      let (h'', again, g) = q id h' there in (h'', again, Follows-trans h h' h'' f g)

  pub same_holds-Carries : (s t : Store T) → t.holds ≡ s.holds → Carries s t
  same_holds-Carries s t e id h found =
      (h, subst (λ x. T.holds.find_unique id x ≡ some h) (sym e) found, inl refl)

  pub Settles-Carries :
      (id : String) (status : HoldStatus) (returned : Buckets) (old : Hold) (acct : Account)
      (s s' : Store T)
      → is_active status ≡ false
      → Settles T id status returned old acct s s'
      → Carries s s'
  Settles-Carries id status returned old acct s s' final (found, active, _, eh, _) i h there =
      let again = same_hold T id s old found in
      let changed = find-put T.holds (with_status old status) i s.holds in
      elim (Bool-cases (old.id == i)) [
        | inl same ↦
            let e : old ≡ h = ground (
              arith,
              again,
              subst (λ k. find_hold T k s ≡ some h) (sym ((eq_iff old.id i).0 same)) there,
            ) in
            (
              with_status old status,
              subst (λ x. T.holds.find_unique i x ≡ some (with_status old status)) (sym eh)
                  (changed ∙ rw same refl),
              inr (status, rw (← e) active, final, rw e refl),
            )
        | inr other ↦ (
          h,
          subst (λ x. T.holds.find_unique i x ≡ some h) (sym eh) (changed ∙ rw other there),
          inl refl,
        )
      ]

  -- A mutation carries the holds as its body does.
  pub once-Carries :
      (key : String) (body : Tx (Store T) Error MutationResult) (s : Store T)
      → ((r : MutationResult) (s' : Store T) → body s ≡ ok (r, s') → Carries s s')
      → Carries s (once T key body s).1
  once-Carries key body s carries = elim (once_cases T key body s) [
    | inl same ↦ same_holds-Carries s (once T key body s).1 (ap (λ (x : Store T). x.holds) same)
    | inr (r, _, done, _) ↦ carries r _ done
  ]

  pub release_hold-Carries : (id : String) (s : Store T) → Carries s (release_hold T id s).1
  unfolding release_hold
  release_hold-Carries id s =
      transaction_keeps (Carries s) (release_body T id) s (λ h s' done. moves h s' done)
        (same_holds-Carries s s refl)
    where
      moves : (h : Hold) (s' : Store T) → release_body T id s ≡ ok (h, s') → Carries s s'
      moves h s' done = elim (release_body_ok T id s s' h done) [
        | inl (_, _, same) ↦ same_holds-Carries s s' (ap (λ (x : Store T). x.holds) same)
        | inr (old, acct, settles, _, _) ↦
            Settles-Carries id released (reserved_of old) old acct s s' refl settles
      ]

  reclaim_expired_hold-Carries :
      (id : String) (now : ℕ) (s : Store T) → Carries s (reclaim_expired_hold T id now s).1
  unfolding reclaim_expired_hold
  reclaim_expired_hold-Carries id now s =
      transaction_keeps (Carries s) (reclaim_body T id now) s (λ won s' done. moves won s' done)
        (same_holds-Carries s s refl)
    where
      moves : (won : Bool) (s' : Store T) → reclaim_body T id now s ≡ ok (won, s') → Carries s s'
      moves won s' done = elim (reclaim_body_ok T id now s s' won done) [
        | inl (_, same) ↦ same_holds-Carries s s' (ap (λ (x : Store T). x.holds) same)
        | inr (old, acct, _, _, settles, _) ↦
            Settles-Carries id expired (reserved_of old) old acct s s' refl settles
      ]

  pub reclaim_all-Carries :
      (now count : ℕ) (ids : List String) (s : Store T)
      → Carries s (reclaim_all T now count ids s).1
  unfolding reclaim_all
  reclaim_all-Carries now count [] s = same_holds-Carries s s refl
  reclaim_all-Carries now count (id ∷ ids) s =
      let first = reclaim_expired_hold-Carries id now s in
      let s' = (reclaim_expired_hold T id now s).1 in
      elim (Result-cases (reclaim_expired_hold T id now s).0) [
        | inr (e, failed) ↦
            subst (λ r. Carries s r.1) (sym (reclaim_all_stop T now count id ids s e failed)) first
        | inl (won, done) ↦
            subst (λ r. Carries s r.1) (sym (reclaim_all_next T now count id ids s won done))
              (Carries-trans s s' (reclaim_all T now (if won then count + 1 else count) ids s').1
                first (reclaim_all-Carries now (if won then count + 1 else count) ids s'))
      ]
