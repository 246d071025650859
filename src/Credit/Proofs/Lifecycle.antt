-- ===== src/Credit/Proofs/Lifecycle.antt =====
-- The life of a hold: it is created active, and ends once.
use mathlib.Core.Path.{subst}
use kokoro_platform.Base.{
  ℕ, String, ◌≡◌, refl, sym, ap, ◌∙◌, inl, inr, Option, none, some, ◌==◌, eq_iff, arith, map,
  Option-cases, Bool-cases,
}
use kokoro_platform.Base.Effect.{ok}
use kokoro_platform.Base.Table.{find-put}
use kokoro_platform.Credit.Types.{
  EnsureAccountInput, AmountInput, DeleteInput, HoldInput, QuotaPeriod, Hold, captured,
}
use kokoro_platform.Credit.Store.{Tables, Store, Context}
use kokoro_platform.Credit.Repository.Rows.{find_account, find_hold}
use kokoro_platform.Credit.Repository.Holds.{
  hold_body, hold_credits, capture_hold, capture_body, sweep_expired_holds, is_expired,
}
use kokoro_platform.Credit.Repository.Mutations.{
  grant_body, grant_credits, spend_body, spend_credits, reset_body, reset_balance,
}
use kokoro_platform.Credit.Repository.Accounts.{
  account_by_owner, ensure_account, refresh_allowances, delete_account, delete_account_update,
  restore_account, set_account_quota,
}
use kokoro_platform.Credit.Machine.{
  Step, ensure, grant, spend, reset, hold, capture, release, sweep, refresh, delete, delete_late,
  restore, set_quota, Reach, here, next,
}
use kokoro_platform.Credit.Proofs.Once.{once_cases}
use kokoro_platform.Credit.Proofs.HoldOnce.{hold_credits_cases}
use kokoro_platform.Credit.Proofs.Mutations.{grant_body_ok, spend_body_ok, reset_body_ok}
use kokoro_platform.Credit.Proofs.Holds.{unspent, hold_body_ok, capture_body_ok}
use kokoro_platform.Credit.Proofs.Carries.{
  Follows, Follows-trans, Carries, same_holds-Carries, Settles-Carries, once-Carries,
  release_hold-Carries, reclaim_all-Carries,
}

module _ (T : Tables) where
  -- The operations on accounts leave the holds alone.
  ensure_account-holds :
      (ctx : Context) (input : EnsureAccountInput) (s : Store T)
      → (ensure_account T ctx input s).1.holds ≡ s.holds
  unfolding ensure_account
  ensure_account-holds ctx input s = elim (Option-cases (account_by_owner T input s)) [
    | inl e ↦ ground arith
    | inr (a, e) ↦ ground arith
  ]

  refresh_allowances-holds :
      (id : String) (now : ℕ) (s : Store T) → (refresh_allowances T id now s).1.holds ≡ s.holds
  unfolding refresh_allowances
  refresh_allowances-holds id now s = elim (Option-cases (find_account T id s)) [
    | inl e ↦ ground arith
    | inr (a, e) ↦ ground arith
  ]

  delete_account_update-holds :
      (now : ℕ) (input : DeleteInput) (s : Store T)
      → (delete_account_update T now input s).1.holds ≡ s.holds
  unfolding delete_account_update
  delete_account_update-holds now input s = elim (Option-cases (find_account T input.id s)) [
    | inl e ↦ ground arith
    | inr (a, e) ↦ ground arith
  ]

  delete_account-holds :
      (now : ℕ) (input : DeleteInput) (s : Store T)
      → (delete_account T now input s).1.holds ≡ s.holds
  unfolding delete_account delete_account_update
  delete_account-holds now input s = elim (Option-cases (find_account T input.id s)) [
    | inl e ↦ ground arith
    | inr (a, e) ↦ ground arith
  ]

  restore_account-holds : (id : String) (s : Store T) → (restore_account T id s).1.holds ≡ s.holds
  unfolding restore_account
  restore_account-holds id s = elim (Option-cases (find_account T id s)) [
    | inl e ↦ ground arith
    | inr (a, e) ↦ ground arith
  ]

  set_account_quota-holds :
      (id : String) (quota : Option String) (period : QuotaPeriod) (s : Store T)
      → (set_account_quota T id quota period s).1.holds ≡ s.holds
  unfolding set_account_quota
  set_account_quota-holds id quota period s = elim (Option-cases (find_account T id s)) [
    | inl e ↦ ground arith
    | inr (a, e) ↦ elim (Option-cases quota) [ inl q ↦ ground arith | inr (text, q) ↦ ground arith ]
  ]

  made-Carries :
      (ctx : Context) (input : HoldInput) (s s' : Store T) (h : Hold)
      → find_hold T ctx.hold_id s ≡ none
      → hold_body T ctx input s ≡ ok (h, s')
      → Carries T s s'
  made-Carries ctx input s s' new fresh done id h found =
      let (amount, row, _, _, _, eh, es) = hold_body_ok T ctx input s s' new done in
      let changed = find-put T.holds new id s.holds in
      let eid : new.id ≡ ctx.hold_id = rw eh refl in
      elim (Bool-cases (new.id == id)) [
        | inl same ↦
            let taken : find_hold T ctx.hold_id s ≡ some h =
              subst (λ k. find_hold T k s ≡ some h) (sym ((eq_iff new.id id).0 same) ∙ eid) found in
            absurd (ground (arith, sym fresh ∙ taken))
        | inr other ↦ (
          h,
          subst (λ (x : Store T). find_hold T id x ≡ some h) (sym es) (changed ∙ rw other found),
          inl refl,
        )
      ]

  -- Nor does a grant touch them.
  pub grant_credits-holds :
      (ctx : Context) (input : AmountInput) (s : Store T)
      → (grant_credits T ctx input s).1.holds ≡ s.holds
  unfolding grant_credits
  grant_credits-holds ctx input s =
      elim (once_cases T input.idempotency_key (grant_body T ctx input) s) [
        | inl same ↦ ap (λ (x : Store T). x.holds) same
        | inr (r, _, done, _) ↦
            let (_, _, _, _, _, (_, es)) = grant_body_ok T ctx input s _ r done in
            ap (λ (x : Store T). x.holds) es
      ]

  -- One call carries every hold.
  Step-Carries : {s t : Store T} → Step T s t → Carries T s t
  unfolding grant_credits spend_credits reset_balance capture_hold sweep_expired_holds
  Step-Carries {s} (ensure ctx input fresh) =
      same_holds-Carries T s (ensure_account T ctx input s).1 (ensure_account-holds ctx input s)
  Step-Carries {s} (grant ctx input) =
      same_holds-Carries T s (grant_credits T ctx input s).1 (grant_credits-holds ctx input s)
  Step-Carries {s} (spend ctx input) =
      once-Carries T input.idempotency_key (spend_body T ctx input) s (λ r s' done.
        let (_, _, _, _, _, (_, es)) = spend_body_ok T ctx input s s' r done in
        same_holds-Carries T s s' (ap (λ (x : Store T). x.holds) es))
  Step-Carries {s} (reset ctx input) =
      once-Carries T input.idempotency_key (reset_body T ctx input) s (λ r s' done.
        let (_, _, _, _, _, _, (_, es)) = reset_body_ok T ctx input s s' r done in
        same_holds-Carries T s s' (ap (λ (x : Store T). x.holds) es))
  Step-Carries {s} (hold ctx input fresh) = elim (hold_credits_cases T ctx input s) [
    | inl same ↦
        same_holds-Carries T s (hold_credits T ctx input s).1 (ap (λ (x : Store T). x.holds) same)
    | inr (h, _, done, _) ↦ made-Carries ctx input s (hold_credits T ctx input s).1 h fresh done
  ]
  Step-Carries {s} (capture ctx input) =
      once-Carries T input.idempotency_key (capture_body T ctx input) s (λ r s' done.
        let (actual, old, acct, _, _, settles, _, _, _) = capture_body_ok T ctx input s s' r done in
        Settles-Carries T input.hold_id captured (unspent old actual) old acct s s' refl settles)
  Step-Carries {s} (release id) = release_hold-Carries T id s
  Step-Carries {s} (sweep now) =
      reclaim_all-Carries T now 0 (map (λ h. h.id) (T.holds.find_many (is_expired now) s.holds)) s
  Step-Carries {s} (refresh id now) =
      same_holds-Carries T s (refresh_allowances T id now s).1 (refresh_allowances-holds id now s)
  Step-Carries {s} (delete now input) =
      same_holds-Carries T s (delete_account T now input s).1 (delete_account-holds now input s)
  Step-Carries {s} (delete_late now input) =
      same_holds-Carries T s (delete_account_update T now input s).1
        (delete_account_update-holds now input s)
  Step-Carries {s} (restore id) =
      same_holds-Carries T s (restore_account T id s).1 (restore_account-holds id s)
  Step-Carries {s} (set_quota id quota period) =
      same_holds-Carries T s (set_account_quota T id quota period s).1
        (set_account_quota-holds id quota period s)

  -- Whatever calls the database serves, in whatever order, a hold that is there stays there with
  -- everything but its status; an active one is active still or has become captured, released or
  -- expired, and one that has ended is as it was.
  pub Reach-Carries :
      {s t : Store T} (id : String) (h : Hold)
      → Reach T s t
      → find_hold T id s ≡ some h
      → (h' : Hold) × (find_hold T id t ≡ some h') × Follows h h'
  Reach-Carries id h here found = (h, found, inl refl)
  Reach-Carries id h (next r step) found =
      let (h', there, f) = Reach-Carries id h r found in
      let (h'', again, g) = Step-Carries step id h' there in
      (h'', again, Follows-trans h h' h'' f g)
