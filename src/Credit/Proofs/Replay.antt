-- ===== src/Credit/Proofs/Replay.antt =====
-- Calls under one idempotency key: what the first one did is all that is done.
use mathlib.Core.Path.{subst, subst₂}
use kokoro_platform.Base.{
  String, ◌≡◌, refl, sym, ap, ◌∙◌, ◌⊎◌, inl, inr, some, none, arith, Option-cases,
}
use kokoro_platform.Base.Effect.{ok, Result-cases, Tx}
use kokoro_platform.Credit.Types.{Account, LedgerEntry, MutationResult, Error, HoldInput, Hold}
use kokoro_platform.Credit.Store.{Tables, Store, Context}
use kokoro_platform.Credit.Repository.Rows.{
  find_account, put_hold, entry_by_key, hold_by_key, find_existing_entry, once,
}
use kokoro_platform.Credit.Repository.Mutations.{grant_credits, spend_credits, reset_balance}
use kokoro_platform.Credit.Repository.Holds.{capture_hold, hold_credits}
use kokoro_platform.Credit.Mutation.{Mutation, grant, spend, reset, capture, key_of, run, body_of}
use kokoro_platform.Credit.Proofs.Once.{once_replay, once_new, entry_by_key-put}
use kokoro_platform.Credit.Proofs.HoldOnce.{hold_credits_replay, hold_credits_made, hold_by_key-put}
use kokoro_platform.Credit.Proofs.Mutations.{Written, grant_body_ok, spend_body_ok, reset_body_ok}
use kokoro_platform.Credit.Proofs.Holds.{capture_body_ok, hold_body_ok}

module _ (T : Tables) where
  -- The entry and the account that a mutation returns are in the database under its key.
  abbrev pub Shows : String → MutationResult → Store T → Type 0
  Shows key r s =
      (entry_by_key T key s ≡ some r.entry) × (find_account T r.entry.account_id s ≡ some r.account)

  -- The body records its entry under the key, and returns what it wrote.
  abbrev Records : String → Tx (Store T) Error MutationResult → Type 0
  Records key body =
      (s s' : Store T) (r : MutationResult)
      → body s ≡ ok (r, s')
      → entry_by_key T key s ≡ none
      → Shows key r s'

  once-eq_run : (ctx : Context) (m : Mutation) → run T ctx m ≡ once T (key_of m) (body_of T ctx m)
  unfolding run body_of grant_credits spend_credits reset_balance capture_hold
  once-eq_run ctx (grant input) = refl
  once-eq_run ctx (spend input) = refl
  once-eq_run ctx (reset input) = refl
  once-eq_run ctx (capture input) = refl

  once-Shows :
      (key : String) (body : Tx (Store T) Error MutationResult) (s s' : Store T)
      (r : MutationResult)
      → Records key body
      → once T key body s ≡ (ok r, s')
      → Shows key r s'
  unfolding once find_existing_entry
  once-Shows key body s s' r records done = elim (Option-cases (entry_by_key T key s)) [
    | inr (e, found) ↦ elim (Option-cases (find_account T e.account_id s)) [
      | inl lost ↦ ground arith
      | inr (a, owner) ↦ ground (arith, once_replay T key body s e a found owner)
    ]
    | inl absent ↦ elim (Result-cases (body s)) [
      | inr (e, failed) ↦ ground arith
      | inl ((r', s''), ran) ↦
          let e = once_new T key body s s'' r' absent ran in
          let er : r ≡ r' = ground (arith, sym done ∙ e) in
          let es : s' ≡ s'' = ap (λ x. x.1) (sym done ∙ e) in
          subst₂ (Shows key) (sym er) (sym es) (records s s'' r' ran absent)
    ]
  ]

  -- A body that writes one entry and its account does.
  written-Shows :
      (key : String) (r : MutationResult) (s s' : Store T)
      → entry_by_key T key s ≡ none
      → r.entry.idempotency_key ≡ key
      → r.entry.account_id ≡ r.account.id
      → s'.entries ≡ T.entries.put r.entry s.entries
      → s'.accounts ≡ T.accounts.put r.account s.accounts
      → Shows key r s'
  written-Shows key r s s' absent named owned ee ea = (
    subst (λ x. entry_by_key T key (record s { entries = x }) ≡ some r.entry) (sym ee)
        (subst
          (λ k.
            entry_by_key T k (record s { entries = T.entries.put r.entry s.entries })
            ≡ some r.entry)
          named
          (entry_by_key-put T r.entry s
            (subst (λ k. entry_by_key T k s ≡ none) (sym named) absent))),
    subst₂ (λ x k. find_account T k (record s { accounts = x }) ≡ some r.account) (sym ea)
        (sym owned) (T.accounts.find_unique-put_self r.account s.accounts),
  )

  module _ (ctx : Context) where
    Written-Records :
        (key : String) (a : Account) (e : LedgerEntry) (s s' : Store T) (r : MutationResult)
        → Written T ctx a e s r s'
        → e.idempotency_key ≡ key
        → e.account_id ≡ a.id
        → entry_by_key T key s ≡ none
        → Shows key r s'
    Written-Records key a e s s' r (er, es) named owned absent =
        written-Shows key r s s' absent (rw er named) (rw er owned)
          (rw er (ap (λ (x : Store T). x.entries) es)) (rw er (ap (λ (x : Store T). x.accounts) es))

    body_of-Records : (m : Mutation) → Records (key_of m) (body_of T ctx m)
    unfolding body_of
    body_of-Records (grant input) s s' r done absent =
        let (amount, row, _, _, _, w) = grant_body_ok T ctx input s s' r done in
        Written-Records _ _ _ s s' r w refl refl absent
    body_of-Records (spend input) s s' r done absent =
        let (amount, row, _, _, _, w) = spend_body_ok T ctx input s s' r done in
        Written-Records _ _ _ s s' r w refl refl absent
    body_of-Records (reset input) s s' r done absent =
        let (amount, row, _, _, _, _, w) = reset_body_ok T ctx input s s' r done in
        Written-Records _ _ _ s s' r w refl refl absent
    body_of-Records (capture input) s s' r done absent =
        let (actual, hold, acct, _, _, settles, ea, ee, es) =
          capture_body_ok T ctx input s s' r done in
        written-Shows input.idempotency_key r s s' absent (rw ee refl) (rw (ee, ea) refl) es
          (settles.4 ∙ ap (λ a. T.accounts.put a s.accounts) (sym ea))

  -- A mutation that returns leaves its entry in the ledger under its key.
  pub run-Shows :
      (ctx : Context) (m : Mutation) (s s' : Store T) (r : MutationResult)
      → run T ctx m s ≡ (ok r, s')
      → Shows (key_of m) r s'
  run-Shows ctx m s s' r done =
      once-Shows (key_of m) (body_of T ctx m) s s' r (body_of-Records ctx m)
        (sym (ap (λ f. f s) (once-eq_run ctx m)) ∙ done)

  -- Mutations of the ledger are idempotent: after a grant, a spending, a reset or a capture has
  -- succeeded, any of the four, called next with the same idempotency key, whatever the clock
  -- and its input, returns the same account and entry and changes nothing.
  pub run-run :
      (ctx ctx' : Context) (m m' : Mutation) (s s' : Store T) (r : MutationResult)
      → key_of m ≡ key_of m'
      → run T ctx m s ≡ (ok r, s')
      → run T ctx' m' s' ≡ (ok r, s')
  run-run ctx ctx' m m' s s' r same done =
      let (entry, owner) = run-Shows ctx m s s' r done in
      ap (λ f. f s') (once-eq_run ctx' m')
      ∙ once_replay T (key_of m') (body_of T ctx' m') s' r.entry r.account
          (subst (λ k. entry_by_key T k s' ≡ some r.entry) same entry) owner

  -- A hold is idempotent as well: after one has been made, the next call with the same
  -- idempotency key, whatever the clock and its input, returns it and freezes nothing.
  pub hold_credits-hold_credits :
      (ctx ctx' : Context) (input input' : HoldInput) (s s' : Store T) (h : Hold)
      → input.idempotency_key ≡ input'.idempotency_key
      → hold_credits T ctx input s ≡ (ok h, s')
      → hold_credits T ctx' input' s' ≡ (ok h, s')
  hold_credits-hold_credits ctx ctx' input input' s s' h same done =
      hold_credits_replay T ctx' input' s' h (
        subst (λ k. hold_by_key T k s' ≡ some h) same
          (there (Option-cases (hold_by_key T input.idempotency_key s))))
    where
      there :
          (hold_by_key T input.idempotency_key s ≡ none)
            ⊎ ((x : Hold) × (hold_by_key T input.idempotency_key s ≡ some x))
          → hold_by_key T input.idempotency_key s' ≡ some h
      there (inr (x, found)) = ground (arith, hold_credits_replay T ctx input s x found)
      there (inl absent) =
          let (amount, row, _, _, _, eh, es) =
            hold_body_ok T ctx input s s' h (hold_credits_made T ctx input s s' h absent done) in
          let named : h.idempotency_key ≡ input.idempotency_key = rw eh refl in
          let found : hold_by_key T h.idempotency_key (put_hold T h s) ≡ some h =
            hold_by_key-put T h s (subst (λ k. hold_by_key T k s ≡ none) (sym named) absent) in
          subst₂ (λ (x : Store T) k. hold_by_key T k x ≡ some h) (sym es) named found
