-- ===== src/Credit/Proofs/Once.antt =====
-- The mutations of the ledger are made once for each idempotency key.
use kokoro_platform.Base.{
  String, ◌≡◌, refl, ◌⊎◌, inl, inr, none, some, ◌==◌, arith, Option-cases, eq_refl,
}
use kokoro_platform.Base.Effect.{ok, err, Result-cases, Tx}
use kokoro_platform.Base.Table.{find_first-put}
use kokoro_platform.Credit.Types.{Account, LedgerEntry, MutationResult, Error}
use kokoro_platform.Credit.Store.{Tables, Store}
use kokoro_platform.Credit.Repository.Rows.{find_account, entry_by_key, find_existing_entry, once}

module _ (T : Tables) where
  -- An entry under the key is returned as it is, and nothing changes.
  pub once_replay :
      (key : String) (body : Tx (Store T) Error MutationResult) (s : Store T) (e : LedgerEntry)
      (a : Account)
      → entry_by_key T key s ≡ some e
      → find_account T e.account_id s ≡ some a
      → once T key body s ≡ (ok (record { account = a; entry = e }), s)
  unfolding once find_existing_entry
  once_replay key body s e a found owner = ground arith

  -- Without one, what the body does counts.
  pub once_new :
      (key : String) (body : Tx (Store T) Error MutationResult) (s s' : Store T)
      (r : MutationResult)
      → entry_by_key T key s ≡ none
      → body s ≡ ok (r, s')
      → once T key body s ≡ (ok r, s')
  unfolding once find_existing_entry
  once_new key body s s' r absent done = ground arith

  pub once_error :
      (key : String) (body : Tx (Store T) Error MutationResult) (s : Store T) (e : Error)
      → entry_by_key T key s ≡ none
      → body s ≡ err e
      → once T key body s ≡ (err e, s)
  unfolding once find_existing_entry
  once_error key body s e absent failed = ground arith

  -- What a call of a mutation can have done.
  pub once_cases :
      (key : String) (body : Tx (Store T) Error MutationResult) (s : Store T)
      → ((once T key body s).1 ≡ s)
        ⊎ ((r : MutationResult) × (entry_by_key T key s ≡ none)
            × (body s ≡ ok (r, (once T key body s).1))
            × ((once T key body s).0 ≡ ok r))
  unfolding once find_existing_entry
  once_cases key body s = elim (Option-cases (entry_by_key T key s)) [
    | inl absent ↦ elim (Result-cases (body s)) [
      | inl ((r, s'), done) ↦
          let e = once_new key body s s' r absent done in inr (r, absent, rw e done, rw e refl)
      | inr (e, failed) ↦ inl (rw (once_error key body s e absent failed))
    ]
    | inr (e, found) ↦ elim (Option-cases (find_account T e.account_id s)) [
      | inl lost ↦ inl (ground arith)
      | inr (a, owner) ↦ inl (rw (once_replay key body s e a found owner))
    ]
  ]

  -- The entry that is found under a key after one was created with it, where there was none.
  pub entry_by_key-put :
      (e : LedgerEntry) (s : Store T)
      → entry_by_key T e.idempotency_key s ≡ none
      → entry_by_key T e.idempotency_key (record s { entries = T.entries.put e s.entries }) ≡ some e
  entry_by_key-put e s absent =
      find_first-put T.entries (λ x. x.idempotency_key == e.idempotency_key) (λ _. 0) e s.entries
        absent (eq_refl e.idempotency_key)
