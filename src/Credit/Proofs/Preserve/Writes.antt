-- ===== src/Credit/Proofs/Preserve/Writes.antt =====
-- What keeps the database of kokoro-credit well formed: one mutation, one account, one settlement.
use mathlib.Core.Path.{subst}
use kokoro_platform.Base.{
  String, ◌≡◌, eq_refl, sym, ◌∙◌, ap, inl, inr, true, false, some, arith, Bool-cases, ◌==◌,
}
use kokoro_platform.Base.Int.{pos, int_laws, parts_of_eq}
use kokoro_platform.Base.Effect.{ok, Tx}
use kokoro_platform.Base.Table.{weight_of}
use kokoro_platform.Credit.Types.{Account, Hold, HoldStatus, MutationResult, Error}
use kokoro_platform.Credit.Buckets.{Buckets}
use kokoro_platform.Credit.Buckets.Laws.{IsNonneg}
use kokoro_platform.Credit.Store.{Tables, Store}
use kokoro_platform.Credit.Repository.Rows.{
  is_active, find_account, find_hold, put_account, put_hold, once,
}
use kokoro_platform.Credit.Proofs.Once.{once_cases}
use kokoro_platform.Credit.Proofs.Invariant.{
  IsSound, frozen_of, frozen, IsWellFormed, put_account-IsWellFormed, put_both-IsWellFormed,
  same_tables-IsWellFormed, held_of_row,
}
use kokoro_platform.Credit.Proofs.Holds.{settled, with_status, Settles, same_hold}
use kokoro_platform.Credit.Proofs.Balances.{settled-IsSound}

pub frozen_of_active :
    (id : String) (h : Hold)
    → (h.account_id == id) ≡ true
    → h.status ≡ HoldStatus.active
    → frozen_of id h ≡ h.amount_micros
frozen_of_active id h mine active = rw (mine, active)

pub frozen_of_ended : (id : String) (h : Hold) → is_active h.status ≡ false → frozen_of id h ≡ pos 0
frozen_of_ended id h ended = elim (Bool-cases (h.account_id == id)) [
  | inl mine ↦ rw (mine, ended)
  | inr other ↦ rw other
]

module _ (T : Tables) where
  -- A mutation keeps what its body keeps.
  pub once-IsWellFormed :
      (key : String) (body : Tx (Store T) Error MutationResult) (s : Store T)
      → ((r : MutationResult) (s' : Store T) → body s ≡ ok (r, s') → IsWellFormed T s')
      → IsWellFormed T s
      → IsWellFormed T (once T key body s).1
  once-IsWellFormed key body s keep w = elim (once_cases T key body s) [
    | inl same ↦ subst (IsWellFormed T) (sym same) w
    | inr (r, _, done, _) ↦ keep r _ done
  ]

  -- One account is written, with what it holds unchanged.
  pub write_account-IsWellFormed :
      (s s' : Store T) (id : String) (row a : Account)
      → IsWellFormed T s
      → find_account T id s ≡ some row
      → IsSound a
      → a.id ≡ row.id
      → a.held_micros ≡ row.held_micros
      → s'.accounts ≡ T.accounts.put a s.accounts
      → s'.holds ≡ s.holds
      → IsWellFormed T s'
  write_account-IsWellFormed s s' id row a w found sound same held ea eh =
      same_tables-IsWellFormed T (put_account T a s) s' ea eh (
        put_account-IsWellFormed T a s w sound
          (held ∙ held_of_row T s id row w found ∙ ap (λ k. frozen T k s) (sym same)))

  -- A settlement, whatever the status it ends in, that gives back part of what was reserved.
  pub Settles-IsWellFormed :
      (id : String) (status : HoldStatus) (returned : Buckets) (hold : Hold) (acct : Account)
      (s s' : Store T)
      → is_active status ≡ false
      → IsWellFormed T s
      → IsNonneg returned
      → Settles T id status returned hold acct s s'
      → IsWellFormed T s'
  Settles-IsWellFormed id status returned hold acct s s' ended w n (found, active, owner, eh, ea) =
      let done = with_status hold status in
      let after = settled acct returned hold.amount_micros in
      let split = w.holds id hold found in
      let there : find_hold T hold.id s ≡ some hold = same_hold T id s hold found in
      let acct_id : acct.id ≡ hold.account_id =
        T.accounts.find_unique-id hold.account_id s.accounts acct owner in
      let before = held_of_row T s hold.account_id acct w owner in
      let count = T.holds.aggregate-put (frozen_of acct.id) done s.holds in
      let mine : (hold.account_id == acct.id) ≡ true =
        subst (λ k. (hold.account_id == k) ≡ true) (sym acct_id) (eq_refl hold.account_id) in
      let froze : weight_of (frozen_of acct.id) (find_hold T hold.id s) ≡ hold.amount_micros =
        rw there (frozen_of_active acct.id hold mine active) in
      let freed : frozen_of acct.id done ≡ pos 0 = frozen_of_ended acct.id done ended in
      let held : after.held_micros ≡ frozen T acct.id (put_hold T done s) =
        omega
          (int_laws, parts_of_eq before, parts_of_eq count, parts_of_eq froze, parts_of_eq freed) in
      same_tables-IsWellFormed T (put_hold T done (put_account T after s)) s' ea eh (
        put_both-IsWellFormed T after done s w
          (settled-IsSound acct returned hold.amount_micros (w.accounts hold.account_id acct owner)
            n)
          (record { parts = split.parts; amount = split.amount }) (sym acct_id)
          (λ old again. ground arith) held)
