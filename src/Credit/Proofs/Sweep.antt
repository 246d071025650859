-- ===== src/Credit/Proofs/Sweep.antt =====
-- A sweep ends every hold that has expired.
use mathlib.Core.Path.{subst}
use mathlib.Core.List.{Memᴰ}
use mathlib.Core.List.Memᴰ
use kokoro_platform.Base.{
  ℕ, ◌+◌, String, ◌≡◌, ◌≢◌, refl, sym, ap, ◌∙◌, inl, inr, Bool, true, false, some, eq_iff, arith,
  List, [], ◌∷◌, map, Option-cases, Bool-cases, if◌then◌else◌,
}
use kokoro_platform.Base.Effect.{Result, ok}
use kokoro_platform.Base.Effect.Async.{transaction}
use kokoro_platform.Base.Table.{find-put_cases}
use kokoro_platform.Credit.Types.{Hold, HoldStatus, expired, Error}
use kokoro_platform.Credit.Store.{Tables, Store}
use kokoro_platform.Credit.Repository.Rows.{
  is_active, reserved_of, find_account, find_hold, put_account, put_hold, transition_hold,
  apply_bucket_return,
}
use kokoro_platform.Credit.Repository.Holds.{
  set_status, reclaim_active, reclaim_body, reclaim_expired_hold, reclaim_all, sweep_expired_holds,
  is_expired,
}
use kokoro_platform.Credit.Proofs.Invariant.{IsWellFormed}
use kokoro_platform.Credit.Proofs.Holds.{same_hold, with_status, settled, reclaim_body_ok}
use kokoro_platform.Credit.Proofs.Preserve.Settle.{
  reclaim_expired_hold-IsWellFormed, reclaim_all_next,
}

-- A hold that is not due stays so when its status changes to a final one.
is_expired-status :
    (now : ℕ) (h : Hold) (status : HoldStatus)
    → is_active status ≡ false
    → is_expired now (with_status h status) ≡ false
is_expired-status now h status final = rw final refl

module _ (T : Tables) where
  -- In a well-formed database the body of a reclaim returns.
  reclaim_body_total :
      (id : String) (now : ℕ) (s : Store T)
      → IsWellFormed T s
      → (won : Bool) × (s' : Store T) × (reclaim_body T id now s ≡ ok (won, s'))
  unfolding reclaim_body reclaim_active set_status transition_hold apply_bucket_return
  reclaim_body_total id now s w = elim (Option-cases (find_hold T id s)) [
    | inl absent ↦ (false, s, ground arith)
    | inr (h, found) ↦ elim (Bool-cases (is_expired now h)) [
      | inr live ↦ (false, s, ground arith)
      | inl due ↦
          let (a, owner) = w.owned id h found in
          (
            true,
            put_account T (settled a (reserved_of h) h.amount_micros)
                (put_hold T (with_status h expired) s),
            ground arith,
          )
    ]
  ]

  -- A hold that is due is not passed over.
  reclaim_due :
      (id : String) (now : ℕ) (s s' : Store T) (h : Hold)
      → find_hold T id s ≡ some h
      → is_expired now h ≡ true
      → reclaim_body T id now s ≢ ok (false, s')
  unfolding reclaim_body reclaim_active set_status transition_hold apply_bucket_return
  reclaim_due id now s s' h found due e = elim (Option-cases (find_account T h.account_id s)) [
    | inl lost ↦ ground arith
    | inr (a, owner) ↦ ground arith
  ]

  -- Every hold of the second database comes from the first one; those with an id in `ids` are not
  -- due any more.
  abbrev Clears : ℕ → List String → Store T → Store T → Type 0
  Clears now ids s t =
      (id : String) (h' : Hold)
      → find_hold T id t ≡ some h'
      → ((is_expired now h' ≡ true) → find_hold T id s ≡ some h')
        × (Memᴰ id ids → is_expired now h' ≡ false)

  reclaim_expired_hold-Clears :
      (id : String) (now : ℕ) (s : Store T)
      → IsWellFormed T s
      → (won : Bool) × ((reclaim_expired_hold T id now s).0 ≡ ok won)
        × Clears now (id ∷ []) s (reclaim_expired_hold T id now s).1
  unfolding reclaim_expired_hold
  reclaim_expired_hold-Clears id now s w =
      let (won, s', done) = reclaim_body_total id now s w in
      (won, rw (transaction, done) refl, rw (transaction, done) (clears won s' done))
    where
      clears :
          (won : Bool) (s' : Store T)
          → reclaim_body T id now s ≡ ok (won, s')
          → Clears now (id ∷ []) s s'
      clears won s' done i h' found = elim (reclaim_body_ok T id now s s' won done) [
        | inl (lost, same) ↦
            let before : find_hold T i s ≡ some h' =
              subst (λ (x : Store T). find_hold T i x ≡ some h') same found in
            (
              λ due. before,
              λ m. elim (Bool-cases (is_expired now h')) [
                | inr quiet ↦ quiet
                | inl due ↦
                    let there =
                      subst (λ k. find_hold T k s ≡ some h') (Memᴰ.eq_of_singleton m) before in
                    absurd (
                      reclaim_due id now s s' h' there due
                        (subst (λ b. reclaim_body T id now s ≡ ok (b, s')) lost done))
              ],
            )
        | inr (h, acct, _, _, (there, _, _, eh, _), _) ↦
            elim (find-put_cases T.holds (with_status h expired) i s.holds h'
              (subst (λ x. T.holds.find_unique i x ≡ some h') eh found)) [
                | inl (e, _) ↦
                    let quiet : is_expired now h' ≡ false =
                      rw (← e) (is_expired-status now h expired refl) in
                    (λ due. ground (arith, sym due ∙ quiet), λ m. quiet)
                | inr (other, before) ↦ (
                  λ due. before,
                  λ m.
                      let same : h.id ≡ i =
                        T.holds.find_unique-id id s.holds h there ∙ sym (Memᴰ.eq_of_singleton m) in
                      ground (arith, sym other ∙ (eq_iff h.id i).1 same),
                )
              ]
      ]

  reclaim_all-Clears :
      (now count : ℕ) (ids : List String) (s : Store T)
      → IsWellFormed T s
      → (total : ℕ) × ((reclaim_all T now count ids s).0 ≡ ok total)
        × Clears now ids s (reclaim_all T now count ids s).1
  unfolding reclaim_all
  reclaim_all-Clears now count [] s w =
      (count, refl, λ id h' found. (λ due. found, λ m. absurd (Memᴰ.not-nil m)))
  reclaim_all-Clears now count (i ∷ ids) s w =
      let (won, done, first) = reclaim_expired_hold-Clears i now s w in
      let s' = (reclaim_expired_hold T i now s).1 in
      let count' = if won then count + 1 else count in
      let (total, all, rest) =
        reclaim_all-Clears now count' ids s' (reclaim_expired_hold-IsWellFormed T i now s w) in
      let e = reclaim_all_next T now count i ids s won done in
      (
        total,
        ap (λ r. r.0) e ∙ all,
        subst (λ (r : Result Error ℕ × Store T). Clears now (i ∷ ids) s r.1) (sym e)
            (λ id h' found.
              let (before, cleared) = rest id h' found in
              (
                λ due. (first id h' (before due)).0 due,
                λ m. elim (Memᴰ.cases_cons m) [
                  | inr later ↦ cleared later
                  | inl same ↦ elim (Bool-cases (is_expired now h')) [
                    | inr quiet ↦ quiet
                    | inl due ↦ (first id h' (before due)).1 (Memᴰ.head same)
                  ]
                ],
              )),
      )

  -- In a well-formed database a sweep returns, whatever holds there are, and leaves no active hold
  -- whose `expiresAt` is past.
  pub sweep_expired_holds_clears :
      (now : ℕ) (s : Store T)
      → IsWellFormed T s
      → (total : ℕ) × ((sweep_expired_holds T now s).0 ≡ ok total)
        × ((id : String) (h : Hold)
            → find_hold T id (sweep_expired_holds T now s).1 ≡ some h
            → is_expired now h ≡ false)
  unfolding sweep_expired_holds
  sweep_expired_holds_clears now s w =
      let ids = map (λ h. h.id) (T.holds.find_many (is_expired now) s.holds) in
      let (total, done, clears) = reclaim_all-Clears now 0 ids s w in
      (
        total,
        done,
        λ id h found.
            let (before, cleared) = clears id h found in
            elim (Bool-cases (is_expired now h)) [
              | inr quiet ↦ quiet
              | inl due ↦
                  let was = before due in
                  let same : h.id ≡ id = T.holds.find_unique-id id s.holds h was in
                  cleared (
                    Memᴰ.cast (sym same) (
                      T.holds.find_many_complete (is_expired now) s.holds h (same_hold T id s h was)
                        due))
            ],
      )
