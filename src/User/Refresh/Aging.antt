-- ===== src/User/Refresh/Aging.antt =====
-- What the calls of the repository keep of every token.
use mathlib.Core.Path.{subst}
use kokoro_platform.Base.{
  ℕ, String, ◌≡◌, ◌≢◌, refl, sym, ap, ◌∙◌, ◌⊎◌, inl, inr, none, some, ◌==◌, eq_iff, eq_refl, arith,
  Bool-cases, Option-cases,
}
use kokoro_platform.Base.Table.{Table, find-put_cases}
use kokoro_platform.User.Refresh.{
  RefreshToken, IssueInput, new_token, is_usable, is_replayed, find_by_hash, issue,
  revoke_all_for_namespace, consume, mark_replaced,
}
use kokoro_platform.User.Refresh.Rotation.{
  Step, issues, consumes, replaces, revokes, Reach, here, next, Ages-refl, Kept, Known, same-Kept,
  same-Known, put-Kept, put-Known, revoke_all_for_namespace-Kept, revoke_all_for_namespace-Known,
  UniqueHashes, Kept-UniqueHashes,
}

module _ {Rows : Type 0} (T : Table {Row = RefreshToken} (λ r. r.id) Rows) where
  pub hash-stored :
      (hash : String) (s : Rows) (r : RefreshToken)
      → find_by_hash T hash s ≡ some r
      → (r.token_hash ≡ hash) × (T.find_unique r.id s ≡ some r)
  hash-stored hash s r found =
      let (same, stored) = T.find_first_sound (λ x. x.token_hash == hash) (λ _. 0) s r found in
      ((eq_iff r.token_hash hash).0 same, stored)

  -- What `consume` does to the rows.
  consume_keeps :
      (hash : String) (now : ℕ) (s : Rows)
      → Kept T s (consume T hash now s).1 × Known T s (consume T hash now s).1
  unfolding consume
  consume_keeps hash now s = elim (Option-cases (find_by_hash T hash s)) [
    | inl absent ↦
        let e : (consume T hash now s).1 ≡ s = ground arith in
        (same-Kept T s _ e, same-Known T s _ e)
    | inr (r, found) ↦
        let (_, stored) = hash-stored hash s r found in
        let used = record r { consumed_at = some now } in
        elim (Bool-cases (is_usable now r)) [
          | inl usable ↦
              let e : T.put used s ≡ (consume T hash now s).1 = ground arith in
              (
                subst (Kept T s) e (
                    put-Kept T s r used stored refl
                      (record { same_hash = refl; consumed = λ h. refl })),
                subst (Known T s) e (put-Known T s r used stored refl),
              )
          | inr spent ↦ elim (Bool-cases (is_replayed now r.consumed_at)) [
            | inl replayed ↦
                let e : revoke_all_for_namespace T r.namespace now s ≡ (consume T hash now s).1 =
                  ground arith in
                (
                  subst (Kept T s) e (revoke_all_for_namespace-Kept T r.namespace now s),
                  subst (Known T s) e (revoke_all_for_namespace-Known T r.namespace now s),
                )
            | inr not_replayed ↦
                let e : (consume T hash now s).1 ≡ s = ground arith in
                (same-Kept T s _ e, same-Known T s _ e)
          ]
        ]
  ]

  mark_replaced_keeps :
      (old_id new_id : String) (s : Rows)
      → Kept T s (mark_replaced T old_id new_id s).1 × Known T s (mark_replaced T old_id new_id s).1
  unfolding mark_replaced
  mark_replaced_keeps old_id new_id s = elim (Option-cases (T.find_unique old_id s)) [
    | inl absent ↦
        let e : (mark_replaced T old_id new_id s).1 ≡ s = ground arith in
        (same-Kept T s _ e, same-Known T s _ e)
    | inr (r, found) ↦
        let named = T.find_unique-id old_id s r found in
        let stored : T.find_unique r.id s ≡ some r = ap (λ k. T.find_unique k s) named ∙ found in
        let changed = record r { replaced_by_id = some new_id } in
        let e : T.put changed s ≡ (mark_replaced T old_id new_id s).1 = ground arith in
        (
          subst (Kept T s) e
              (put-Kept T s r changed stored refl (record { same_hash = refl; consumed = λ h. h })),
          subst (Known T s) e (put-Known T s r changed stored refl),
        )
  ]

  issue_cases :
      (now : ℕ) (id : String) (input : IssueInput) (s : Rows)
      → ((issue T now id input s).1 ≡ s)
        ⊎ ((T.find_unique id s ≡ none)
            × (find_by_hash T input.token_hash s ≡ none)
            × ((issue T now id input s).1 ≡ T.put (new_token now id input) s))
  unfolding issue
  issue_cases now id input s = elim (Option-cases (T.find_unique id s)) [
    | inr (r, taken) ↦ inl (ground arith)
    | inl fresh ↦ elim (Option-cases (find_by_hash T input.token_hash s)) [
      | inr (r, used) ↦ inl (ground arith)
      | inl unused ↦ inr (fresh, unused, ground arith)
    ]
  ]

  new-Kept : (s : Rows) (n : RefreshToken) → T.find_unique n.id s ≡ none → Kept T s (T.put n s)
  new-Kept s n fresh i r found = (
    r,
    T.find_unique-put_ne n i s
          (λ e. ground (arith, sym fresh ∙ ap (λ k. T.find_unique k s) e ∙ found))
        ∙ found,
    Ages-refl T r,
  )

  -- No row has the hash of a new token.
  unused_hash :
      (s : Rows) (hash : String) (i : String) (r : RefreshToken)
      → find_by_hash T hash s ≡ none
      → T.find_unique i s ≡ some r
      → r.token_hash ≢ hash
  unused_hash s hash i r unused found same =
      let named = T.find_unique-id i s r found in
      let there : T.find_unique r.id s ≡ some r = ap (λ k. T.find_unique k s) named ∙ found in
      let (x, present, _) =
        T.find_first_complete (λ y. y.token_hash == hash) (λ _. 0) s r there
          (rw same (eq_refl hash)) in
      ground (arith, sym unused ∙ present)

  new-UniqueHashes :
      (s : Rows) (n : RefreshToken)
      → find_by_hash T n.token_hash s ≡ none
      → UniqueHashes T s
      → UniqueHashes T (T.put n s)
  new-UniqueHashes s n unused unique i j r r' found found' same =
      elim (find-put_cases T n i s r found) [
        | inl (is_n, at_i) ↦ elim (find-put_cases T n j s r' found') [
          | inl (_, at_j) ↦ sym at_i ∙ at_j
          | inr (_, old') ↦ absurd (
              unused_hash s n.token_hash j r' unused old'
                (sym same ∙ ap (λ x. x.token_hash) (sym is_n)))
        ]
        | inr (_, old) ↦ elim (find-put_cases T n j s r' found') [
          | inl (is_n, _) ↦
              absurd (
                unused_hash s n.token_hash i r unused old
                  (same ∙ ap (λ x. x.token_hash) (sym is_n)))
          | inr (_, old') ↦ unique i j r r' old old' same
        ]
      ]

  -- A table without rows.
  pub empty-UniqueHashes : (s : Rows) → ((i : String) → T.find_unique i s ≡ none) → UniqueHashes T s
  empty-UniqueHashes s empty i j r r' found _ _ = absurd (ground (arith, sym (empty i) ∙ found))

  pub Step-keeps : {s t : Rows} → Step T s t → Kept T s t × (UniqueHashes T s → UniqueHashes T t)
  Step-keeps {s} (issues now id input) = elim (issue_cases now id input s) [
    | inl e ↦
        (same-Kept T s _ e, λ u. Kept-UniqueHashes T s _ (same-Kept T s _ e) (same-Known T s _ e) u)
    | inr (fresh, unused, e) ↦ (
      subst (Kept T s) (sym e) (new-Kept s (new_token now id input) fresh),
      λ u. subst (UniqueHashes T) (sym e) (new-UniqueHashes s (new_token now id input) unused u),
    )
  ]
  Step-keeps {s} (consumes hash now) =
      let (kept, known) = consume_keeps hash now s in (kept, Kept-UniqueHashes T s _ kept known)
  Step-keeps {s} (replaces old_id new_id) =
      let (kept, known) = mark_replaced_keeps old_id new_id s in
      (kept, Kept-UniqueHashes T s _ kept known)
  Step-keeps {s} (revokes namespace now) =
      let kept = revoke_all_for_namespace-Kept T namespace now s in
      (kept, Kept-UniqueHashes T s _ kept (revoke_all_for_namespace-Known T namespace now s))

  -- The database keeps hashes to one row each.
  pub Reach-UniqueHashes : {s t : Rows} → Reach T s t → UniqueHashes T s → UniqueHashes T t
  Reach-UniqueHashes here u = u
  Reach-UniqueHashes (next r step) u = (Step-keeps step).1 (Reach-UniqueHashes r u)

  pub Reach-Kept : {s t : Rows} → Reach T s t → Kept T s t
  Reach-Kept here i r found = (r, found, Ages-refl T r)
  Reach-Kept (next reach step) i r found =
      let (r', there, a) = Reach-Kept reach i r found in
      let (r'', there', b) = (Step-keeps step).0 i r' there in
      (
        r'',
        there',
        record { same_hash = b.same_hash ∙ a.same_hash; consumed = λ h. b.consumed (a.consumed h) },
      )
