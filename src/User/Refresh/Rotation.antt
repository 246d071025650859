-- ===== src/User/Refresh/Rotation.antt =====
-- A refresh token is used once, and a late second use ends its session.
use mathlib.Core.Path.{subst}
use kokoro_platform.Base.{
  ℕ, String, ◌≡◌, refl, sym, ap, ◌∙◌, inl, inr, true, false, none, some, is_some, ◌==◌, eq_iff,
  eq_refl, arith, Bool-cases, Option-cases,
}
use kokoro_platform.Base.Table.{Table}
use kokoro_platform.Base.Table.Update.{update_many_meets, update_many_misses, update_many-none}
use kokoro_platform.User.Refresh.{
  RefreshToken, IssueInput, is_live_in, revoked, find_by_hash, issue, revoke_all_for_namespace,
  consume, mark_replaced,
}

module _ {Rows : Type 0} (T : Table {Row = RefreshToken} (λ r. r.id) Rows) where
  pub data Step (s : Rows) : Rows → Type 0 where
    issues : (now : ℕ) (id : String) (input : IssueInput) → Step s (issue T now id input s).1
    consumes : (hash : String) (now : ℕ) → Step s (consume T hash now s).1
    replaces : (old_id new_id : String) → Step s (mark_replaced T old_id new_id s).1
    revokes : (namespace : String) (now : ℕ) → Step s (revoke_all_for_namespace T namespace now s)

  pub data Reach (s : Rows) : Rows → Type 0 where
    here : Reach s s
    next : {t u : Rows} → Reach s t → Step t u → Reach s u

  -- The row is still the one of its hash, and is consumed where it was.
  pub record Ages (r r' : RefreshToken) : Type 0 where
    pub same_hash : r'.token_hash ≡ r.token_hash
    pub consumed : is_some r.consumed_at ≡ true → is_some r'.consumed_at ≡ true

  pub Ages-refl : (r : RefreshToken) → Ages r r
  Ages-refl r = record { same_hash = refl; consumed = λ h. h }

  -- One row has aged, with every other as it is.
  abbrev pub Kept : Rows → Rows → Type 0
  Kept s t =
      (i : String) (r : RefreshToken)
      → T.find_unique i s ≡ some r
      → (r' : RefreshToken) × (T.find_unique i t ≡ some r') × Ages r r'

  -- No row has come about.
  abbrev pub Known : Rows → Rows → Type 0
  Known s t = (i : String) → T.find_unique i s ≡ none → T.find_unique i t ≡ none

  pub same-Kept : (s t : Rows) → t ≡ s → Kept s t
  same-Kept s t e i r found = (r, ap (T.find_unique i) e ∙ found, Ages-refl r)

  pub same-Known : (s t : Rows) → t ≡ s → Known s t
  same-Known s t e i absent = ap (T.find_unique i) e ∙ absent

  pub put-Kept :
      (s : Rows) (o o' : RefreshToken)
      → T.find_unique o.id s ≡ some o
      → o'.id ≡ o.id
      → Ages o o'
      → Kept s (T.put o' s)
  put-Kept s o o' there same_id ages i r found = elim (Bool-cases (o'.id == i)) [
    | inl same ↦
        let e = (eq_iff o'.id i).0 same in
        let it : some o ≡ some r =
          sym there ∙ ap (λ k. T.find_unique k s) (sym same_id ∙ e) ∙ found in
        let eq : o ≡ r = ground (arith, it) in
        (
          o',
          ap (λ k. T.find_unique k (T.put o' s)) (sym e) ∙ T.find_unique-put_self o' s,
          subst (λ x. Ages x o') eq ages,
        )
    | inr other ↦ (
      r,
      T.find_unique-put_ne o' i s (λ e. ground (arith, eq_iff o'.id i, e)) ∙ found,
      Ages-refl r,
    )
  ]

  pub put-Known :
      (s : Rows) (o o' : RefreshToken)
      → T.find_unique o.id s ≡ some o
      → o'.id ≡ o.id
      → Known s (T.put o' s)
  put-Known s o o' there same_id i absent =
      T.find_unique-put_ne o' i s
        (λ e. ground (arith, sym there ∙ ap (λ k. T.find_unique k s) (sym same_id ∙ e) ∙ absent))
      ∙ absent

  pub revoke_all_for_namespace-Kept :
      (namespace : String) (now : ℕ) (s : Rows)
      → Kept s (revoke_all_for_namespace T namespace now s)
  unfolding revoke_all_for_namespace
  revoke_all_for_namespace-Kept namespace now s i r found =
      elim (Bool-cases (is_live_in namespace r)) [
        | inl live ↦
            let dead : is_live_in namespace (revoked now r) ≡ false = ground arith in
            (
              revoked now r,
              update_many_meets T (is_live_in namespace) (revoked now) (λ x. refl) i s r found live
                  dead,
              record { same_hash = refl; consumed = λ h. h },
            )
        | inr other ↦ (
          r,
          update_many_misses T (is_live_in namespace) (revoked now) (λ x. refl) i s r found other,
          Ages-refl r,
        )
      ]

  pub revoke_all_for_namespace-Known :
      (namespace : String) (now : ℕ) (s : Rows)
      → Known s (revoke_all_for_namespace T namespace now s)
  unfolding revoke_all_for_namespace
  revoke_all_for_namespace-Known namespace now s i absent =
      update_many-none T (is_live_in namespace) (revoked now) (λ x. refl) i s absent

  -- A hash belongs to one row.
  abbrev pub UniqueHashes : Rows → Type 0
  UniqueHashes s =
      (i j : String) (r r' : RefreshToken)
      → T.find_unique i s ≡ some r
      → T.find_unique j s ≡ some r'
      → r.token_hash ≡ r'.token_hash
      → i ≡ j

  -- The row of a hash is the one that is found by it.
  pub find_by_hash_unique :
      (s : Rows) (id : String) (r : RefreshToken)
      → UniqueHashes s
      → T.find_unique id s ≡ some r
      → find_by_hash T r.token_hash s ≡ some r
  find_by_hash_unique s id r unique found =
      let named = T.find_unique-id id s r found in
      let there : T.find_unique r.id s ≡ some r = ap (λ k. T.find_unique k s) named ∙ found in
      let (first, is_first, _) =
        T.find_first_complete (λ x. x.token_hash == r.token_hash) (λ _. 0) s r there
          (eq_refl r.token_hash) in
      let (same, stored) =
        T.find_first_sound (λ x. x.token_hash == r.token_hash) (λ _. 0) s first is_first in
      let e =
        unique first.id r.id first r stored there ((eq_iff first.token_hash r.token_hash).0 same) in
      let it : some first ≡ some r = sym stored ∙ ap (λ k. T.find_unique k s) e ∙ there in
      is_first ∙ it

  pub Kept-UniqueHashes : (s t : Rows) → Kept s t → Known s t → UniqueHashes s → UniqueHashes t
  Kept-UniqueHashes s t kept known unique i j r r' found found' same =
      elim (Option-cases (T.find_unique i s)) [
        | inl absent ↦ absurd (ground (arith, sym found ∙ known i absent))
        | inr (o, was) ↦ elim (Option-cases (T.find_unique j s)) [
          | inl absent ↦ absurd (ground (arith, sym found' ∙ known j absent))
          | inr (o', was') ↦
              let (x, there, a) = kept i o was in
              let (x', there', a') = kept j o' was' in
              let e : some x ≡ some r = sym there ∙ found in
              let e' : some x' ≡ some r' = sym there' ∙ found' in
              let h : x.token_hash ≡ r.token_hash = ground (arith, e) in
              let h' : x'.token_hash ≡ r'.token_hash = ground (arith, e') in
              unique i j o o' was was' (sym a.same_hash ∙ h ∙ same ∙ sym h' ∙ a'.same_hash)
        ]
      ]
