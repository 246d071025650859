-- ===== src/User/Refresh/Once.antt =====
-- A refresh token is rotated at most once, and one that is shown again late revokes its namespace.
use mathlib.Core.Path.{subst}
use kokoro_platform.Base.{
  ℕ, ◌+◌, ◌<◌, String, ◌≡◌, refl, sym, ap, ◌∙◌, inl, inr, true, false, none, some, is_some, ◌==◌,
  eq_refl, arith, Bool-cases, Option-cases,
}
use kokoro_platform.Base.Table.{Table}
use kokoro_platform.Base.Table.Update.{update_many_meets, update_many_misses}
use kokoro_platform.User.Refresh.{
  RefreshToken, is_usable, is_live_in, is_replayed, revoked, find_by_hash, revoke_all_for_namespace,
  consume, replay_grace_ms,
}
use kokoro_platform.User.Refresh.Rotation.{consumes, Reach, UniqueHashes, find_by_hash_unique}
use kokoro_platform.User.Refresh.Aging.{hash-stored, Step-keeps, Reach-Kept, Reach-UniqueHashes}

module _ {Rows : Type 0} (T : Table {Row = RefreshToken} (λ r. r.id) Rows) where
  consume_spent :
      (hash : String) (now : ℕ) (s : Rows) (r : RefreshToken)
      → find_by_hash T hash s ≡ some r
      → is_some r.consumed_at ≡ true
      → (consume T hash now s).0 ≡ none
  unfolding consume
  consume_spent hash now s r found spent =
      let not_usable : is_usable now r ≡ false = ground arith in ground arith

  consume_ok :
      (hash : String) (now : ℕ) (s s' : Rows) (r : RefreshToken)
      → consume T hash now s ≡ (some r, s')
      → (r.token_hash ≡ hash) × (is_some r.consumed_at ≡ true) × (T.find_unique r.id s' ≡ some r)
  unfolding consume
  consume_ok hash now s s' r done = elim (Option-cases (find_by_hash T hash s)) [
    | inl absent ↦ absurd (ground (arith, ap (λ x. x.0) done))
    | inr (o, found) ↦
        let (same, stored) = hash-stored T hash s o found in
        let used = record o { consumed_at = some now } in
        elim (Bool-cases (is_usable now o)) [
          | inr spent ↦ absurd (ground (arith, ap (λ x. x.0) done))
          | inl usable ↦
              let it : used ≡ r = ground (arith, ap (λ x. x.0) done) in
              let written : T.put used s ≡ s' = ground (arith, ap (λ x. x.1) done) in
              (
                ap (λ x. x.token_hash) (sym it) ∙ same,
                ap (λ x. is_some x.consumed_at) (sym it),
                subst (λ x. T.find_unique x.id s' ≡ some x) it
                    (ap (T.find_unique o.id) (sym written) ∙ T.find_unique-put_self used s),
              )
        ]
  ]

  -- A token is consumed at most once: where hashes belong to one row each, after a call of consume has
  -- returned the row of a hash, whatever calls the database serves then, no call of consume with that
  -- hash returns a row again.
  pub consume_once :
      {t : Rows} (hash : String) (now now' : ℕ) (s s' : Rows) (r : RefreshToken)
      → UniqueHashes T s
      → consume T hash now s ≡ (some r, s')
      → Reach T s' t
      → (consume T hash now' t).0 ≡ none
  consume_once {t} hash now now' s s' r unique done reach =
      let (named, spent, stored) = consume_ok hash now s s' r done in
      let unique' =
        subst (UniqueHashes T) (ap (λ x. x.1) done) ((Step-keeps T (consumes hash now)).1 unique) in
      let (r', there, a) = Reach-Kept T reach r.id r stored in
      let found = find_by_hash_unique T t r.id r' (Reach-UniqueHashes T reach unique') there in
      consume_spent hash now' t r'
        (ap (λ k. find_by_hash T k t) (sym (a.same_hash ∙ named)) ∙ found) (a.consumed spent)

  -- A token that is shown again more than the grace of a minute after it was consumed is refused, and
  -- every token of its namespace that is there is revoked after that.
  pub consume_replayed :
      (hash : String) (now at : ℕ) (s : Rows) (r : RefreshToken) (i : String) (o : RefreshToken)
      → find_by_hash T hash s ≡ some r
      → r.consumed_at ≡ some at
      → at + replay_grace_ms < now
      → T.find_unique i s ≡ some o
      → o.namespace ≡ r.namespace
      → ((consume T hash now s).0 ≡ none)
        × ((o' : RefreshToken) × (T.find_unique i (consume T hash now s).1 ≡ some o')
            × (is_some o'.revoked_at ≡ true))
  unfolding consume revoke_all_for_namespace
  consume_replayed hash now at s r i o found consumed late there same =
      let spent : is_usable now r ≡ false = ground arith in
      let replayed : is_replayed now r.consumed_at ≡ true = rw consumed (ground arith) in
      let e : revoke_all_for_namespace T r.namespace now s ≡ (consume T hash now s).1 =
        ground arith in
      elim (Bool-cases (is_live_in r.namespace o)) [
        | inl live ↦
            let dead : is_live_in r.namespace (revoked now o) ≡ false = ground arith in
            let now_revoked =
              update_many_meets T (is_live_in r.namespace) (revoked now) (λ x. refl) i s o there
                live dead in
            (ground arith, (revoked now o, ap (T.find_unique i) (sym e) ∙ now_revoked, refl))
        | inr other ↦
            let named : (o.namespace == r.namespace) ≡ true = rw same (eq_refl r.namespace) in
            let as_before =
              update_many_misses T (is_live_in r.namespace) (revoked now) (λ x. refl) i s o there
                other in
            (ground arith, (o, ap (T.find_unique i) (sym e) ∙ as_before, ground arith))
      ]
