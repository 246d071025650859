-- ===== src/User/Refresh/Sessions.antt =====
-- What RefreshService.rotate gives its callers.
use mathlib.Core.Path.{subst}
use kokoro_platform.Base.{String, ◌≡◌, ap, ◌∙◌, inl, inr, arith, Option-cases}
use kokoro_platform.Base.Effect.{ok, err}
use kokoro_platform.Base.Effect.Async.{pure, ◌>>◌, bind_ok}
use kokoro_platform.Base.Table.{Table}
use kokoro_platform.User.Refresh.{
  RefreshToken, refresh_token_invalid, issue, consume, mark_replaced,
}
use kokoro_platform.User.Refresh.Service.{
  Options, Claims, RotatedSession, Context, mint, mint_input, claims, replace, rotate,
}
use kokoro_platform.User.Refresh.Rotation.{issues, replaces, Reach, here, next, UniqueHashes}
use kokoro_platform.User.Refresh.Once.{consume_once}

module _ {Rows : Type 0} (T : Table {Row = RefreshToken} (λ r. r.id) Rows) where
  Reach-trans : {s t u : Rows} → Reach T s t → Reach T t u → Reach T s u
  Reach-trans r here = r
  Reach-trans r (next q step) = next (Reach-trans r q) step

  module _ (options : Options) (hash : String → String) (prefix : String → String)
      (sign : Claims → String) where
    -- A replacement is an issue and an entry in the chain.
    replace-Reach :
        (ctx : Context) (old : RefreshToken) (s s' : Rows) (x : RotatedSession)
        → replace T options hash prefix sign ctx old s ≡ (ok x, s')
        → Reach T s s'
    unfolding replace mint
    replace-Reach ctx old s s' x done =
        let input = mint_input T options hash prefix sign ctx old.namespace old.site_id in
        let session = λ (m : RefreshToken).
          let r : RotatedSession = record {
            token = sign (claims T options hash prefix sign ctx old);
            namespace = old.namespace;
            site_id = old.site_id;
            refresh_token = ctx.new_token;
            refresh_expires_at = m.expires_at;
          } in
          r in
        let (m, s₁, minted, rest) =
          bind_ok (issue T ctx.now ctx.new_id input)
            (λ m. do mark_replaced T old.id m.id; pure (session m)) s s' x done in
        let (_, s₂, marked, finished) =
          bind_ok (mark_replaced T old.id m.id) (λ _. pure (session m)) s₁ s' x rest in
        subst (Reach T s) (ap (λ y. y.1) marked ∙ ap (λ y. y.1) finished) (
          next
            (subst (Reach T s) (ap (λ y. y.1) minted) (next here (issues ctx.now ctx.new_id input)))
            (replaces old.id m.id))

    -- A refresh token buys one session: where hashes belong to one row each, after a rotation has
    -- returned a session, whatever calls the database serves then, every other rotation of the same
    -- token is refused as invalid.
    pub rotate_once :
        {t : Rows} (ctx ctx' : Context) (refresh_token : String) (s s' : Rows) (x : RotatedSession)
        → UniqueHashes T s
        → rotate T options hash prefix sign ctx refresh_token s ≡ (ok x, s')
        → Reach T s' t
        → (rotate T options hash prefix sign ctx' refresh_token t).0 ≡ err refresh_token_invalid
    unfolding rotate
    rotate_once {t} ctx ctx' refresh_token s s' x unique done reach =
        let first = consume T (hash refresh_token) ctx.now s in
        elim (Option-cases first.0) [
          | inl refused ↦ absurd (ground (arith, ap (λ y. y.0) done))
          | inr (old, used) ↦
              let replaced : replace T options hash prefix sign ctx old first.1 ≡ (ok x, s') =
                ground (arith, used, done) in
              let later = Reach-trans (replace-Reach ctx old first.1 s' x replaced) reach in
              let again =
                consume_once T (hash refresh_token) ctx.now ctx'.now s first.1 old unique
                  (ap (λ o. (o, first.1)) used) later in
              ground (arith, again)
        ]
