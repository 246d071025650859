-- ===== src/User/Refresh/Service.antt =====
-- kokoro-user/src/application/refresh-service.ts.
use kokoro_platform.Base.{ℕ, ◌+◌, ◌*◌, ◌/◌, String, none, some}
use kokoro_platform.Base.Effect.{err, Action}
use kokoro_platform.Base.Effect.Async.{pure, ◌>>=◌, ◌>>◌}
use kokoro_platform.Base.Table.{Table}
use kokoro_platform.User.Refresh.{
  RefreshToken, IssueInput, RefreshError, refresh_token_invalid, issue, consume, mark_replaced,
  find_by_hash, revoke_all_for_namespace,
}

pub record Options : Type 0 where
  pub issuer : String
  pub jwt_ttl_seconds : ℕ
  pub refresh_ttl_seconds : ℕ

-- What the signer of sessions signs.
pub record Claims : Type 0 where
  pub sub : String
  pub iss : String
  pub site_id : String
  pub issued_at_seconds : ℕ
  pub expires_at_seconds : ℕ

pub record IssuedRefresh : Type 0 where
  pub refresh_token : String
  pub expires_at : ℕ

pub record RotatedSession : Type 0 where
  pub token : String
  pub namespace : String
  pub site_id : String
  pub refresh_token : String
  pub refresh_expires_at : ℕ

-- The clock, the id of a new row, and the text that `generateRefreshToken` gives.
pub record Context : Type 0 where
  pub now : ℕ
  pub new_id : String
  pub new_token : String

module _ {Rows : Type 0} (T : Table {Row = RefreshToken} (λ r. r.id) Rows) (options : Options)
    (hash : String → String) (prefix : String → String) (sign : Claims → String) where
  abbrev pub mint_input : Context → String → String → IssueInput
  mint_input ctx namespace site_id = record {
    namespace = namespace;
    site_id = site_id;
    token_hash = hash ctx.new_token;
    token_prefix = prefix ctx.new_token;
    expires_at = ctx.now + options.refresh_ttl_seconds * 1000;
  }

  unfoldable pub mint : Context → String → String → Action Rows RefreshError RefreshToken
  mint ctx namespace site_id = issue T ctx.now ctx.new_id (mint_input ctx namespace site_id)

  unfoldable pub issue_token : Context → String → String → Action Rows RefreshError IssuedRefresh
  unfolding mint
  issue_token ctx namespace site_id = do
    minted ← mint ctx namespace site_id
    pure (record { refresh_token = ctx.new_token; expires_at = minted.expires_at })

  abbrev pub claims : Context → RefreshToken → Claims
  claims ctx old = record {
    sub = old.namespace;
    iss = options.issuer;
    site_id = old.site_id;
    issued_at_seconds = ctx.now / 1000;
    expires_at_seconds = ctx.now / 1000 + options.jwt_ttl_seconds;
  }

  -- The new access token, and the new refresh token in the chain.
  unfoldable pub replace : Context → RefreshToken → Action Rows RefreshError RotatedSession
  unfolding mint
  replace ctx old = do
    let token = sign (claims ctx old)
    minted ← mint ctx old.namespace old.site_id
    mark_replaced T old.id minted.id
    pure (record {
      token = token;
      namespace = old.namespace;
      site_id = old.site_id;
      refresh_token = ctx.new_token;
      refresh_expires_at = minted.expires_at;
    })

  unfoldable pub rotate : Context → String → Action Rows RefreshError RotatedSession
  unfolding replace
  rotate ctx refresh_token s =
      let (consumed, s') = consume T (hash refresh_token) ctx.now s in
      elim consumed [ none ↦ (err refresh_token_invalid, s') | some old ↦ replace ctx old s' ]

  -- Logging out is silent for a token that is not known.
  unfoldable pub revoke : ℕ → String → Rows → Rows
  revoke now refresh_token s = elim (find_by_hash T (hash refresh_token) s) [
    | none ↦ s
    | some r ↦ revoke_all_for_namespace T r.namespace now s
  ]
