-- ===== src/User/Refresh.antt =====
-- Refresh tokens: kokoro-user/src/domain/refresh-token.ts,
-- src/infrastructure/prisma/prisma-refresh-token-repository.ts and src/application/refresh-service.ts.
-- The hash and the signer of sessions are parameters, and so is the text of a new token.
pub mod Rotation
pub mod Service
pub mod Aging
pub mod Once
pub mod Sessions
pub mod Tests
use kokoro_platform.Base.{
  ℕ, ◌+◌, String, Bool, true, false, not, ◌&&◌, Option, none, some, is_some, ◌==◌, ltb,
  if◌then◌else◌,
}
use kokoro_platform.Base.Effect.{ok, err, Action}
use kokoro_platform.Base.Table.{Table}
use kokoro_platform.Base.Table.Update.{update_many}

pub record RefreshToken : Type 0 where
  pub id : String
  pub namespace : String
  pub site_id : String
  pub token_hash : String
  pub token_prefix : String
  pub expires_at : ℕ
  pub consumed_at : Option ℕ
  pub revoked_at : Option ℕ
  pub replaced_by_id : Option String
  pub created_at : ℕ

pub record IssueInput : Type 0 where
  pub namespace : String
  pub site_id : String
  pub token_hash : String
  pub token_prefix : String
  pub expires_at : ℕ

pub data RefreshError : Type 0 where
  refresh_token_invalid unique_conflict record_missing : RefreshError

-- `REFRESH_REPLAY_GRACE_MS`
abbrev pub replay_grace_ms : ℕ
replay_grace_ms = 60_000

abbrev pub new_token : ℕ → String → IssueInput → RefreshToken
new_token now id input = record {
  id = id;
  namespace = input.namespace;
  site_id = input.site_id;
  token_hash = input.token_hash;
  token_prefix = input.token_prefix;
  expires_at = input.expires_at;
  consumed_at = none;
  revoked_at = none;
  replaced_by_id = none;
  created_at = now;
}

-- What `consume` asks of the row.
abbrev pub is_usable : ℕ → RefreshToken → Bool
is_usable now r = not (is_some r.consumed_at) && not (is_some r.revoked_at) && ltb now r.expires_at

abbrev pub is_live_in : String → RefreshToken → Bool
is_live_in namespace r = (r.namespace == namespace) && not (is_some r.revoked_at)

abbrev pub revoked : ℕ → RefreshToken → RefreshToken
revoked now r = record r { revoked_at = some now }

-- Consumed, and longer ago than the grace.
abbrev pub is_replayed : ℕ → Option ℕ → Bool
is_replayed now none = false
is_replayed now (some at) = ltb (at + replay_grace_ms) now

module _ {Rows : Type 0} (T : Table {Row = RefreshToken} (λ r. r.id) Rows) where
  -- `tokenHash` is a unique column.
  abbrev pub find_by_hash : String → Rows → Option RefreshToken
  find_by_hash hash s = T.find_first (λ r. r.token_hash == hash) (λ _. 0) s

  unfoldable pub issue : ℕ → String → IssueInput → Action Rows RefreshError RefreshToken
  issue now id input s = elim (T.find_unique id s) [
    | some _ ↦ (err unique_conflict, s)
    | none ↦ elim (find_by_hash input.token_hash s) [
      | some _ ↦ (err unique_conflict, s)
      | none ↦ let r = new_token now id input in (ok r, T.put r s)
    ]
  ]

  unfoldable pub revoke_all_for_namespace : String → ℕ → Rows → Rows
  revoke_all_for_namespace namespace now s = update_many T (is_live_in namespace) (revoked now) s

  -- The row is consumed where it can be used; a row that was consumed long ago revokes its namespace.
  unfoldable pub consume : String → ℕ → Rows → Option RefreshToken × Rows
  unfolding revoke_all_for_namespace
  consume hash now s = elim (find_by_hash hash s) [
    | none ↦ (none, s)
    | some r ↦
        if is_usable now r
        then (let used = record r { consumed_at = some now } in (some used, T.put used s))
        else if is_replayed now r.consumed_at
        then (none, revoke_all_for_namespace r.namespace now s)
        else (none, s)
  ]

  unfoldable pub mark_replaced : String → String → Action Rows RefreshError RefreshToken
  mark_replaced old_id new_id s = elim (T.find_unique old_id s) [
    | none ↦ (err record_missing, s)
    | some r ↦ let next = record r { replaced_by_id = some new_id } in (ok next, T.put next s)
  ]
