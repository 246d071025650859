-- ===== src/User/Refresh/Tests.antt =====
-- A table of refresh tokens, and the theorems on it.
use kokoro_platform.Base.{String, ◌≡◌, refl, true, none, some, is_some, [], arith}
use kokoro_platform.Base.Effect.{ok, err}
use kokoro_platform.Base.Table.{Table}
use kokoro_platform.Base.Table.Listed.{Listed, listed}
use kokoro_platform.User.Refresh.{
  RefreshToken, IssueInput, RefreshError, refresh_token_invalid, new_token, consume,
  replay_grace_ms,
}
use kokoro_platform.User.Refresh.Service.{Options, Claims, RotatedSession, Context, rotate}
use kokoro_platform.User.Refresh.Rotation.{Reach, here, next, issues, UniqueHashes}
use kokoro_platform.User.Refresh.Once.{consume_replayed}
use kokoro_platform.User.Refresh.Aging.{empty-UniqueHashes, Reach-UniqueHashes}
use kokoro_platform.User.Refresh.Sessions.{rotate_once}

abbrev Rows : Type 0
Rows = Listed {Row = RefreshToken} (λ r. r.id)

abbrev table : Table {Row = RefreshToken} (λ r. r.id) Rows
table = listed (λ (r : RefreshToken). r.id)

abbrev empty : Rows
empty = ([], tt)

abbrev options : Options
options = record { issuer = "kokoro"; jwt_ttl_seconds = 900; refresh_ttl_seconds = 2_592_000 }

abbrev hash : String → String
hash t = t

abbrev sign : Claims → String
sign c = c.sub

abbrev first : Context
first = record { now = 1_000; new_id = "id-1"; new_token = "token-1" }

abbrev second : Context
second = record { now = 2_000; new_id = "id-2"; new_token = "token-2" }

abbrev third : Context
third = record { now = 3_000; new_id = "id-3"; new_token = "token-3" }

abbrev input : IssueInput
input = record {
  namespace = "team-1";
  site_id = "site-1";
  token_hash = "token-1";
  token_prefix = "token-1";
  expires_at = 9_000;
}

abbrev issued : Rows
issued = table.put (new_token 1_000 "id-1" input) empty

one_call : Reach table empty issued
unfolding kokoro_platform.User.Refresh.issue
one_call = next here (issues 1_000 "id-1" input)

issued-UniqueHashes : UniqueHashes table issued
issued-UniqueHashes =
    Reach-UniqueHashes table {s = empty} {t = issued} one_call
      (empty-UniqueHashes table empty (λ i. refl))

abbrev session : RotatedSession
session = record {
  token = "team-1";
  namespace = "team-1";
  site_id = "site-1";
  refresh_token = "token-2";
  refresh_expires_at = 2_592_002_000;
}

abbrev rotated : Rows
rotated = (rotate table options hash hash sign second "token-1" issued).1

rotates : rotate table options hash hash sign second "token-1" issued ≡ (ok session, rotated)
unfolding rotate consume kokoro_platform.User.Refresh.issue
    kokoro_platform.User.Refresh.mark_replaced
rotates = refl

rotate_once_example :
    (rotate table options hash hash sign third "token-1" rotated).0 ≡ err refresh_token_invalid
rotate_once_example =
    rotate_once table options hash hash sign second third "token-1" issued rotated session
      issued-UniqueHashes rotates here

abbrev used : RefreshToken
used = record (new_token 1_000 "id-1" input) { consumed_at = some 2_000 }

abbrev spent : Rows
spent = table.put used empty

consume_replayed_example :
    ((consume table "token-1" 62_001 spent).0 ≡ none)
    × ((o' : RefreshToken) × (table.find_unique "id-1" (consume table "token-1" 62_001 spent).1
          ≡ some o')
        × (is_some o'.revoked_at ≡ true))
consume_replayed_example =
    consume_replayed table "token-1" 62_001 2_000 spent used "id-1" used refl refl (omega arith)
      refl refl
