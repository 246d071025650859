-- ===== src/Credit/Checker.antt =====
-- kokoro-credit/src/infrastructure/http/owner-site-checker.ts: whether the site and the owner of an
-- account are active, remembered for a short time. The two services that know are arguments.
use Prim.Native.String
use kokoro_platform.Base.{
  ℕ, ◌+◌, String, Bool, true, false, Option, none, some, List, [], ◌∷◌, ◌++◌, ◌==◌, length, leb,
  eqb, if◌then◌else◌,
}
use kokoro_platform.Base.Effect.{Result, ok, err, Action}
use kokoro_platform.Credit.Types.{
  OwnerKind, user, team, EnsureAccountInput, Error, site_suspended, owner_inactive,
}

pub record CacheOptions : Type 0 where
  pub ttl_ms : ℕ
  pub max_entries : ℕ

abbrev pub default_cache_options : CacheOptions
default_cache_options = record { ttl_ms = 30_000; max_entries = 10_000 }

-- A `Map` from keys to the time at which they expire, in the order of insertion.
abbrev pub Cache : Type 0
Cache = List (String × ℕ)

abbrev pub get : String → Cache → Option ℕ
get key [] = none
get key ((k, t) ∷ c) = if k == key then some t else get key c

abbrev pub remove : String → Cache → Cache
remove key [] = []
remove key ((k, t) ∷ c) = if k == key then remove key c else (k, t) ∷ remove key c

-- `entries.keys().next()`, deleted
abbrev pub remove_oldest : Cache → Cache
remove_oldest [] = []
remove_oldest ((k, t) ∷ c) = remove k c

-- `has`, with the entries afterwards.
unfoldable pub has : CacheOptions → ℕ → String → Cache → Bool × Cache
has options now key c = if eqb options.ttl_ms 0 then (false, c) else elim (get key c) [
  | none ↦ (false, c)
  | some expires_at ↦ if leb expires_at now then (false, remove key c) else (true, c)
]

unfoldable pub set : CacheOptions → ℕ → String → Cache → Cache
set options now key c =
    if eqb options.ttl_ms 0
    then c
    else let rest = remove key c in
      let kept = if leb options.max_entries (length rest) then remove_oldest rest else rest in
      kept ++ ((key, now + options.ttl_ms) ∷ [])

pub record Caches : Type 0 where
  pub sites : Cache
  pub owners : Cache

abbrev kind_text : OwnerKind → String
kind_text user = "user"
kind_text team = "team"

-- The key of an owner names its site, since an `ownerId` is unique in its site only.
abbrev pub owner_key : EnsureAccountInput → String
owner_key a =
    String.◌++◌ a.site_id
      (String.◌++◌ ":" (String.◌++◌ (kind_text a.owner_kind) (String.◌++◌ ":" a.owner_id)))

-- One of the two checks: what is remembered, or else what the service answers; only a positive
-- answer is remembered.
unfoldable pub check_one :
    CacheOptions → ℕ → String → Result Error Bool → Error → Action Cache Error (Unit {0})
check_one options now key answer inactive c =
    let (known, c') = has options now key c in
    if known then (ok tt, c') else elim answer [
      | err e ↦ (err e, c')
      | ok active ↦ if active then (ok tt, set options now key c') else (err inactive, c')
    ]

-- `ensureAccountActive`, with what the two services answer at that time.
unfoldable pub ensure_active :
    CacheOptions
    → ℕ
    → (String → Result Error Bool)
    → (EnsureAccountInput → Result Error Bool)
    → EnsureAccountInput
    → Action Caches Error (Unit {0})
ensure_active options now site_active owner_active a s =
    let (site, sites) =
      check_one options now a.site_id (site_active a.site_id) site_suspended s.sites in
    elim site [
      | err e ↦ (err e, record { sites = sites; owners = s.owners })
      | ok _ ↦
          let (owner, owners) =
            check_one options now (owner_key a) (owner_active a) owner_inactive s.owners in
          (owner, record { sites = sites; owners = owners })
    ]
