-- ===== src/Credit/Proofs/Checker.antt =====
-- What the memory of the owner and site checker can lead to.
use kokoro_platform.Base.{
  ℕ, ◌+◌, ◌≤◌, ◌<◌, String, ◌≡◌, refl, ◌⊎◌, inl, inr, Bool, true, false, none, some, [], ◌∷◌, ◌++◌,
  ◌==◌, eq_refl, arith, length, leb, ltb, eqb, if◌then◌else◌, Bool-cases, Option-cases,
}
use kokoro_platform.Base.Effect.{Result, ok, err, Result-cases}
use kokoro_platform.Credit.Types.{EnsureAccountInput, Error, site_suspended, owner_inactive}
use kokoro_platform.Credit.Checker.{
  CacheOptions, Cache, get, remove, remove_oldest, has, set, Caches, owner_key, check_one,
  ensure_active,
}

get-remove : (key : String) (c : Cache) → get key (remove key c) ≡ none
get-remove key [] = refl
get-remove key ((k, t) ∷ c) = elim (Bool-cases (k == key)) [
  | inl same ↦ rw same (get-remove key c)
  | inr other ↦ rw (other, other) (get-remove key c)
]

get-remove-none : (i key : String) (c : Cache) → get key c ≡ none → get key (remove i c) ≡ none
get-remove-none i key [] e = refl
get-remove-none i key ((k, t) ∷ c) e = ground (arith, get-remove-none i key c)

get-remove_oldest : (key : String) (c : Cache) → get key c ≡ none → get key (remove_oldest c) ≡ none
get-remove_oldest key [] e = refl
get-remove_oldest key ((k, t) ∷ c) e = get-remove-none k key c (ground arith)

get-append :
    (key : String) (t : ℕ) (c : Cache) → get key c ≡ none → get key (c ++ ((key, t) ∷ [])) ≡ some t
get-append key t [] e = rw (eq_refl key) refl
get-append key t ((k, u) ∷ c) e = ground (arith, get-append key t c)

length-append : (x : String × ℕ) (c : Cache) → length (c ++ (x ∷ [])) ≡ length c + 1
length-append x [] = refl
length-append x (y ∷ c) = rw (length-append x c) (omega arith)

length-remove : (key : String) (c : Cache) → length (remove key c) ≤ length c
length-remove key [] = omega arith
length-remove key ((k, t) ∷ c) = ground (arith, length-remove key c)

length-remove_oldest : (c : Cache) → 0 < length c → length (remove_oldest c) < length c
length-remove_oldest [] h = absurd (omega arith)
length-remove_oldest ((k, t) ∷ c) h = omega (arith, length-remove k c)

-- With a positive lifetime, what has been remembered under a key is believed exactly until it has
-- passed since then.
pub has-set :
    (options : CacheOptions) (now later : ℕ) (key : String) (c : Cache)
    → 0 < options.ttl_ms
    → (has options later key (set options now key c)).0 ≡ ltb later (now + options.ttl_ms)
unfolding has set
has-set options now later key c h =
    let rest = remove key c in
    let gone = get-remove key c in
    let limit = leb options.max_entries (length rest) in
    let kept = if limit then remove_oldest rest else rest in
    let absent : get key kept ≡ none = elim (Bool-cases limit) [
      | inl full ↦ rw full (get-remove_oldest key rest gone)
      | inr room ↦ rw room gone
    ] in
    let found = get-append key (now + options.ttl_ms) kept absent in
    let on : eqb options.ttl_ms 0 ≡ false = ground arith in rw (on, found) (ground arith)

pub length-set :
    (options : CacheOptions) (now : ℕ) (key : String) (c : Cache)
    → 0 < options.max_entries
    → length c ≤ options.max_entries
    → length (set options now key c) ≤ options.max_entries
unfolding set
length-set options now key c h small =
    let rest = remove key c in
    let le = length-remove key c in
    elim (Bool-cases (eqb options.ttl_ms 0)) [
      | inl off ↦ rw off small
      | inr on ↦ elim (Bool-cases (leb options.max_entries (length rest))) [
        | inl full ↦
            let shorter = length-remove_oldest rest (ground arith) in
            let one = length-append (key, now + options.ttl_ms) (remove_oldest rest) in
            rw (on, full) (omega arith)
        | inr room ↦
            let one = length-append (key, now + options.ttl_ms) rest in rw (on, room) (ground arith)
      ]
    ]

length-has :
    (options : CacheOptions) (now : ℕ) (key : String) (c : Cache)
    → length (has options now key c).1 ≤ length c
unfolding has
length-has options now key c =
    let le = length-remove key c in
    elim (Option-cases (get key c)) [ inl absent ↦ ground arith | inr (t, found) ↦ ground arith ]

-- What a memory becomes by lookups and stores in any order, as the calls that are under way at one
-- time make them between their requests.
pub data CacheReach (options : CacheOptions) (c : Cache) : Cache → Type 0 where
  start : CacheReach options c c
  look :
      {d : Cache} (now : ℕ) (key : String)
      → CacheReach options c d
      → CacheReach options c (has options now key d).1
  store :
      {d : Cache} (now : ℕ) (key : String)
      → CacheReach options c d
      → CacheReach options c (set options now key d)

-- A memory that starts empty never has more entries than the limit, which is positive, whatever is
-- looked up and stored, at whatever times and in whatever order.
pub CacheReach-length :
    (options : CacheOptions) (c : Cache)
    → 0 < options.max_entries
    → CacheReach options [] c
    → length c ≤ options.max_entries
CacheReach-length options c h start = omega arith
CacheReach-length options c h (look {d} now key r) =
    let small = CacheReach-length options d h r in
    let le = length-has options now key d in omega arith
CacheReach-length options c h (store {d} now key r) =
    length-set options now key d h (CacheReach-length options d h r)

-- What one check does to its memory is a lookup, and a store where the service said yes.
check_one-CacheReach :
    (options : CacheOptions) (now : ℕ) (key : String) (answer : Result Error Bool) (e : Error)
    (c d : Cache)
    → CacheReach options c d
    → CacheReach options c (check_one options now key answer e d).1
unfolding check_one
check_one-CacheReach options now key (err x) e c d r =
    let looked : CacheReach options c (has options now key d).1 = look now key r in
    elim (Bool-cases (has options now key d).0) [
      | inl known ↦ rw known looked
      | inr unknown ↦ rw unknown looked
    ]
check_one-CacheReach options now key (ok true) e c d r =
    let looked : CacheReach options c (has options now key d).1 = look now key r in
    elim (Bool-cases (has options now key d).0) [
      | inl known ↦ rw known looked
      | inr unknown ↦ rw unknown (store now key looked)
    ]
check_one-CacheReach options now key (ok false) e c d r =
    let looked : CacheReach options c (has options now key d).1 = look now key r in
    elim (Bool-cases (has options now key d).0) [
      | inl known ↦ rw known looked
      | inr unknown ↦ rw unknown looked
    ]

-- A key is fresh when its entry has not expired.
abbrev pub IsFresh : CacheOptions → ℕ → String → Cache → Type 0
IsFresh options now key c = (0 < options.ttl_ms) × ((t : ℕ) × (get key c ≡ some t) × (now < t))

has-IsFresh :
    (options : CacheOptions) (now : ℕ) (key : String) (c : Cache)
    → (has options now key c).0 ≡ true
    → IsFresh options now key c
unfolding has
has-IsFresh options now key c e = elim (Option-cases (get key c)) [
  | inl absent ↦ absurd (ground arith)
  | inr (t, found) ↦ (ground arith, (t, found, ground arith))
]

-- One check passes only where the key is fresh or the service says yes.
check_one_passes :
    (options : CacheOptions) (now : ℕ) (key : String) (answer : Result Error Bool) (e : Error)
    (c : Cache)
    → (check_one options now key answer e c).0 ≡ ok tt
    → IsFresh options now key c ⊎ (answer ≡ ok true)
unfolding check_one
check_one_passes options now key answer e c done = elim (Bool-cases (has options now key c).0) [
  | inl known ↦ inl (has-IsFresh options now key c known)
  | inr unknown ↦ inr (ground arith)
]

-- `ensureAccountActive` fails closed: it passes only where the site is remembered and not expired
-- or its service answers now that it is active, and the same holds of the owner under the key that
-- names its site.
pub ensure_active_passes :
    (options : CacheOptions) (now : ℕ) (site_active : String → Result Error Bool)
    (owner_active : EnsureAccountInput → Result Error Bool) (a : EnsureAccountInput) (s s' : Caches)
    → ensure_active options now site_active owner_active a s ≡ (ok tt, s')
    → (IsFresh options now a.site_id s.sites ⊎ (site_active a.site_id ≡ ok true))
      × (IsFresh options now (owner_key a) s.owners ⊎ (owner_active a ≡ ok true))
unfolding ensure_active
ensure_active_passes options now site_active owner_active a s s' done =
    let first = check_one options now a.site_id (site_active a.site_id) site_suspended s.sites in
    let second = check_one options now (owner_key a) (owner_active a) owner_inactive s.owners in
    elim (Result-cases first.0) [
      | inr (e, failed) ↦ absurd (ground arith)
      | inl (u, passed) ↦ (
        check_one_passes options now a.site_id (site_active a.site_id) site_suspended s.sites
            passed,
        check_one_passes options now (owner_key a) (owner_active a) owner_inactive s.owners
            (ground arith),
      )
    ]
