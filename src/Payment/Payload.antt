-- ===== src/Payment/Payload.antt =====
-- The comparison of payloads of kokoro-payment/src/domain/idempotency.ts: `canonicalize` sorts the
-- entries of every object by key, and the texts of the canonical values are compared. `JSON.stringify`
-- writes different canonical values differently, so the values are compared here; `__proto__` as a
-- key is not looked at. `left < right` is the order of code points here, and that of UTF-16 units in
-- the source, which sorts some characters beyond the basic plane otherwise.
use Prim.Native.Nat.{Ordering}
use Prim.Native.String as Text
use kokoro_platform.Base.{String, ◌≡◌, refl, Bool, true, false, ◌&&◌, ◌==◌, eq_refl, if◌then◌else◌}
use kokoro_platform.Payment.Types.{
  Json, null, bool, number, text, array, object, Items, no_items, item, Entries, no_entries, entry,
}

-- `left < right`
abbrev pub below : String → String → Bool
below left right = elim (Text.compare left right) [ Ordering.lt ↦ true | _ ↦ false ]

-- Into entries that are in order, behind equal keys.
abbrev pub insert_entry : String → Json → Entries → Entries
insert_entry k v no_entries = entry k v no_entries
insert_entry k v (entry k' v' rest) =
    let later = insert_entry k v rest in
    if below k k' then entry k v (entry k' v' rest) else entry k' v' later

unfoldable mutual
  pub canonicalize : Json → Json
  canonicalize null = null
  canonicalize (bool b) = bool b
  canonicalize (number n) = number n
  canonicalize (text t) = text t
  canonicalize (array xs) = array (canonicalize_items xs)
  canonicalize (object es) = object (canonicalize_entries es no_entries)

  pub canonicalize_items : Items → Items
  canonicalize_items no_items = no_items
  canonicalize_items (item x xs) = item (canonicalize x) (canonicalize_items xs)

  pub canonicalize_entries : Entries → Entries → Entries
  canonicalize_entries no_entries sorted = sorted
  canonicalize_entries (entry k v rest) sorted =
      canonicalize_entries rest (insert_entry k (canonicalize v) sorted)

-- `===` on the texts of two values.
unfoldable mutual
  pub same_json : Json → Json → Bool
  same_json null null = true
  same_json (bool true) (bool true) = true
  same_json (bool false) (bool false) = true
  same_json (number m) (number n) = m == n
  same_json (text s) (text t) = s == t
  same_json (array xs) (array ys) = same_items xs ys
  same_json (object ds) (object es) = same_entries ds es
  same_json _ _ = false

  pub same_items : Items → Items → Bool
  same_items no_items no_items = true
  same_items (item x xs) (item y ys) = same_json x y && same_items xs ys
  same_items _ _ = false

  pub same_entries : Entries → Entries → Bool
  same_entries no_entries no_entries = true
  same_entries (entry k v ds) (entry k' v' es) = (k == k') && same_json v v' && same_entries ds es
  same_entries _ _ = false

mutual
  unfolding same_json

  same_json_refl : (j : Json) → same_json j j ≡ true
  same_json_refl null = refl
  same_json_refl (bool true) = refl
  same_json_refl (bool false) = refl
  same_json_refl (number n) = eq_refl n
  same_json_refl (text t) = eq_refl t
  same_json_refl (array xs) = same_items_refl xs
  same_json_refl (object es) = same_entries_refl es

  same_items_refl : (xs : Items) → same_items xs xs ≡ true
  same_items_refl no_items = refl
  same_items_refl (item x xs) = rw (same_json_refl x) (same_items_refl xs)

  same_entries_refl : (es : Entries) → same_entries es es ≡ true
  same_entries_refl no_entries = refl
  same_entries_refl (entry k v es) = rw (eq_refl k, same_json_refl v) (same_entries_refl es)

-- `stableJson(a) === stableJson(b)`; `value ?? {}` takes the payload `null` for an empty object.
abbrev pub or_empty : Json → Json
or_empty null = object no_entries
or_empty j = j

-- `toJson`: what is stored of a payload. A value that was parsed from JSON is washed to itself.
abbrev pub to_json : Json → Json
to_json null = object no_entries
to_json j = j

unfoldable pub same_payload : Json → Json → Bool
same_payload a b = same_json (canonicalize (or_empty a)) (canonicalize (or_empty b))

pub same_payload_refl : (j : Json) → same_payload j j ≡ true
unfolding same_payload
same_payload_refl j = same_json_refl (canonicalize (or_empty j))

pub same_payload-to_json : (j : Json) → same_payload (to_json j) j ≡ true
unfolding same_payload
same_payload-to_json null = same_json_refl (canonicalize (object no_entries))
same_payload-to_json (bool b) = same_json_refl (canonicalize (bool b))
same_payload-to_json (number n) = same_json_refl (canonicalize (number n))
same_payload-to_json (text t) = same_json_refl (canonicalize (text t))
same_payload-to_json (array xs) = same_json_refl (canonicalize (array xs))
same_payload-to_json (object es) = same_json_refl (canonicalize (object es))

reordered :
    same_payload
      (object (entry "b" (number "1") (entry "a" null no_entries)))
      (object (entry "a" null (entry "b" (number "1") no_entries)))
    ≡ true
unfolding same_payload canonicalize same_json
reordered = refl
