-- ===== src/Payment/Reordered.antt =====
-- Payloads that differ in the order of the entries of their objects, and what `canonicalize` of
-- kokoro-payment/src/domain/idempotency.ts makes of them.
use Prim.Native.Nat.{Ordering}
use Prim.Native.String as Text
use kokoro_platform.Base.{
  String, ◌≡◌, ◌≢◌, refl, sym, ap, ◌∙◌, ◌⊎◌, inl, inr, true, false, arith, Bool-cases,
}
use kokoro_platform.Base.Text.{compare-flip, compare_trans, path_by_compare}
use kokoro_platform.Payment.Types.{
  Json, array, object, Items, no_items, item, Entries, no_entries, entry,
}
use kokoro_platform.Payment.Payload.{
  below, insert_entry, canonicalize, canonicalize_items, canonicalize_entries, or_empty,
  same_payload, same_json,
}

-- The same value, up to the order of the entries of objects; keys of one object that trade places
-- are different.
mutual
  pub data Reordered : Json → Json → Type 0 where
    same : {j : Json} → Reordered j j
    items : {xs ys : Items} → ReorderedItems xs ys → Reordered (array xs) (array ys)
    entries : {ds es : Entries} → ReorderedEntries ds es → Reordered (object ds) (object es)

  pub data ReorderedItems : Items → Items → Type 0 where
    end : ReorderedItems no_items no_items
    one :
        {x y : Json} {xs ys : Items}
        → Reordered x y
        → ReorderedItems xs ys
        → ReorderedItems (item x xs) (item y ys)

  pub data ReorderedEntries : Entries → Entries → Type 0 where
    stop : ReorderedEntries no_entries no_entries
    keep :
        {v w : Json} {ds es : Entries} (k : String)
        → Reordered v w
        → ReorderedEntries ds es
        → ReorderedEntries (entry k v ds) (entry k w es)
    swap :
        {v w : Json} {ds : Entries} (k l : String)
        → k ≢ l
        → ReorderedEntries (entry k v (entry l w ds)) (entry l w (entry k v ds))
    trans :
        {cs ds es : Entries}
        → ReorderedEntries cs ds
        → ReorderedEntries ds es
        → ReorderedEntries cs es

Ordering-cases : (o : Ordering) → (o ≡ Ordering.lt) ⊎ ((o ≡ Ordering.eq) ⊎ (o ≡ Ordering.gt))
Ordering-cases Ordering.lt = inl refl
Ordering-cases Ordering.eq = inr (inl refl)
Ordering-cases Ordering.gt = inr (inr refl)

-- Of two different keys one is below the other, and not the other way round.
below_one :
    (k l : String)
    → k ≢ l
    → ((below k l ≡ true) × (below l k ≡ false)) ⊎ ((below k l ≡ false) × (below l k ≡ true))
unfolding below
below_one k l differ =
    let back = compare-flip k l in
    elim (Ordering-cases (Text.compare k l)) [
      | inl less ↦ inl (rw (below, less) refl, rw (below, back, less) refl)
      | inr (inl equal) ↦ absurd (differ (path_by_compare k l equal))
      | inr (inr more) ↦ inr (rw (below, more) refl, rw (below, back, more) refl)
    ]

below_less : (k l : String) → below k l ≡ true → Text.compare k l ≡ Ordering.lt
unfolding below
below_less k l h = elim (Ordering-cases (Text.compare k l)) [
  | inl less ↦ less
  | inr (inl equal) ↦ absurd (ground (arith, equal))
  | inr (inr more) ↦ absurd (ground (arith, more))
]

below_trans : (k l m : String) → below k l ≡ true → below l m ≡ true → below k m ≡ true
unfolding below
below_trans k l m a b = rw (below, compare_trans k l m (below_less k l a) (below_less l m b)) refl

-- Behind an entry that stays below, and in front of one that does not.
below-not : (k l m : String) → below k m ≡ true → below l m ≡ false → below l k ≡ false
below-not k l m a b = elim (Bool-cases (below l k)) [
  | inr over ↦ over
  | inl under ↦ absurd (ground (arith, below_trans l k m under a, b))
]

insert_entry-insert_entry :
    (k l : String) (v w : Json) (es : Entries)
    → k ≢ l
    → insert_entry k v (insert_entry l w es) ≡ insert_entry l w (insert_entry k v es)
unfolding insert_entry
insert_entry-insert_entry k l v w no_entries differ = elim (below_one k l differ) [
  | inl (a, b) ↦ rw (a, b) refl
  | inr (a, b) ↦ rw (a, b) refl
]
insert_entry-insert_entry k l v w (entry m x rest) differ =
    let later = insert_entry-insert_entry k l v w rest differ in
    elim (Bool-cases (below k m)) [
      | inl km ↦ elim (Bool-cases (below l m)) [
        | inl lm ↦ elim (below_one k l differ) [
          | inl (a, b) ↦ rw (km, lm, a, b) refl
          | inr (a, b) ↦ rw (km, lm, a, b, km) refl
        ]
        | inr lm ↦ rw (km, lm, below-not k l m km lm, km) refl
      ]
      | inr km ↦ elim (Bool-cases (below l m)) [
        | inl lm ↦ rw (km, lm, below-not l k m lm km, km) refl
        | inr lm ↦ rw (km, lm, km) (ap (entry m x) later)
      ]
    ]

mutual
  unfolding canonicalize

  -- `canonicalize` forgets the order of the entries of objects.
  pub canonicalize-Reordered : {a b : Json} → Reordered a b → canonicalize a ≡ canonicalize b
  canonicalize-Reordered same = refl
  canonicalize-Reordered (items r) = ap array (canonicalize_items-ReorderedItems r)
  canonicalize-Reordered (entries r) =
      ap object (canonicalize_entries-ReorderedEntries r no_entries)

  canonicalize_items-ReorderedItems :
      {xs ys : Items} → ReorderedItems xs ys → canonicalize_items xs ≡ canonicalize_items ys
  canonicalize_items-ReorderedItems end = refl
  canonicalize_items-ReorderedItems (one x r) =
      λ i. item (canonicalize-Reordered x i) (canonicalize_items-ReorderedItems r i)

  canonicalize_entries-ReorderedEntries :
      {ds es : Entries}
      → ReorderedEntries ds es
      → (sorted : Entries) → canonicalize_entries ds sorted ≡ canonicalize_entries es sorted
  canonicalize_entries-ReorderedEntries stop sorted = refl
  canonicalize_entries-ReorderedEntries (keep {v} {w} {ds} {es} k x r) sorted =
      ap (λ y. canonicalize_entries ds (insert_entry k y sorted)) (canonicalize-Reordered x)
      ∙ canonicalize_entries-ReorderedEntries r (insert_entry k (canonicalize w) sorted)
  canonicalize_entries-ReorderedEntries (swap {v} {w} {ds} k l differ) sorted =
      ap (canonicalize_entries ds) (
        insert_entry-insert_entry l k (canonicalize w) (canonicalize v) sorted
          (λ e. differ (sym e)))
  canonicalize_entries-ReorderedEntries (trans r r') sorted =
      canonicalize_entries-ReorderedEntries r sorted
      ∙ canonicalize_entries-ReorderedEntries r' sorted

-- What is the same as one payload is the same as every payload that only orders its entries
-- otherwise.
pub same_payload-Reordered :
    {a b : Json} (c : Json) → Reordered a b → same_payload c a ≡ true → same_payload c b ≡ true
unfolding same_payload
same_payload-Reordered c same h = h
same_payload-Reordered c (items r) h =
    ap (same_json (canonicalize (or_empty c))) (sym (canonicalize-Reordered (items r))) ∙ h
same_payload-Reordered c (entries r) h =
    ap (same_json (canonicalize (or_empty c))) (sym (canonicalize-Reordered (entries r))) ∙ h
