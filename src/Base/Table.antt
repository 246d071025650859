-- ===== src/Base/Table.antt =====
-- A table of the database, as the repositories use it through Prisma. The database and its client
-- are no code of the repository: `Table` lists the calls that the repositories make with what they
-- rely on, and every model of a repository takes it as a parameter.
pub mod Listed
pub mod Update
use mathlib.Core.Path.{subst}
use kokoro_platform.Base.Logic.{
  ℕ, ◌≤◌, String, ◌≡◌, Bool, true, false, Option, none, some, List, arith, ◌==◌, eq_iff, inl, inr,
  ◌⊎◌, Bool-cases, Option-cases, if◌then◌else◌,
}
use mathlib.Core.List.{Memᴰ, map}
use kokoro_platform.Base.Int.{ℤ, pos, ◌+ℤ◌, ◌-ℤ◌, ◌≤ℤ◌, int_laws}

abbrev pub weight_of : {Row : Type 0} → (Row → ℤ) → Option Row → ℤ
weight_of w none = pos 0
weight_of w (some r) = w r

-- `id_of` is the primary key, and `Rows` what the table holds.
pub record Table {Row : Type 0} (id_of : Row → String) (Rows : Type 0) : Type 0 where
  -- `findUnique({ where: { id } })`
  pub find_unique : String → Rows → Option Row
  -- `create`, for a row whose id is new, and `update`, for one whose id is there
  pub put : Row → Rows → Rows
  -- `delete({ where: { id } })`
  pub delete : String → Rows → Rows
  -- `findFirst({ where, orderBy })`, the order being descending by a number; `findUnique` by
  -- another unique column is this with no order
  pub find_first : (Row → Bool) → (Row → ℕ) → Rows → Option Row
  -- `findMany({ where })`
  pub find_many : (Row → Bool) → Rows → List Row
  -- `count({ where })` and `aggregate({ where, _sum })`: the sum over the rows of what each
  -- contributes, which is 0 for a row outside the filter
  pub aggregate : (Row → ℤ) → Rows → ℤ
  pub find_unique-id : (i : String) (t : Rows) (r : Row) → find_unique i t ≡ some r → id_of r ≡ i
  pub find_unique-put_self : (r : Row) (t : Rows) → find_unique (id_of r) (put r t) ≡ some r
  pub find_unique-put_ne :
      (r : Row) (i : String) (t : Rows)
      → ¬ (id_of r ≡ i)
      → find_unique i (put r t) ≡ find_unique i t
  pub find_unique-delete_self : (i : String) (t : Rows) → find_unique i (delete i t) ≡ none
  pub find_unique-delete_ne :
      (i j : String) (t : Rows) → ¬ (i ≡ j) → find_unique i (delete j t) ≡ find_unique i t
  pub find_first_sound :
      (p : Row → Bool) (ord : Row → ℕ) (t : Rows) (r : Row)
      → find_first p ord t ≡ some r
      → (p r ≡ true) × (find_unique (id_of r) t ≡ some r)
  pub find_first_complete :
      (p : Row → Bool) (ord : Row → ℕ) (t : Rows) (r : Row)
      → find_unique (id_of r) t ≡ some r
      → p r ≡ true
      → (first : Row) × (find_first p ord t ≡ some first) × (ord r ≤ ord first)
  pub find_many_complete :
      (p : Row → Bool) (t : Rows) (r : Row)
      → find_unique (id_of r) t ≡ some r
      → p r ≡ true
      → Memᴰ (id_of r) (map id_of (find_many p t))
  pub aggregate-put :
      (w : Row → ℤ) (r : Row) (t : Rows)
      → aggregate w (put r t) ≡ aggregate w t -ℤ weight_of w (find_unique (id_of r) t) +ℤ w r
  pub aggregate_none :
      (w : Row → ℤ) (t : Rows)
      → ((i : String) (r : Row) → find_unique i t ≡ some r → w r ≡ pos 0)
      → aggregate w t ≡ pos 0
  pub weight-le-aggregate :
      (w : Row → ℤ) (i : String) (t : Rows)
      → ((r : Row) → pos 0 ≤ℤ w r)
      → weight_of w (find_unique i t) ≤ℤ aggregate w t

module _ {Row : Type 0} {id_of : Row → String} {Rows : Type 0} (T : Table id_of Rows) where
  -- What is found after a write, as one equation.
  pub find-put :
      (r : Row) (i : String) (t : Rows)
      → T.find_unique i (T.put r t) ≡ (if id_of r == i then some r else T.find_unique i t)
  find-put r i t = elim (Bool-cases (id_of r == i)) [
    | inl same ↦
        let e = (eq_iff _ _).0 same in
        rw same (subst (λ k. T.find_unique k (T.put r t) ≡ some r) e (T.find_unique-put_self r t))
    | inr other ↦ rw other (T.find_unique-put_ne r i t (λ e. differ e other))
  ]
    where
      differ : {i j : String} → i ≡ j → (i == j) ≡ false → ⊥
      differ {i} {j} e h = ground (arith, eq_iff i j)

  -- The row that is found after a write is the one written, or another that was there.
  pub find-put_cases :
      (r : Row) (i : String) (t : Rows) (b : Row)
      → T.find_unique i (T.put r t) ≡ some b
      → ((r ≡ b) × (id_of r ≡ i)) ⊎ (((id_of r == i) ≡ false) × (T.find_unique i t ≡ some b))
  find-put_cases r i t b found = elim (Bool-cases (id_of r == i)) [
    | inl same ↦ inl (ground (arith, find-put r i t), (eq_iff _ _).0 same)
    | inr other ↦ inr (other, ground (arith, find-put r i t))
  ]

  -- What was found is still there, or has been overwritten.
  pub find-put_some :
      (r : Row) (i : String) (t : Rows) (b : Row)
      → T.find_unique i t ≡ some b
      → (c : Row) × (T.find_unique i (T.put r t) ≡ some c)
  find-put_some r i t b found = elim (Bool-cases (id_of r == i)) [
    | inl same ↦ (r, ground (arith, find-put r i t))
    | inr other ↦ (b, ground (arith, find-put r i t))
  ]

  -- A write that leaves a row's contribution leaves the sum.
  pub aggregate-put_same :
      (w : Row → ℤ) (r : Row) (t : Rows)
      → weight_of w (T.find_unique (id_of r) t) ≡ w r
      → T.aggregate w (T.put r t) ≡ T.aggregate w t
  aggregate-put_same w r t e = rw (T.aggregate-put w r t, e) (omega int_laws)

  -- A row that meets `p`, written where none did, is the one that is found.
  pub find_first-put :
      (p : Row → Bool) (ord : Row → ℕ) (r : Row) (t : Rows)
      → T.find_first p ord t ≡ none
      → p r ≡ true
      → T.find_first p ord (T.put r t) ≡ some r
  find_first-put p ord r t absent meets =
      let (first, found, _) =
        T.find_first_complete p ord (T.put r t) r (T.find_unique-put_self r t) meets in
      let (ok, there) = T.find_first_sound p ord (T.put r t) first found in
      elim (Bool-cases (id_of r == id_of first)) [
        | inl same ↦ ground (arith, find-put r (id_of first) t)
        | inr other ↦
            let old : T.find_unique (id_of first) t ≡ some first =
              ground (arith, find-put r (id_of first) t) in
            let (x, present, _) = T.find_first_complete p ord t first old ok in cc
      ]

  -- Nor does another row that does not meet `p` bring one about.
  pub find_first-put_none :
      (p : Row → Bool) (ord : Row → ℕ) (r : Row) (t : Rows)
      → T.find_first p ord t ≡ none
      → p r ≡ false
      → T.find_first p ord (T.put r t) ≡ none
  find_first-put_none p ord r t absent fails =
      elim (Option-cases (T.find_first p ord (T.put r t))) [
        | inl e ↦ e
        | inr (first, found) ↦
            let (ok, there) = T.find_first_sound p ord (T.put r t) first found in
            let old : T.find_unique (id_of first) t ≡ some first =
              ground (arith, find-put r (id_of first) t) in
            let (x, present, _) = T.find_first_complete p ord t first old ok in cc
      ]
