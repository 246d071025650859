-- ===== src/Base/Table/Listed.antt =====
-- A table kept as a list of rows with distinct ids. It is the instance of `Table` that the tests use,
-- and shows that what `Table` asks for can hold.
use mathlib.Core.List.{Memᴰ}
use mathlib.Core.List.Memᴰ
use kokoro_platform.Base.Logic.{
  ℕ, ◌≤◌, String, ◌≡◌, ◌≢◌, refl, sym, ap, ◌∙◌, Bool, true, Option, none, some, List, [], ◌∷◌,
  arith, ◌==◌, eq_iff, eq_refl, ==-eq_false, ◌⊎◌, inl, inr, Bool-cases, Option-cases, ltb,
  if◌then◌else◌,
}
use kokoro_platform.Base.Int.{ℤ, pos, ◌+ℤ◌, ◌≤ℤ◌, int_laws, parts_of_eq}
use kokoro_platform.Base.Table.{Table, weight_of}

module _ {Row : Type 0} (id_of : Row → String) where
  abbrev find : String → List Row → Option Row
  find i [] = none
  find i (r ∷ l) = if id_of r == i then some r else find i l

  abbrev drop : String → List Row → List Row
  drop i [] = []
  drop i (r ∷ l) = if id_of r == i then drop i l else r ∷ drop i l

  abbrev best : (Row → Bool) → (Row → ℕ) → List Row → Option Row
  best p ord [] = none
  best p ord (r ∷ l) =
      let rest = best p ord l in
      if p r
      then elim rest [ none ↦ some r | some q ↦ if ltb (ord r) (ord q) then some q else some r ]
      else rest

  abbrev filter : (Row → Bool) → List Row → List Row
  filter p [] = []
  filter p (r ∷ l) = if p r then r ∷ filter p l else filter p l

  abbrev sum : (Row → ℤ) → List Row → ℤ
  sum w [] = pos 0
  sum w (r ∷ l) = w r +ℤ sum w l

  abbrev Distinct : List Row → Type 0
  Distinct [] = Unit
  Distinct (r ∷ l) = (find (id_of r) l ≡ none) × Distinct l

  pub find-drop_self : (i : String) (l : List Row) → find i (drop i l) ≡ none
  find-drop_self i [] = refl
  find-drop_self i (r ∷ l) = elim (Bool-cases (id_of r == i)) [
    | inl same ↦ rw same (find-drop_self i l)
    | inr other ↦ rw (other, other) (find-drop_self i l)
  ]

  pub find-drop_ne : (i j : String) (l : List Row) → i ≢ j → find i (drop j l) ≡ find i l
  find-drop_ne i j [] ne = refl
  find-drop_ne i j (r ∷ l) ne = elim (Bool-cases (id_of r == j)) [
    | inl same ↦ elim (Bool-cases (id_of r == i)) [
      | inl both ↦ absurd (ne (sym ((eq_iff _ _).0 both) ∙ (eq_iff _ _).0 same))
      | inr other ↦ rw (same, other) (find-drop_ne i j l ne)
    ]
    | inr other ↦ elim (Bool-cases (id_of r == i)) [
      | inl mine ↦ rw (other, mine) refl
      | inr not_mine ↦ rw (other, not_mine) (find-drop_ne i j l ne)
    ]
  ]

  find-drop-none : (i j : String) (l : List Row) → find i l ≡ none → find i (drop j l) ≡ none
  find-drop-none i j [] e = refl
  find-drop-none i j (r ∷ l) e = ground (arith, find-drop-none i j l)

  pub Distinct-drop : (i : String) (l : List Row) → Distinct l → Distinct (drop i l)
  Distinct-drop i [] d = tt
  Distinct-drop i (r ∷ l) (new, d) = elim (Bool-cases (id_of r == i)) [
    | inl same ↦ rw same (Distinct-drop i l d)
    | inr other ↦ rw other (find-drop-none (id_of r) i l new, Distinct-drop i l d)
  ]

  pub find-id : (i : String) (l : List Row) (r : Row) → find i l ≡ some r → id_of r ≡ i
  find-id i [] r e = ground arith
  find-id i (x ∷ l) r e = elim (Bool-cases (id_of x == i)) [
    | inl same ↦ let e' : r ≡ x = ground arith in ap id_of e' ∙ (eq_iff _ _).0 same
    | inr other ↦ find-id i l r (ground arith)
  ]

  pub find-Mem : (i : String) (l : List Row) (r : Row) → find i l ≡ some r → Memᴰ r l
  find-Mem i [] r e = absurd (ground arith)
  find-Mem i (x ∷ l) r e = elim (Bool-cases (id_of x == i)) [
    | inl same ↦ Memᴰ.head (ground arith)
    | inr other ↦ Memᴰ.tail (find-Mem i l r (ground arith))
  ]

  pub Mem-find : (l : List Row) (r : Row) → Distinct l → Memᴰ r l → find (id_of r) l ≡ some r
  Mem-find [] r d m = absurd (Memᴰ.not-nil m)
  Mem-find (x ∷ l) r (new, d) m = elim (Memᴰ.cases_cons m) [
    | inl same ↦ rw (same, eq_refl (id_of x)) refl
    | inr later ↦
        let below = Mem-find l r d later in
        elim (Bool-cases (id_of x == id_of r)) [
          | inl clash ↦
              absurd (ground (arith, sym new ∙ ap (λ k. find k l) ((eq_iff _ _).0 clash) ∙ below))
          | inr other ↦ rw other below
        ]
  ]

  pub best_sound :
      (p : Row → Bool) (ord : Row → ℕ) (l : List Row) (r : Row)
      → best p ord l ≡ some r
      → (p r ≡ true) × Memᴰ r l
  best_sound p ord [] r e = absurd (ground arith)
  best_sound p ord (x ∷ l) r e = elim (Option-cases (best p ord l)) [
    | inl empty ↦ let (same, meets) = only empty in (meets, Memᴰ.head same)
    | inr (q, found) ↦
        let (meets, there) = best_sound p ord l q found in
        elim (either q found) [
          | inl (same, ok) ↦ (ok, Memᴰ.head same)
          | inr same ↦ (rw same meets, Memᴰ.tail (Memᴰ.cast same there))
        ]
  ]
    where
      only : best p ord l ≡ none → (r ≡ x) × (p r ≡ true)
      only empty = elim (Bool-cases (p x)) [
        | inl meets ↦ let s : r ≡ x = ground arith in (s, rw s meets)
        | inr fails ↦ ground arith
      ]

      either : (q : Row) → best p ord l ≡ some q → ((r ≡ x) × (p r ≡ true)) ⊎ (r ≡ q)
      either q found = elim (Bool-cases (p x)) [
        | inl meets ↦ elim (Bool-cases (ltb (ord x) (ord q))) [
          | inl less ↦ inr (ground arith)
          | inr more ↦ let s : r ≡ x = ground arith in inl (s, rw s meets)
        ]
        | inr fails ↦ inr (ground arith)
      ]

  pub best_complete :
      (p : Row → Bool) (ord : Row → ℕ) (l : List Row) (r : Row)
      → Memᴰ r l
      → p r ≡ true
      → (first : Row) × (best p ord l ≡ some first) × (ord r ≤ ord first)
  best_complete p ord [] r m meets = absurd (Memᴰ.not-nil m)
  best_complete p ord (x ∷ l) r m meets = elim (Memᴰ.cases_cons m) [
    | inl same ↦ elim (Option-cases (best p ord l)) [
      | inl empty ↦ (r, ground arith, omega arith)
      | inr (q, found) ↦ elim (Bool-cases (ltb (ord x) (ord q))) [
        | inl less ↦ (q, ground arith, ground arith)
        | inr more ↦ (r, ground arith, omega arith)
      ]
    ]
    | inr later ↦
        let (q, found, le) = best_complete p ord l r later meets in
        elim (Bool-cases (p x)) [
          | inr fails ↦ (q, rw fails found, le)
          | inl ok ↦ elim (Bool-cases (ltb (ord x) (ord q))) [
            | inl less ↦ (q, ground arith, le)
            | inr more ↦ (x, ground arith, ground arith)
          ]
        ]
  ]

  pub filter_complete :
      (p : Row → Bool) (l : List Row) (r : Row) → Memᴰ r l → p r ≡ true → Memᴰ r (filter p l)
  filter_complete p [] r m meets = m
  filter_complete p (x ∷ l) r m meets = elim (Memᴰ.cases_cons m) [
    | inl same ↦ rw (ap p (sym same) ∙ meets) (Memᴰ.head same)
    | inr later ↦
        let below = filter_complete p l r later meets in
        elim (Bool-cases (p x)) [ inl ok ↦ rw ok (Memᴰ.tail below) | inr fails ↦ rw fails below ]
  ]

  drop_absent : (i : String) (l : List Row) → find i l ≡ none → drop i l ≡ l
  drop_absent i [] e = refl
  drop_absent i (x ∷ l) e = ground (arith, drop_absent i l)

  pub sum-drop :
      (w : Row → ℤ) (i : String) (l : List Row)
      → Distinct l
      → sum w l ≡ weight_of w (find i l) +ℤ sum w (drop i l)
  sum-drop w i [] d = omega int_laws
  sum-drop w i (x ∷ l) (new, d) = elim (Bool-cases (id_of x == i)) [
    | inl same ↦
        rw (same, drop_absent i l (ap (λ k. find k l) (sym ((eq_iff _ _).0 same)) ∙ new)) refl
    | inr other ↦ let below = sum-drop w i l d in rw other (omega (int_laws, parts_of_eq below))
  ]

  pub sum_none :
      (w : Row → ℤ) (l : List Row) → ((r : Row) → Memᴰ r l → w r ≡ pos 0) → sum w l ≡ pos 0
  sum_none w [] zeros = refl
  sum_none w (x ∷ l) zeros =
      let below = sum_none w l (λ r m. zeros r (Memᴰ.tail m)) in
      omega (int_laws, parts_of_eq below, parts_of_eq (zeros x (Memᴰ.head refl)))

  sum_nonneg : (w : Row → ℤ) (l : List Row) → ((r : Row) → pos 0 ≤ℤ w r) → pos 0 ≤ℤ sum w l
  sum_nonneg w [] h = omega arith
  sum_nonneg w (x ∷ l) h = omega (int_laws, sum_nonneg w l h, h x)

  pub weight-le-sum :
      (w : Row → ℤ) (i : String) (l : List Row)
      → ((r : Row) → pos 0 ≤ℤ w r)
      → weight_of w (find i l) ≤ℤ sum w l
  weight-le-sum w i [] h = omega arith
  weight-le-sum w i (x ∷ l) h = elim (Bool-cases (id_of x == i)) [
    | inl same ↦ rw same (omega (int_laws, sum_nonneg w l h))
    | inr other ↦ rw other (omega (int_laws, weight-le-sum w i l h, h x))
  ]

  abbrev pub Listed : Type 0
  Listed = (l : List Row) × Distinct l

  abbrev pub listed : Table id_of Listed
  listed = record {
    find_unique = λ i t. find i t.0;
    put = λ r t.
        (r ∷ drop (id_of r) t.0, (find-drop_self (id_of r) t.0, Distinct-drop (id_of r) t.0 t.1));
    delete = λ i t. (drop i t.0, Distinct-drop i t.0 t.1);
    find_first = λ p ord t. best p ord t.0;
    find_many = λ p t. filter p t.0;
    aggregate = λ w t. sum w t.0;
    find_unique-id = λ i t r e. find-id i t.0 r e;
    find_unique-put_self = λ r t. rw (eq_refl (id_of r)) refl;
    find_unique-put_ne = λ r i t ne.
        rw (==-eq_false (id_of r) i ne) (find-drop_ne i (id_of r) t.0 (λ e. ne (sym e)));
    find_unique-delete_self = λ i t. find-drop_self i t.0;
    find_unique-delete_ne = λ i j t ne. find-drop_ne i j t.0 ne;
    find_first_sound = λ p ord t r e.
        let (meets, there) = best_sound p ord t.0 r e in (meets, Mem-find t.0 r t.1 there);
    find_first_complete =
        λ p ord t r e meets. best_complete p ord t.0 r (find-Mem (id_of r) t.0 r e) meets;
    find_many_complete = λ p t r e meets.
        Memᴰ.map id_of (filter_complete p t.0 r (find-Mem (id_of r) t.0 r e) meets);
    aggregate-put = λ w r t. omega (int_laws, parts_of_eq (sum-drop w (id_of r) t.0 t.1));
    aggregate_none = λ w t zeros. sum_none w t.0 (λ r m. zeros (id_of r) r (Mem-find t.0 r t.1 m));
    weight-le-aggregate = λ w i t h. weight-le-sum w i t.0 h;
  }
