-- ===== src/Base/Table/Update.antt =====
-- `updateMany({ where, data })` over the rows that are there: each row that meets the condition is
-- written with the new data.
use mathlib.Core.Path.{subst}
use mathlib.Core.List.{Memᴰ}
use mathlib.Core.List.Memᴰ
use kokoro_platform.Base.Logic.{
  String, ◌≡◌, ◌≢◌, sym, ap, ◌∙◌, Bool, true, false, none, some, List, [], ◌∷◌, map, arith, ◌==◌,
  eq_iff, inl, inr, Bool-cases, Option-cases, if◌then◌else◌,
}
use kokoro_platform.Base.Table.{Table}

module _ {Row : Type 0} {id_of : Row → String} {Rows : Type 0} (T : Table id_of Rows) where
  abbrev pub update_one : (Row → Bool) → (Row → Row) → String → Rows → Rows
  update_one p f i t = elim (T.find_unique i t) [
    | none ↦ t
    | some r ↦ if p r then T.put (f r) t else t
  ]

  abbrev pub update_each : (Row → Bool) → (Row → Row) → List String → Rows → Rows
  update_each p f [] t = t
  update_each p f (i ∷ ids) t = update_each p f ids (update_one p f i t)

  abbrev pub update_many : (Row → Bool) → (Row → Row) → Rows → Rows
  update_many p f t = update_each p f (map id_of (T.find_many p t)) t

  module _ (p : Row → Bool) (f : Row → Row) (same_id : (r : Row) → id_of (f r) ≡ id_of r) where
    update_one_ne :
        (i j : String) (t : Rows) → i ≢ j → T.find_unique j (update_one p f i t) ≡ T.find_unique j t
    update_one_ne i j t differ = elim (Option-cases (T.find_unique i t)) [
      | inl absent ↦ ground arith
      | inr (r, found) ↦ elim (Bool-cases (p r)) [
        | inr misses ↦ ground arith
        | inl meets ↦
            let named = T.find_unique-id i t r found in
            let other : id_of (f r) ≢ j = λ e. differ (sym named ∙ sym (same_id r) ∙ e) in
            ground (arith, T.find_unique-put_ne (f r) j t other)
      ]
    ]

    update_one_self :
        (i : String) (t : Rows) (r : Row)
        → T.find_unique i t ≡ some r
        → p r ≡ true
        → T.find_unique i (update_one p f i t) ≡ some (f r)
    update_one_self i t r found meets =
        let named = T.find_unique-id i t r found in
        let there : T.find_unique i (T.put (f r) t) ≡ some (f r) =
          subst (λ k. T.find_unique k (T.put (f r) t) ≡ some (f r)) (same_id r ∙ named)
            (T.find_unique-put_self (f r) t) in
        ground arith

    -- A row that does not meet the condition stays as it is.
    update_each_misses :
        (ids : List String) (j : String) (t : Rows) (r : Row)
        → T.find_unique j t ≡ some r
        → p r ≡ false
        → T.find_unique j (update_each p f ids t) ≡ some r
    update_each_misses [] j t r found misses = found
    update_each_misses (i ∷ ids) j t r found misses =
        update_each_misses ids j (update_one p f i t) r
          (elim (Bool-cases (i == j)) [
            | inr other ↦ update_one_ne i j t (λ e. ground (arith, eq_iff i j, e)) ∙ found
            | inl same ↦
                let e = (eq_iff i j).0 same in
                let here : T.find_unique i t ≡ some r = ap (λ k. T.find_unique k t) e ∙ found in
                let kept : update_one p f i t ≡ t = ground arith in
                ap (T.find_unique j) kept ∙ found
          ])
          misses

    update_each_meets :
        (ids : List String) (j : String) (t : Rows) (r : Row)
        → T.find_unique j t ≡ some r
        → p r ≡ true
        → p (f r) ≡ false
        → Memᴰ j ids
        → T.find_unique j (update_each p f ids t) ≡ some (f r)
    update_each_meets [] j t r found meets once m = absurd (Memᴰ.not-nil m)
    update_each_meets (i ∷ ids) j t r found meets once m = elim (Bool-cases (i == j)) [
      | inl same ↦
          let e = (eq_iff i j).0 same in
          let here : T.find_unique i t ≡ some r = ap (λ k. T.find_unique k t) e ∙ found in
          update_each_misses ids j (update_one p f i t) (f r)
            (subst (λ k. T.find_unique k (update_one p f i t) ≡ some (f r)) e
              (update_one_self i t r here meets))
            once
      | inr other ↦
          let differ : i ≢ j = λ e. ground (arith, eq_iff i j, e) in
          update_each_meets ids j (update_one p f i t) r (update_one_ne i j t differ ∙ found) meets
            once
            (elim (Memᴰ.cases_cons m) [ inl same ↦ absurd (differ (sym same)) | inr later ↦ later ])
    ]

    update_each-none :
        (ids : List String) (j : String) (t : Rows)
        → T.find_unique j t ≡ none
        → T.find_unique j (update_each p f ids t) ≡ none
    update_each-none [] j t absent = absent
    update_each-none (i ∷ ids) j t absent =
        update_each-none ids j (update_one p f i t) (elim (Bool-cases (i == j)) [
          | inr other ↦ update_one_ne i j t (λ e. ground (arith, eq_iff i j, e)) ∙ absent
          | inl same ↦
              let e = (eq_iff i j).0 same in
              let here : T.find_unique i t ≡ none = ap (λ k. T.find_unique k t) e ∙ absent in
              let kept : update_one p f i t ≡ t = ground arith in ap (T.find_unique j) kept ∙ absent
        ])

    -- No row comes about.
    pub update_many-none :
        (j : String) (t : Rows)
        → T.find_unique j t ≡ none
        → T.find_unique j (update_many p f t) ≡ none
    update_many-none j t absent = update_each-none (map id_of (T.find_many p t)) j t absent

    -- After the update every row that met the condition has the new data.
    pub update_many_meets :
        (j : String) (t : Rows) (r : Row)
        → T.find_unique j t ≡ some r
        → p r ≡ true
        → p (f r) ≡ false
        → T.find_unique j (update_many p f t) ≡ some (f r)
    update_many_meets j t r found meets once =
        let named = T.find_unique-id j t r found in
        update_each_meets (map id_of (T.find_many p t)) j t r found meets once (
          subst (λ k. Memᴰ k (map id_of (T.find_many p t))) named
            (T.find_many_complete p t r (ap (λ k. T.find_unique k t) named ∙ found) meets))

    -- Every other row is as it was.
    pub update_many_misses :
        (j : String) (t : Rows) (r : Row)
        → T.find_unique j t ≡ some r
        → p r ≡ false
        → T.find_unique j (update_many p f t) ≡ some r
    update_many_misses j t r found misses =
        update_each_misses (map id_of (T.find_many p t)) j t r found misses
