-- ===== src/Credit/Proofs/Invariant.antt =====
-- What holds of the database of kokoro-credit at all times, and how single writes keep it.
use mathlib.Core.Path.{subst, subst₂}
use kokoro_platform.Base.{
  String, ◌≡◌, sym, ◌∙◌, inl, inr, false, ◌&&◌, some, ◌==◌, Option-cases, if◌then◌else◌,
}
use kokoro_platform.Base.Int.{ℤ, pos}
use kokoro_platform.Base.Table.{find-put_cases, find-put_some, aggregate-put_same}
use kokoro_platform.Credit.Types.{Account, Hold}
use kokoro_platform.Credit.Buckets.{available}
use kokoro_platform.Credit.Buckets.Laws.{IsNonneg, IsWithin, IsNonnegAllowance}
use kokoro_platform.Credit.Store.{Tables, Store}
use kokoro_platform.Credit.Repository.Rows.{
  is_active, buckets_of, allowances_of, reserved_of, find_account, find_hold, put_account, put_hold,
}

-- The amount that a hold freezes of an account.
abbrev pub frozen_of : String → Hold → ℤ
frozen_of id h = if h.account_id == id && is_active h.status then h.amount_micros else pos 0

-- No bucket is negative, and no time bucket exceeds its allowance.
pub record IsSound (a : Account) : Type 0 where
  pub buckets : IsNonneg (buckets_of a)
  pub allowances : IsNonnegAllowance (allowances_of a)
  pub within : IsWithin (buckets_of a) (allowances_of a)

-- The three reserved parts make up the amount.
pub record IsSplit (h : Hold) : Type 0 where
  pub parts : IsNonneg (reserved_of h)
  pub amount : h.amount_micros ≡ available (reserved_of h)

module _ (T : Tables) where
  abbrev pub frozen : String → Store T → ℤ
  frozen id s = T.holds.aggregate (frozen_of id) s.holds

  pub record IsWellFormed (s : Store T) : Type 0 where
    pub accounts : (id : String) (a : Account) → find_account T id s ≡ some a → IsSound a
    pub holds : (id : String) (h : Hold) → find_hold T id s ≡ some h → IsSplit h
    pub owned :
        (id : String) (h : Hold)
        → find_hold T id s ≡ some h
        → (a : Account) × (find_account T h.account_id s ≡ some a)
    -- `heldMicros` is the sum of the account's active holds.
    pub held :
        (id : String) (a : Account) → find_account T id s ≡ some a → a.held_micros ≡ frozen id s

  -- A write of an account that leaves what it holds.
  pub put_account-IsWellFormed :
      (a : Account) (s : Store T)
      → IsWellFormed s
      → IsSound a
      → a.held_micros ≡ frozen a.id s
      → IsWellFormed (put_account T a s)
  put_account-IsWellFormed a s w sound held = record {
    accounts = λ id b found. elim (find-put_cases T.accounts a id s.accounts b found) [
      | inl (eb, ei) ↦ subst IsSound eb sound
      | inr (other, old) ↦ w.accounts id b old
    ];
    holds = w.holds;
    owned = λ id h found.
        let (b, there) = w.owned id h found in
        find-put_some T.accounts a h.account_id s.accounts b there;
    held = λ id b found. elim (find-put_cases T.accounts a id s.accounts b found) [
      | inl (eb, ei) ↦
          subst (λ (b : Account). b.held_micros ≡ frozen id s) eb
            (subst (λ (i : String). a.held_micros ≡ frozen i s) ei held)
      | inr (other, old) ↦ w.held id b old
    ];
  }

  -- What another account has frozen does not change with a hold of this one.
  frozen-put_other :
      (h : Hold) (id : String) (s : Store T)
      → (h.account_id == id) ≡ false
      → ((old : Hold) → find_hold T h.id s ≡ some old → old.account_id ≡ h.account_id)
      → frozen id (put_hold T h s) ≡ frozen id s
  frozen-put_other h id s other same =
      aggregate-put_same T.holds (frozen_of id) h s.holds
        (elim (Option-cases (find_hold T h.id s)) [
          | inl absent ↦ rw (absent, other)
          | inr (old, there) ↦ rw (there, same old there, other)
        ])

  -- A write of a hold together with its account, which keeps count of it.
  pub put_both-IsWellFormed :
      (a : Account) (h : Hold) (s : Store T)
      → IsWellFormed s
      → IsSound a
      → IsSplit h
      → h.account_id ≡ a.id
      → ((old : Hold) → find_hold T h.id s ≡ some old → old.account_id ≡ h.account_id)
      → a.held_micros ≡ frozen a.id (put_hold T h s)
      → IsWellFormed (put_hold T h (put_account T a s))
  put_both-IsWellFormed a h s w sound split owner same held = record {
    accounts = λ id b found. elim (find-put_cases T.accounts a id s.accounts b found) [
      | inl (eb, ei) ↦ subst IsSound eb sound
      | inr (other, old) ↦ w.accounts id b old
    ];
    holds = λ id g found. elim (find-put_cases T.holds h id s.holds g found) [
      | inl (eg, ei) ↦ subst IsSplit eg split
      | inr (other, old) ↦ w.holds id g old
    ];
    owned = λ id g found. elim (find-put_cases T.holds h id s.holds g found) [
      | inl (eg, ei) ↦ (a, rw (← eg, owner) (T.accounts.find_unique-put_self a s.accounts))
      | inr (other, old) ↦
          let (b, there) = w.owned id g old in
          find-put_some T.accounts a g.account_id s.accounts b there
    ];
    held = λ id b found. elim (find-put_cases T.accounts a id s.accounts b found) [
      | inl (eb, ei) ↦
          subst (λ (b : Account). b.held_micros ≡ frozen id (put_hold T h s)) eb
            (subst (λ (i : String). a.held_micros ≡ frozen i (put_hold T h s)) ei held)
      | inr (other, old) ↦ w.held id b old ∙ sym (frozen-put_other h id s (rw owner other) same)
    ];
  }

  -- The other tables do not matter.
  pub other_tables-IsWellFormed :
      (s : Store T) (entries : T.Entries) (usages : T.Usages)
      → IsWellFormed s
      → IsWellFormed (record s { entries = entries; usages = usages })
  other_tables-IsWellFormed s entries usages w = record {
    accounts = w.accounts;
    holds = w.holds;
    owned = w.owned;
    held = w.held;
  }

  -- So it is kept by whatever leaves the accounts and the holds as they were.
  pub same_tables-IsWellFormed :
      (s s' : Store T)
      → s'.accounts ≡ s.accounts
      → s'.holds ≡ s.holds
      → IsWellFormed s
      → IsWellFormed s'
  same_tables-IsWellFormed s s' a h w =
      subst₂ (λ x y. IsWellFormed (record s' { accounts = x; holds = y })) (sym a) (sym h)
        (record { accounts = w.accounts; holds = w.holds; owned = w.owned; held = w.held })

  -- The row that is found under an id holds what is frozen under its own.
  pub held_of_row :
      (s : Store T) (id : String) (a : Account)
      → IsWellFormed s
      → find_account T id s ≡ some a
      → a.held_micros ≡ frozen a.id s
  held_of_row s id a w found =
      subst (λ (k : String). a.held_micros ≡ frozen k s)
        (sym (T.accounts.find_unique-id id s.accounts a found)) (w.held id a found)
