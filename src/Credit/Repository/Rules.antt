-- ===== src/Credit/Repository/Rules.antt =====
-- The administration of pricing rules, and the totals that it shows.
use kokoro_platform.Base.{ℕ, String, Bool, Option, none, some, is_some, ◌&&◌, not, if◌then◌else◌}
use kokoro_platform.Base.Int.{ℤ, pos, ◌-ℤ◌, ltb_ℤ}
use kokoro_platform.Base.Effect.{ok, err, Action}
use kokoro_platform.Credit.Types.{
  Account, LedgerEntry, PricingRule, RuleStatus, DeleteInput, Error, pricing_rule_unknown,
}
use kokoro_platform.Credit.Amount.{parse_positive_bigint_string}
use kokoro_platform.Credit.Store.{Tables, Store, Context}
use kokoro_platform.Credit.Repository.Rows.{is_active_account}

pub record CreateRuleInput : Type 0 where
  pub feature_key : String
  pub label_key : Option String
  pub unit : String
  pub amount_micros : String
  pub status : Option RuleStatus
  pub effective_from : Option ℕ
  pub effective_until : Option ℕ

-- A field that is none stays as it is; for `effectiveUntil`, `some none` takes the end away.
pub record UpdateRuleInput : Type 0 where
  pub id : String
  pub amount_micros : Option String
  pub status : Option RuleStatus
  pub effective_from : Option ℕ
  pub effective_until : Option (Option ℕ)

-- `a ?? b`
abbrev or_else : {A : Type 0} → Option A → A → A
or_else none b = b
or_else (some a) _ = a

abbrev pub new_rule : Context → CreateRuleInput → ℤ → PricingRule
new_rule ctx input amount = record {
  id = ctx.rule_id;
  feature_key = input.feature_key;
  label_key = input.label_key;
  unit = input.unit;
  amount_micros = amount;
  status = or_else input.status RuleStatus.active;
  effective_from = or_else input.effective_from ctx.now;
  effective_until = input.effective_until;
  deleted_at = none;
  deleted_by = none;
  delete_reason = none;
  created_at = ctx.now;
}

-- `deletionData`, on a rule
abbrev pub deleted_rule : ℕ → DeleteInput → PricingRule → PricingRule
deleted_rule now input r = record r {
  deleted_at = some now;
  deleted_by = some input.deleted_by;
  delete_reason = input.reason;
}

-- What the totals add up of each row.
abbrev live : Account → Bool
live a = not (is_some a.deleted_at)

pub record AdminStats : Type 0 where
  pub accounts_total : ℤ
  pub accounts_active : ℤ
  pub balance_sum_micros : ℤ
  pub held_sum_micros : ℤ
  pub granted_total_micros : ℤ
  pub spent_total_micros : ℤ

module _ (T : Tables) where
  abbrev pub find_rule : String → Store T → Option PricingRule
  find_rule id s = T.rules.find_unique id s.rules

  abbrev pub put_rule : PricingRule → Store T → Store T
  put_rule r s = record s { rules = T.rules.put r s.rules }

  unfoldable pub create_pricing_rule :
      Context → CreateRuleInput → Action (Store T) Error PricingRule
  create_pricing_rule ctx input s = elim (parse_positive_bigint_string input.amount_micros) [
    | err e ↦ (err e, s)
    | ok amount ↦ let rule = new_rule ctx input amount in (ok rule, put_rule rule s)
  ]

  unfoldable pub update_pricing_rule : UpdateRuleInput → Action (Store T) Error PricingRule
  update_pricing_rule input s = elim (find_rule input.id s) [
    | none ↦ (err pricing_rule_unknown, s)
    | some existing ↦
        let rest = record existing {
          status = or_else input.status existing.status;
          effective_from = or_else input.effective_from existing.effective_from;
          effective_until = or_else input.effective_until existing.effective_until;
        } in
        elim input.amount_micros [
          | none ↦ (ok rest, put_rule rest s)
          | some text ↦ elim (parse_positive_bigint_string text) [
            | err e ↦ (err e, s)
            | ok amount ↦
                let priced = record rest { amount_micros = amount } in
                (ok priced, put_rule priced s)
          ]
        ]
  ]

  unfoldable pub delete_pricing_rule : ℕ → DeleteInput → Action (Store T) Error PricingRule
  delete_pricing_rule now input s = elim (find_rule input.id s) [
    | none ↦ (err pricing_rule_unknown, s)
    | some existing ↦
        if is_some existing.deleted_at
        then (ok existing, s)
        else let rule = deleted_rule now input existing in (ok rule, put_rule rule s)
  ]

  unfoldable pub restore_pricing_rule : String → Action (Store T) Error PricingRule
  restore_pricing_rule id s = elim (find_rule id s) [
    | none ↦ (err pricing_rule_unknown, s)
    | some existing ↦
        if is_some existing.deleted_at
        then (let rule = record existing {
          deleted_at = none;
          deleted_by = none;
          delete_reason = none;
        } in
            (ok rule, put_rule rule s))
        else (ok existing, s)
  ]

  unfoldable pub read_admin_stats : Store T → AdminStats
  read_admin_stats s =
      let accounts = λ (w : Account → ℤ). T.accounts.aggregate w s.accounts in
      let entries = λ (w : LedgerEntry → ℤ). T.entries.aggregate w s.entries in
      let spent = entries (λ e. if ltb_ℤ e.amount_micros (pos 0) then e.amount_micros else pos 0) in
      record {
        accounts_total = accounts (λ a. if live a then pos 1 else pos 0);
        accounts_active =
            accounts (λ a. if live a && is_active_account a.status then pos 1 else pos 0);
        balance_sum_micros = accounts (λ a. if live a then a.balance_micros else pos 0);
        held_sum_micros = accounts (λ a. if live a then a.held_micros else pos 0);
        granted_total_micros =
            entries (λ e. if ltb_ℤ (pos 0) e.amount_micros then e.amount_micros else pos 0);
        spent_total_micros = if ltb_ℤ spent (pos 0) then pos 0 -ℤ spent else spent;
      }
