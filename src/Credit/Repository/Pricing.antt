-- ===== src/Credit/Repository/Pricing.antt =====
-- `quote`, `priceUsage`, the pricing rules and the sums over the ledger.
use kokoro_platform.Base.{
  ℕ, ◌*◌, String, Bool, true, false, not, ◌&&◌, Option, none, some, is_some, ◌==◌, ltb, leb, eqb,
  if◌then◌else◌,
}
use kokoro_platform.Base.Int.{ℤ, pos, ◌+ℤ◌, ◌-ℤ◌, ltb_ℤ, pos_part, neg_part, sub_ℕ}
use kokoro_platform.Base.Effect.{Result, ok, err}
use kokoro_platform.Base.Decimal.{parse_digits}
use kokoro_platform.Credit.Types.{
  PricingRule, RuleStatus, LedgerEntry, Reason, model_call, tool_call, UsageInput, Error,
  invalid_amount, pricing_rule_not_found,
}
use kokoro_platform.Credit.Store.{Tables, Store}

abbrev is_active_rule : RuleStatus → Bool
is_active_rule RuleStatus.active = true
is_active_rule RuleStatus.disabled = false

abbrev same_label : Option String → Option String → Bool
same_label none none = true
same_label (some a) (some b) = a == b
same_label _ _ = false

abbrev is_later : ℕ → Option ℕ → Bool
is_later now none = true
is_later now (some until) = ltb now until

abbrev is_unit : Option String → String → Bool
is_unit none _ = true
is_unit (some unit) u = u == unit

-- The `where` of `findPricingRule`.
abbrev pub applies : String → Option String → ℕ → Option String → PricingRule → Bool
applies feature label now unit r =
    r.feature_key == feature
    && same_label r.label_key label
    && is_active_rule r.status
    && not (is_some r.deleted_at)
    && is_unit unit r.unit
    && leb r.effective_from now
    && is_later now r.effective_until

-- An integer times a number of units.
abbrev pub times : ℤ → ℕ → ℤ
times a n = sub_ℕ (pos_part a * n) (neg_part a * n)

pub record Quote : Type 0 where
  pub feature_key : String
  pub label_key : Option String
  pub unit : String
  pub unit_amount_micros : ℤ
  pub quantity : ℕ
  pub amount_micros : ℤ

abbrev is_usage : Reason → Bool
is_usage model_call = true
is_usage tool_call = true
is_usage _ = false

-- What `sumCapturedUsageSince` adds up.
abbrev pub usage_since : String → ℕ → LedgerEntry → ℤ
usage_since id since e =
    if e.account_id == id && is_usage e.reason && leb since e.created_at
    then e.amount_micros
    else pos 0

module _ (T : Tables) where
  -- The latest rule that applies.
  abbrev pub find_pricing_rule :
      String → Option String → ℕ → Option String → Store T → Option PricingRule
  find_pricing_rule feature label now unit s =
      T.rules.find_first (applies feature label now unit) (λ r. r.effective_from) s.rules

  -- The rule for the label, if there is one, and else the one without a label.
  abbrev pub rule_for : String → Option String → ℕ → Option String → Store T → Option PricingRule
  rule_for feature label now unit s = elim label [
    | none ↦ find_pricing_rule feature none now unit s
    | some l ↦ elim (find_pricing_rule feature (some l) now unit s) [
      | some r ↦ some r
      | none ↦ find_pricing_rule feature none now unit s
    ]
  ]

  unfoldable pub quote : String → Option String → String → ℕ → Store T → Result Error Quote
  quote feature label quantity now s = elim (parse_digits quantity) [
    | none ↦ err invalid_amount
    | some n ↦ if eqb n 0 then err invalid_amount else elim (rule_for feature label now none s) [
      | none ↦ err pricing_rule_not_found
      | some r ↦ ok (record {
        feature_key = feature;
        label_key = label;
        unit = r.unit;
        unit_amount_micros = r.amount_micros;
        quantity = n;
        amount_micros = times r.amount_micros n;
      })
    ]
  ]

  -- One direction of a usage; without tokens it needs no rule.
  unfoldable pub price_line :
      String → Option String → String → String → ℕ → Store T → Result Error ℤ
  price_line feature label unit tokens now s = elim (parse_digits tokens) [
    | none ↦ err invalid_amount
    | some n ↦ if eqb n 0 then ok (pos 0) else elim (rule_for feature label now (some unit) s) [
      | none ↦ err pricing_rule_not_found
      | some r ↦ ok (times r.amount_micros n)
    ]
  ]

  unfoldable pub price_usage : UsageInput → ℕ → Store T → Result Error ℤ
  unfolding price_line
  price_usage input now s =
      elim (price_line input.feature_key input.label_key input.input_unit input.input_tokens now
        s) [
          | err e ↦ err e
          | ok input_cost ↦
              elim (price_line input.feature_key input.label_key input.output_unit
                input.output_tokens now s) [
                  | err e ↦ err e
                  | ok output_cost ↦ ok (input_cost +ℤ output_cost)
                ]
        ]

  unfoldable pub sum_captured_usage_since : String → ℕ → Store T → ℤ
  sum_captured_usage_since id since s =
      let sum = T.entries.aggregate (usage_since id since) s.entries in
      if ltb_ℤ sum (pos 0) then pos 0 -ℤ sum else sum
