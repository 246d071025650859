-- ===== src/Credit/Service/Admin.antt =====
-- What the service checks before it passes a call of the administration on.
use kokoro_platform.Base.{ℕ, String, Option, none, some}
use kokoro_platform.Base.Effect.{Action}
use kokoro_platform.Base.Effect.Async.{pure, gets, lift, ◌>>=◌, ◌>>◌}
use kokoro_platform.Credit.Types.{Account, PricingRule, QuotaPeriod, EnsureAccountInput, Error}
use kokoro_platform.Credit.Amount.{parse_positive_bigint_string}
use kokoro_platform.Credit.Store.{Tables, Store, Context}
use kokoro_platform.Credit.Repository.Accounts as Accounts
use kokoro_platform.Credit.Repository.Pricing as Pricing
use kokoro_platform.Credit.Repository.Pricing.{Quote}
use kokoro_platform.Credit.Repository.Rules as Rules
use kokoro_platform.Credit.Repository.Rules.{CreateRuleInput, UpdateRuleInput}
use kokoro_platform.Credit.Service.{RunBillingConfig, ensure_account_active}

-- `if (x !== undefined) parsePositiveBigIntString(x)`
abbrev check_amount : {S : Type 0} → Option String → Action S Error (Unit {0})
check_amount none = pure tt
check_amount (some text) = do lift (parse_positive_bigint_string text); pure tt

module _ (T : Tables) (checker : EnsureAccountInput → Option Error) (billing : RunBillingConfig)
    (welcome_grant_micros : ℕ) (ctx : Context) where
  unfoldable pub create_pricing_rule : CreateRuleInput → Action (Store T) Error PricingRule
  create_pricing_rule input = do
    lift (parse_positive_bigint_string input.amount_micros)
    Rules.create_pricing_rule T ctx input

  unfoldable pub update_pricing_rule : UpdateRuleInput → Action (Store T) Error PricingRule
  update_pricing_rule input = do check_amount input.amount_micros; Rules.update_pricing_rule T input

  unfoldable pub set_account_quota :
      String → Option String → QuotaPeriod → Action (Store T) Error Account
  set_account_quota account_id quota period = do
    check_amount quota
    ensure_account_active T checker billing welcome_grant_micros ctx account_id
    Accounts.set_account_quota T account_id quota period

  -- The quantity is 1 where none is given.
  unfoldable pub quote : String → Option String → Option String → Action (Store T) Error Quote
  quote feature label quantity = do
    let text : String = elim quantity [ none ↦ "1" | some q ↦ q ]
    lift (parse_positive_bigint_string text)
    lift (← gets (Pricing.quote T feature label text ctx.now))
