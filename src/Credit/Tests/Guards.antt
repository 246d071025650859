-- ===== src/Credit/Tests/Guards.antt =====
-- The theorems on refreshing, on pricing rules and on the owner and site checker at concrete inputs.
use kokoro_platform.Base.{
  String, Bool, ◌+◌, ◌≤◌, ◌≡◌, ◌≢◌, ◌⊎◌, refl, false, true, none, [], ◌∷◌, arith, length,
}
use kokoro_platform.Base.Int.{pos}
use kokoro_platform.Base.Effect.{Result, ok}
use kokoro_platform.Credit.Types.{Account, PricingRule, EnsureAccountInput, Error, DeleteInput}
use kokoro_platform.Credit.Store.{Store}
use kokoro_platform.Credit.Repository.Rules.{
  CreateRuleInput, new_rule, deleted_rule, put_rule, delete_pricing_rule,
}
use kokoro_platform.Credit.Checker.{
  CacheOptions, default_cache_options, Caches, has, set, owner_key, check_one, ensure_active,
}
use kokoro_platform.Credit.Tests.{account, tables, nothing, noon, context, owner}
use kokoro_platform.Base.Calendar.{start_of_day, start_of_month}
use kokoro_platform.Credit.Boundary.{daily_boundary, period_boundary, is_stale}
use kokoro_platform.Credit.Repository.Rows.{refresh_row, put_account}
use kokoro_platform.Credit.Repository.Accounts.{refreshed, refresh_allowances}
use kokoro_platform.Credit.Proofs.Refresh.{refresh_allowances-refresh_allowances}
use kokoro_platform.Credit.Proofs.Rules.{find_pricing_rule-delete_pricing_rule}
use kokoro_platform.Credit.Proofs.Checker.{
  start, store, CacheReach-length, IsFresh, ensure_active_passes,
}

abbrev rule_input : CreateRuleInput
rule_input = record {
  feature_key = "chat";
  label_key = none;
  unit = "input_token";
  amount_micros = "3";
  status = none;
  effective_from = none;
  effective_until = none;
}

abbrev rule : PricingRule
rule = new_rule context rule_input (pos 3)

abbrev other_rule : PricingRule
other_rule = record rule { id = "rule-2" }

abbrev priced : Store tables
priced = put_rule tables other_rule (put_rule tables rule nothing)

abbrev rule_deletion : DeleteInput
rule_deletion = record { id = "rule-1"; deleted_by = "admin"; reason = none }

abbrev unpriced : Store tables
unpriced = put_rule tables (deleted_rule noon rule_deletion rule) priced

deletion_done :
    delete_pricing_rule tables noon rule_deletion priced
    ≡ (ok (deleted_rule noon rule_deletion rule), unpriced)
unfolding delete_pricing_rule
deletion_done = refl

find_pricing_rule-delete_pricing_rule_example : other_rule.id ≢ rule_deletion.id
find_pricing_rule-delete_pricing_rule_example =
    find_pricing_rule-delete_pricing_rule tables noon rule_deletion priced unpriced
      (deleted_rule noon rule_deletion rule) "chat" none noon none other_rule deletion_done refl

abbrev one_entry : CacheOptions
one_entry = record { ttl_ms = 30_000; max_entries = 1 }

CacheReach-length_example : length (set one_entry 5 "site-2" (set one_entry 3 "site-1" [])) ≤ 1
CacheReach-length_example =
    CacheReach-length one_entry (set one_entry 5 "site-2" (set one_entry 3 "site-1" []))
      (omega arith) (store 5 "site-2" (store 3 "site-1" start))

abbrev remembered : Caches
remembered = record { sites = ("site-1", 7) ∷ []; owners = [] }

abbrev remembered_after : Caches
remembered_after = record { sites = ("site-1", 7) ∷ []; owners = (owner_key owner, 30_005) ∷ [] }

abbrev site_says : String → Result Error Bool
site_says id = ok false

abbrev owner_says : EnsureAccountInput → Result Error Bool
owner_says a = ok true

passed :
    ensure_active default_cache_options 5 site_says owner_says owner remembered
    ≡ (ok tt, remembered_after)
unfolding ensure_active check_one has set
passed = refl

ensure_active_passes_example :
    (IsFresh default_cache_options 5 "site-1" remembered.sites ⊎ (site_says "site-1" ≡ ok true))
    × (IsFresh default_cache_options 5 (owner_key owner) remembered.owners
        ⊎ (owner_says owner ≡ ok true))
ensure_active_passes_example =
    ensure_active_passes default_cache_options 5 site_says owner_says owner remembered
      remembered_after passed

-- An account whose daily bucket is due.
abbrev due_account : Account
due_account = record account { daily_micros = pos 0; daily_reset_on = none }

abbrev due_store : Store tables
due_store = put_account tables due_account nothing

abbrev refreshed_account : Account
refreshed_account = refreshed tables due_account (refresh_row due_account noon)

refresh_done :
    refresh_allowances tables "account-1" noon due_store
    ≡ (ok refreshed_account, put_account tables refreshed_account due_store)
unfolding refresh_allowances is_stale
refresh_done = refl

same_day : daily_boundary (noon + 1000) ≡ daily_boundary noon
unfolding daily_boundary start_of_day
same_day = refl

same_month : period_boundary (noon + 1000) ≡ period_boundary noon
unfolding period_boundary start_of_month
same_month = refl

refresh_allowances-refresh_allowances_example :
    refresh_allowances tables "account-1"
      (noon + 1000)
      (put_account tables refreshed_account due_store)
    ≡ (ok refreshed_account, put_account tables refreshed_account due_store)
refresh_allowances-refresh_allowances_example =
    refresh_allowances-refresh_allowances tables "account-1" noon (noon + 1000) due_store
      (put_account tables refreshed_account due_store) refreshed_account refresh_done same_day
      same_month
