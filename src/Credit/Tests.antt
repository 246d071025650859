-- ===== src/Credit/Tests.antt =====
-- A small database of kokoro-credit, and runs of its operations on it.
pub mod Witnesses
pub mod Guards
use kokoro_platform.Base.{ℕ, ◌+◌, String, ◌≡◌, refl, Option, none, some, [], ◌∷◌}
use kokoro_platform.Base.Int.{ℤ, pos}
use kokoro_platform.Base.Effect.{Result, ok, err}
use kokoro_platform.Base.Table.Listed.{Listed, listed}
use kokoro_platform.Credit.Types.{
  Account, AccountStatus, team, EnsureAccountInput, LedgerEntry, Hold, HoldStatus, UsageRecord,
  PricingRule, AmountInput, ResetInput, HoldInput, CaptureInput, Reason, MutationResult, Error,
}
use kokoro_platform.Credit.Store.{Tables, Store, Context}
use kokoro_platform.Credit.Repository.Rows.{put_account}
use kokoro_platform.Credit.Repository.Mutations.{grant_credits, spend_credits}
use kokoro_platform.Credit.Repository.Holds.{hold_credits, capture_hold, sweep_expired_holds}
use kokoro_platform.Credit.Repository.Accounts.{new_account}

abbrev pub tables : Tables
tables = record {
  Accounts = Listed {Row = Account} (λ r. r.id);
  Entries = Listed {Row = LedgerEntry} (λ r. r.id);
  Holds = Listed {Row = Hold} (λ r. r.id);
  Usages = Listed {Row = UsageRecord} (λ r. r.id);
  Rules = Listed {Row = PricingRule} (λ r. r.id);
  accounts = listed (λ (r : Account). r.id);
  entries = listed (λ (r : LedgerEntry). r.id);
  holds = listed (λ (r : Hold). r.id);
  usages = listed (λ (r : UsageRecord). r.id);
  rules = listed (λ (r : PricingRule). r.id);
}

abbrev pub nothing : Store tables
nothing = record {
  accounts = ([], tt);
  entries = ([], tt);
  holds = ([], tt);
  usages = ([], tt);
  rules = ([], tt);
}

-- 2024-02-29 12:00 UTC
abbrev pub noon : ℕ
noon = 1_709_208_000_000

abbrev pub context : Context
context = record {
  now = noon;
  account_id = "account-1";
  entry_id = "entry-1";
  hold_id = "hold-1";
  usage_id = "usage-1";
  rule_id = "rule-1";
}

abbrev pub later : Context
later = record context { now = noon + 1000; entry_id = "entry-2"; usage_id = "usage-2" }

abbrev pub owner : EnsureAccountInput
owner = record { site_id = "site-1"; owner_kind = team; owner_id = "team-1" }

-- A team that has 500 of its 500 micros of today left, and 20_000 that it has paid for.
abbrev pub account : Account
account = record (new_account context owner) {
  balance_micros = pos 20_000;
  daily_micros = pos 500;
  daily_allowance_micros = pos 500;
  daily_reset_on = some 1_709_164_800_000;
  period_reset_on = some 1_706_745_600_000;
}

abbrev pub funded : Store tables
funded = put_account tables account nothing

abbrev pub spend_input : AmountInput
spend_input = record {
  account_id = "account-1";
  amount_micros = "700";
  idempotency_key = "key-1";
  reason = Reason.model_call;
  request_id = none;
}

abbrev pub grant_input : AmountInput
grant_input = record spend_input { amount_micros = "30000"; idempotency_key = "key-0" }

abbrev pub hold_input : HoldInput
hold_input = record {
  account_id = "account-1";
  amount_micros = "10000";
  idempotency_key = "key-2";
  expires_at = some (noon + 500);
  feature_key = some "chat";
  label_key = none;
  model_binding_id = none;
  request_id = none;
}

abbrev pub capture_input : CaptureInput
capture_input = record {
  hold_id = "hold-1";
  actual_amount_micros = "800";
  idempotency_key = "key-3";
  reason = Reason.model_call;
  feature_key = "chat";
  model_binding_id = none;
  request_id = none;
}

abbrev pub held : Store tables
held = (hold_credits tables context hold_input funded).1

spend_test : Option ℤ
spend_test = elim (spend_credits tables context spend_input funded).0 [
  | ok r ↦ some r.account.balance_micros
  | err e ↦ none
]
