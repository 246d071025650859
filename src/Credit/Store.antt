-- ===== src/Credit/Store.antt =====
-- The database of kokoro-credit: a table for each model of kokoro-credit/prisma/schema.prisma, and
-- what a call gets from outside (the clock, and the `cuid()` of a row that it creates).
use kokoro_platform.Base.{ℕ, String}
use kokoro_platform.Base.Table.{Table}
use kokoro_platform.Credit.Types.{Account, LedgerEntry, Hold, UsageRecord, PricingRule}

pub record Tables : Type 1 where
  pub Accounts : Type 0
  pub Entries : Type 0
  pub Holds : Type 0
  pub Usages : Type 0
  pub Rules : Type 0
  pub accounts : Table {Row = Account} (λ r. r.id) Accounts
  pub entries : Table {Row = LedgerEntry} (λ r. r.id) Entries
  pub holds : Table {Row = Hold} (λ r. r.id) Holds
  pub usages : Table {Row = UsageRecord} (λ r. r.id) Usages
  pub rules : Table {Row = PricingRule} (λ r. r.id) Rules

pub record Store (T : Tables) : Type 0 where
  pub accounts : T.Accounts
  pub entries : T.Entries
  pub holds : T.Holds
  pub usages : T.Usages
  pub rules : T.Rules

pub record Context : Type 0 where
  pub now : ℕ
  pub account_id : String
  pub entry_id : String
  pub hold_id : String
  pub usage_id : String
  pub rule_id : String
