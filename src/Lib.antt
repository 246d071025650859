-- ===== src/Lib.antt =====
-- kokoro-platform: the credit ledger, the payments and the refresh tokens of the platform, modelled
-- and proved.
--
-- The repository is a set of TypeScript services. kokoro-credit keeps the accounts of users and
-- teams in micro-credits: other services grant, spend, hold and capture credit through it, and the
-- runs of models are billed by a hold before and a capture or a release after the run.
-- kokoro-payment sells plans: it takes orders at the price of a plan, confirms and refunds them as
-- the webhooks of payment providers ask for, and grants or takes back the plan's credit through
-- kokoro-credit. Both are modelled from the domain functions up to the application services. Of
-- kokoro-user, which keeps users, teams and sessions, the rotation of refresh tokens is modelled.
--
-- Base: what the components share.
--   Base/Logic.antt: names of the libraries, Boolean tests, splits.
--   Base/Int.antt: `bigint` as an integer over the native numbers.
--   Base/Decimal.antt: amounts as decimal text (kokoro-platform-kit/src/domain/amount.ts).
--   Base/Iso.antt: `toISOString`. Base/Text.antt: the order of texts.
--   Base/Calendar.antt: days and months in UTC, as `Date.UTC` and the getters of `Date` count them.
--   Base/Effect.antt: a transaction returns or rolls back (Tx), an asynchronous method keeps what
--     it has done when it throws (Action).
--   Base/Table.antt: a database table as the record of the Prisma calls that the code makes, with
--     what is relied on; Base/Table/Listed.antt is an instance, Base/Table/Update.antt is updateMany.
-- Credit: kokoro-credit.
--   Credit/Types.antt: rows, inputs and errors (src/domain/credit.ts, repository.ts, errors.ts).
--   Credit/Amount.antt, Credit/Buckets.antt, Credit/Boundary.antt: src/domain/amount.ts,
--     buckets.ts and reset-boundary.ts.
--   Credit/Store.antt: the database, and what a call gets from outside (clock, new ids).
--   Credit/Repository: src/infrastructure/prisma/prisma-credit-repository.ts. Rows.antt has the
--     private steps (refreshRow, applyBucketReturn, findExistingEntry and the catch of a unique
--     conflict), Mutations.antt grantCredits, spendCredits and resetBalance, Holds.antt holdCredits,
--     captureHold, releaseHold and sweepExpiredHolds, Accounts.antt the accounts, Pricing.antt
--     quote and priceUsage, Rules.antt the pricing rules and the totals.
--   Credit/Service.antt: src/application/credit-service.ts; Service/Admin.antt its checks before
--     calls of the administration.
--   Credit/Checker.antt: src/infrastructure/http/owner-site-checker.ts, the check of owner and site
--     with its memory.
--   Credit/Machine.antt: the repository's calls as steps of the database, in any order.
--   Credit/Mutation.antt: the four mutations of the ledger as one type.
--   Credit/Proofs: the theorems, a file for each subject. Credit/Tests: a database, and runs on it.
-- Payment: kokoro-payment.
--   Payment/Types.antt: rows, inputs and errors (src/domain). Payment/Amount.antt: amounts.
--   Payment/Payload.antt: the comparison of payloads (src/domain/idempotency.ts) and `toJson`;
--     Payment/Reordered.antt: payloads that differ in the order of entries.
--   Payment/Store.antt: the database, and what a call gets from outside.
--   Payment/Repository: src/infrastructure/prisma/prisma-payment-repository.ts; Plans.antt,
--     Orders.antt, Refunds.antt, Subscriptions.antt, and Events.antt for events and providers.
--   Payment/Credits.antt: the credit service as kokoro-payment sees it, two calls with what is relied
--     on; Payment/Client.antt is src/infrastructure/credit-grant-client.ts, which fills it by the
--     model of kokoro-credit behind requests that can be lost.
--   Payment/Service.antt and Payment/Subscribe.antt: src/application/payment-service.ts over the
--     database and that service. Payment/Webhook.antt: src/application/webhook-service.ts over the
--     functions of a registered provider.
--   Payment/Machine.antt: the repository's calls as steps. Payment/Proofs: the theorems.
--   Payment/Tests: a database, a credit service and a provider, and runs on them.
-- User: the refresh tokens of kokoro-user.
--   User/Refresh.antt: the rows and src/infrastructure/prisma/prisma-refresh-token-repository.ts.
--   User/Refresh/Service.antt: src/application/refresh-service.ts; the hash, the generator of tokens
--     and the signer of sessions are parameters.
--   User/Refresh/Rotation.antt, Aging.antt, Once.antt, Sessions.antt: the theorems; Tests.antt: runs.
--
-- State and operations: `Store` holds one table for each model of prisma/schema.prisma. A body of
-- `$transaction` is a `Tx` from a store to a result and a store; `transaction` commits it. Each
-- call is taken as one step, and interleavings are sequences of steps of Credit/Machine.antt.
-- `spendCredits`, `holdCredits`, the settlements of holds and `refreshAllowances` lock the row of the
-- account; `grantCredits` increments it. `resetBalance`, `restoreAccount` and `setAccountQuota` read
-- the row before they write it and lock nothing, so what they read can be out of date in the source
-- where another call comes in between, and is not here.
-- `deleteAccount` locks nothing between its count of holds and its update: the update by itself is a
-- step of the machine too, after whatever other calls came in between.
--
-- Choices. A `Date` is its milliseconds since 1970, a `bigint` a ℤ; amounts arrive as text and are
-- parsed, and where the code returns a record with `toString()` of an amount the model returns the
-- amount. Ids that `cuid()` creates and the clock are arguments. The check of owner and site is an
-- argument of the service, from the owner to an error or none, as Credit/Checker.antt answers it at
-- one time. No fuel is used: the loops are structural, except the printing of a number, which has
-- the number itself as fuel.
--
-- Each call of the payment repository is atomic by itself (a conditional update or a transaction), and
-- payment-service.ts composes them with calls of the credit service without a common transaction:
-- there the state is the database together with the state of the credit service, and a call that
-- throws keeps what was done before. Interleavings of services are sequences of steps of
-- Payment/Machine.antt. The texts of the errors of kokoro-payment are a parameter.
--
-- Not modelled: HTTP routing and schemas, configuration, listings and their cursors, `metadata`,
-- `updatedAt` except of orders, the totals of payments, the providers' own formats and signatures,
-- and the other services.
pub mod Base
pub mod Credit
pub mod Payment
pub mod User
