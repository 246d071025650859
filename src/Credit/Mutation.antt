-- ===== src/Credit/Mutation.antt =====
-- The four mutations of the ledger of kokoro-credit, as one type of calls.
use kokoro_platform.Base.{String}
use kokoro_platform.Base.Effect.{Action, Tx}
use kokoro_platform.Credit.Types.{AmountInput, ResetInput, CaptureInput, MutationResult, Error}
use kokoro_platform.Credit.Store.{Tables, Store, Context}
use kokoro_platform.Credit.Repository.Mutations.{
  grant_body, grant_credits, spend_body, spend_credits, reset_body, reset_balance,
}
use kokoro_platform.Credit.Repository.Holds.{capture_body, capture_hold}

pub data Mutation : Type 0 where
  grant spend : AmountInput → Mutation
  reset : ResetInput → Mutation
  capture : CaptureInput → Mutation

abbrev pub key_of : Mutation → String
key_of (grant input) = input.idempotency_key
key_of (spend input) = input.idempotency_key
key_of (reset input) = input.idempotency_key
key_of (capture input) = input.idempotency_key

module _ (T : Tables) (ctx : Context) where
  unfoldable pub run : Mutation → Action (Store T) Error MutationResult
  run (grant input) = grant_credits T ctx input
  run (spend input) = spend_credits T ctx input
  run (reset input) = reset_balance T ctx input
  run (capture input) = capture_hold T ctx input

  unfoldable pub body_of : Mutation → Tx (Store T) Error MutationResult
  body_of (grant input) = grant_body T ctx input
  body_of (spend input) = spend_body T ctx input
  body_of (reset input) = reset_body T ctx input
  body_of (capture input) = capture_body T ctx input
