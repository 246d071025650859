-- ===== src/Payment/Client.antt =====
-- kokoro-payment/src/infrastructure/credit-grant-client.ts over the model of kokoro-credit: two
-- requests for each call, one for the account and one for the mutation. A request of `callService`
-- (kokoro-platform-kit/src/http/internal-client.ts) is answered, or is lost before it reaches the
-- service, or is served and its answer lost; `network` says which, `contexts` what each request gets
-- from outside, and `code_of` the code in the answer for an error.
use kokoro_platform.Base.{ℕ, ◌+◌, String, Option, none}
use kokoro_platform.Base.Effect.{Result, ok, err, Action}
use kokoro_platform.Base.Effect.Async.{pure, ◌>>=◌, ◌>>◌}
use kokoro_platform.Credit.Types as CreditTypes
use kokoro_platform.Credit.Types.{
  Account, Reason, team, EnsureAccountInput, AmountInput, MutationResult,
}
use kokoro_platform.Credit.Store as CreditStore
use kokoro_platform.Credit.Service as CreditService
use kokoro_platform.Payment.Types.{CreditsInput, PaymentError, credit_failed}

pub data Delivery : Type 0 where
  delivered lost answer_lost : Delivery

-- The credit service's database, and how many requests have been sent.
pub record Remote (T : CreditStore.Tables) : Type 0 where
  pub store : CreditStore.Store T
  pub requests : ℕ

abbrev pub account_of : CreditsInput → EnsureAccountInput
account_of input = record { site_id = input.site_id; owner_kind = team; owner_id = input.owner_id }

abbrev pub amount_of : CreditsInput → Reason → Account → AmountInput
amount_of input reason account = record {
  account_id = account.id;
  amount_micros = input.amount_micros;
  idempotency_key = input.idempotency_key;
  reason = reason;
  request_id = none;
}

module _ (T : CreditStore.Tables) (checker : EnsureAccountInput → Option CreditTypes.Error)
    (billing : CreditService.RunBillingConfig) (welcome_grant_micros : ℕ)
    (contexts : ℕ → CreditStore.Context) (network : ℕ → Delivery)
    (code_of : CreditTypes.Error → String) where
  abbrev pub Serve : Type 0 → Type 0
  Serve A = CreditStore.Context → Action (CreditStore.Store T) CreditTypes.Error A

  abbrev pub answer : {A : Type 0} → Result CreditTypes.Error A → Result PaymentError A
  answer (ok a) = ok a
  answer (err e) = err (credit_failed (code_of e))

  unfoldable pub call_service : {A : Type 0} → Serve A → Action (Remote T) PaymentError A
  call_service serve r =
      let (x, s) = serve (contexts r.requests) r.store in
      elim (network r.requests) [
        | delivered ↦ (answer x, record { store = s; requests = r.requests + 1 })
        | lost ↦
            (err (credit_failed "upstream.unreachable"), record r { requests = r.requests + 1 })
        | answer_lost ↦ (
          err (credit_failed "upstream.unreachable"),
          record { store = s; requests = r.requests + 1 },
        )
      ]

  abbrev pub serve_ensure : CreditsInput → Serve Account
  serve_ensure input ctx =
      CreditService.ensure_account T checker billing welcome_grant_micros ctx (account_of input)

  abbrev pub serve_grant : CreditsInput → Account → Serve MutationResult
  serve_grant input account ctx =
      CreditService.grant_credits T checker billing welcome_grant_micros ctx
        (amount_of input Reason.subscription account)

  abbrev pub serve_spend : CreditsInput → Account → Serve MutationResult
  serve_spend input account ctx =
      CreditService.spend_credits T checker billing welcome_grant_micros ctx
        (amount_of input Reason.refund account)

  -- `createCreditGrantClient`
  unfoldable pub grant_client : CreditsInput → Action (Remote T) PaymentError (Unit {0})
  unfolding call_service
  grant_client input = do
    account ← call_service (serve_ensure input)
    call_service (serve_grant input account)
    pure tt

  -- `createCreditReverseClient`
  unfoldable pub reverse_client : CreditsInput → Action (Remote T) PaymentError (Unit {0})
  unfolding call_service
  reverse_client input = do
    account ← call_service (serve_ensure input)
    call_service (serve_spend input account)
    pure tt
