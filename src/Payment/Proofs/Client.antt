-- ===== src/Payment/Proofs/Client.antt =====
-- kokoro-credit, called through the credit client, is the credit service that kokoro-payment relies
-- on.
use kokoro_platform.Base.{ℕ, String, ◌≡◌, refl, ap, ◌∙◌, ◌⊎◌, inl, inr, Option, some, arith}
use kokoro_platform.Base.Effect.Async.{pure, ◌>>=◌, ◌>>◌, bind_ok}
use kokoro_platform.Base.Effect.{ok, Result-cases, Action}
use kokoro_platform.Credit.Types as CreditTypes
use kokoro_platform.Credit.Types.{
  Account, Reason, EnsureAccountInput, AmountInput, MutationResult, LedgerEntry,
}
use kokoro_platform.Credit.Store as CreditStore
use kokoro_platform.Credit.Amount as CreditAmount
use kokoro_platform.Credit.Service as CreditService
use kokoro_platform.Credit.Repository.Rows.{entry_by_key}
use kokoro_platform.Credit.Repository.Mutations as Mutations
use kokoro_platform.Credit.Mutation.{grant, spend, run}
use kokoro_platform.Credit.Proofs.Replay.{run-Shows}
use kokoro_platform.Payment.Types.{CreditsInput, PaymentError}
use kokoro_platform.Payment.Credits.{Credits}
use kokoro_platform.Payment.Client.{
  Delivery, delivered, lost, answer_lost, Remote, amount_of, Serve, call_service, serve_ensure,
  serve_grant, serve_spend, grant_client, reverse_client,
}

Delivery-cases : (d : Delivery) → (d ≡ delivered) ⊎ ((d ≡ lost) ⊎ (d ≡ answer_lost))
Delivery-cases delivered = inl refl
Delivery-cases lost = inr (inl refl)
Delivery-cases answer_lost = inr (inr refl)

module _ (T : CreditStore.Tables) (checker : EnsureAccountInput → Option CreditTypes.Error)
    (billing : CreditService.RunBillingConfig) (welcome_grant_micros : ℕ) where
  -- A grant of the service that returns is one of the repository, in the state after the checks.
  service_grant_ok :
      (ctx : CreditStore.Context) (input : AmountInput) (s s' : CreditStore.Store T)
      (r : MutationResult)
      → CreditService.grant_credits T checker billing welcome_grant_micros ctx input s ≡ (ok r, s')
      → (s₀ : CreditStore.Store T) × (Mutations.grant_credits T ctx input s₀ ≡ (ok r, s'))
  unfolding CreditService.grant_credits
  service_grant_ok ctx input s s' r done =
      let checked =
        CreditService.ensure_account_active T checker billing welcome_grant_micros ctx
          input.account_id s in
      elim (Result-cases (CreditAmount.parse_positive_bigint_string input.amount_micros)) [
        | inr (e, refused) ↦ absurd (ground (arith, ap (λ x. x.0) done))
        | inl (a, parsed) ↦ elim (Result-cases checked.0) [
          | inr (e, refused) ↦ absurd (ground (arith, ap (λ x. x.0) done))
          | inl (u, active) ↦ (checked.1, ground arith)
        ]
      ]

  service_spend_ok :
      (ctx : CreditStore.Context) (input : AmountInput) (s s' : CreditStore.Store T)
      (r : MutationResult)
      → CreditService.spend_credits T checker billing welcome_grant_micros ctx input s ≡ (ok r, s')
      → (s₀ : CreditStore.Store T) × (Mutations.spend_credits T ctx input s₀ ≡ (ok r, s'))
  unfolding CreditService.spend_credits
  service_spend_ok ctx input s s' r done =
      let checked =
        CreditService.ensure_account_active T checker billing welcome_grant_micros ctx
          input.account_id s in
      elim (Result-cases (CreditAmount.parse_positive_bigint_string input.amount_micros)) [
        | inr (e, refused) ↦ absurd (ground (arith, ap (λ x. x.0) done))
        | inl (a, parsed) ↦ elim (Result-cases checked.0) [
          | inr (e, refused) ↦ absurd (ground (arith, ap (λ x. x.0) done))
          | inl (u, active) ↦ (checked.1, ground arith)
        ]
      ]

  -- The ledger has an entry under the key.
  abbrev pub Entered : String → Remote T → Type 0
  Entered key r = (e : LedgerEntry) × (entry_by_key T key r.store ≡ some e)

  module _ (contexts : ℕ → CreditStore.Context) (network : ℕ → Delivery)
      (code_of : CreditTypes.Error → String) where
    -- A request that returns was delivered and served.
    call_service_ok :
        {A : Type 0}
        (serve : Serve T checker billing welcome_grant_micros contexts network code_of A)
        (r r' : Remote T) (a : A)
        → call_service T checker billing welcome_grant_micros contexts network code_of serve r
          ≡ (ok a, r')
        → serve (contexts r.requests) r.store ≡ (ok a, r'.store)
    unfolding call_service
    call_service_ok serve r r' a done = elim (Delivery-cases (network r.requests)) [
      | inr (inl gone) ↦ absurd (ground (arith, ap (λ x. x.0) done))
      | inr (inr silent) ↦ absurd (ground (arith, ap (λ x. x.0) done))
      | inl here ↦ elim (Result-cases (serve (contexts r.requests) r.store).0) [
        | inr (e, refused) ↦ absurd (ground (arith, ap (λ x. x.0) done))
        | inl (b, served) ↦ ground arith
      ]
    ]

    abbrev Sends :
        {A : Type 0}
        → Serve T checker billing welcome_grant_micros contexts network code_of A
        → Action (Remote T) PaymentError A
    Sends serve = call_service T checker billing welcome_grant_micros contexts network code_of serve

    -- What is common to the two clients: the second request returned.
    mutation_served :
        (input : CreditsInput)
        (serve : Account
          → Serve T checker billing welcome_grant_micros contexts network code_of MutationResult)
        (r r' : Remote T)
        → (do
          account ←
              Sends
                (serve_ensure T checker billing welcome_grant_micros contexts network code_of input)
          Sends (serve account)
          pure tt)
            r
          ≡ (ok tt, r')
        → (account : Account) × (r₁ : Remote T) × (m : MutationResult) × (serve account
              (contexts r₁.requests)
              r₁.store
            ≡ (ok m, r'.store))
    mutation_served input serve r r' done =
        let ensure =
          serve_ensure T checker billing welcome_grant_micros contexts network code_of input in
        let (account, r₁, _, rest) =
          bind_ok (Sends ensure) (λ account. do Sends (serve account); pure tt) r r' tt done in
        let (m, r₂, sent, finished) =
          bind_ok (Sends (serve account)) (λ _. pure tt) r₁ r' tt rest in
        (
          account,
          r₁,
          m,
          call_service_ok (serve account) r₁ r₂ m sent ∙ ap (λ x. (ok m, x.1.store)) finished,
        )

    pub grant_client_books :
        (input : CreditsInput) (r r' : Remote T)
        → grant_client T checker billing welcome_grant_micros contexts network code_of input r
          ≡ (ok tt, r')
        → Entered input.idempotency_key r'
    unfolding grant_client run
    grant_client_books input r r' done =
        let (account, r₁, m, served) =
          mutation_served input
            (serve_grant T checker billing welcome_grant_micros contexts network code_of input) r r'
            done in
        let amount = amount_of input Reason.subscription account in
        let (s₀, granted) =
          service_grant_ok (contexts r₁.requests) amount r₁.store r'.store m served in
        (m.entry, (run-Shows T (contexts r₁.requests) (grant amount) s₀ r'.store m granted).0)

    pub reverse_client_books :
        (input : CreditsInput) (r r' : Remote T)
        → reverse_client T checker billing welcome_grant_micros contexts network code_of input r
          ≡ (ok tt, r')
        → Entered input.idempotency_key r'
    unfolding reverse_client run
    reverse_client_books input r r' done =
        let (account, r₁, m, served) =
          mutation_served input
            (serve_spend T checker billing welcome_grant_micros contexts network code_of input) r r'
            done in
        let amount = amount_of input Reason.refund account in
        let (s₀, spent) =
          service_spend_ok (contexts r₁.requests) amount r₁.store r'.store m served in
        (m.entry, (run-Shows T (contexts r₁.requests) (spend amount) s₀ r'.store m spent).0)

    -- kokoro-credit behind the client. A call under a used key changes nothing, whatever its input, so
    -- a call that returns promises an entry under the key and no more.
    abbrev pub credit_service : Credits
    credit_service = record {
      State = Remote T;
      grant = grant_client T checker billing welcome_grant_micros contexts network code_of;
      reverse = reverse_client T checker billing welcome_grant_micros contexts network code_of;
      Granted = λ input. Entered input.idempotency_key;
      Reversed = λ input. Entered input.idempotency_key;
      grant_books = grant_client_books;
      reverse_books = reverse_client_books;
    }
