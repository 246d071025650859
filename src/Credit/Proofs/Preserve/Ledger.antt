-- ===== src/Credit/Proofs/Preserve/Ledger.antt =====
-- The mutations of the ledger keep the database well formed.
use kokoro_platform.Base.{◌≡◌, refl, ap}
use kokoro_platform.Base.Effect.{ok}
use kokoro_platform.Credit.Types.{AmountInput, ResetInput, MutationResult}
use kokoro_platform.Credit.Amount.{parse_positive_sound, parse_non_negative_sound}
use kokoro_platform.Credit.Store.{Tables, Store, Context}
use kokoro_platform.Credit.Repository.Mutations.{
  grant_body, grant_credits, spend_body, spend_credits, reset_body, reset_balance,
}
use kokoro_platform.Credit.Proofs.Invariant.{IsWellFormed}
use kokoro_platform.Credit.Proofs.Mutations.{
  granted, reset_to, charged, grant_body_ok, spend_body_ok, reset_body_ok,
}
use kokoro_platform.Credit.Proofs.Balances.{granted-IsSound, reset_to-IsSound, charged-IsSound}
use kokoro_platform.Credit.Proofs.Preserve.Writes.{once-IsWellFormed, write_account-IsWellFormed}

module _ (T : Tables) where
  module _ (ctx : Context) where
    pub grant_credits-IsWellFormed :
        (input : AmountInput) (s : Store T)
        → IsWellFormed T s
        → IsWellFormed T (grant_credits T ctx input s).1
    unfolding grant_credits
    grant_credits-IsWellFormed input s w =
        once-IsWellFormed T input.idempotency_key (grant_body T ctx input) s
          (λ r s' done. keep r s' done) w
      where
        keep :
            (r : MutationResult) (s' : Store T)
            → grant_body T ctx input s ≡ ok (r, s')
            → IsWellFormed T s'
        keep r s' done =
            let (amount, row, parsed, found, live, (er, es)) =
              grant_body_ok T ctx input s s' r done in
            let (n, e, _, _) = parse_positive_sound input.amount_micros amount parsed in
            write_account-IsWellFormed T s s' input.account_id row (granted row amount) w found
              (rw e (granted-IsSound row n (w.accounts input.account_id row found))) refl refl
              (ap (λ (x : Store T). x.accounts) es) (ap (λ (x : Store T). x.holds) es)

    pub spend_credits-IsWellFormed :
        (input : AmountInput) (s : Store T)
        → IsWellFormed T s
        → IsWellFormed T (spend_credits T ctx input s).1
    unfolding spend_credits
    spend_credits-IsWellFormed input s w =
        once-IsWellFormed T input.idempotency_key (spend_body T ctx input) s
          (λ r s' done. keep r s' done) w
      where
        keep :
            (r : MutationResult) (s' : Store T)
            → spend_body T ctx input s ≡ ok (r, s')
            → IsWellFormed T s'
        keep r s' done =
            let (amount, row, parsed, found, can, (er, es)) =
              spend_body_ok T ctx input s s' r done in
            write_account-IsWellFormed T s s' input.account_id row (charged T ctx row amount) w
              found (charged-IsSound T ctx row amount (w.accounts input.account_id row found)) refl
              refl (ap (λ (x : Store T). x.accounts) es) (ap (λ (x : Store T). x.holds) es)

    pub reset_balance-IsWellFormed :
        (input : ResetInput) (s : Store T)
        → IsWellFormed T s
        → IsWellFormed T (reset_balance T ctx input s).1
    unfolding reset_balance
    reset_balance-IsWellFormed input s w =
        once-IsWellFormed T input.idempotency_key (reset_body T ctx input) s
          (λ r s' done. keep r s' done) w
      where
        keep :
            (r : MutationResult) (s' : Store T)
            → reset_body T ctx input s ≡ ok (r, s')
            → IsWellFormed T s'
        keep r s' done =
            let (target, row, parsed, found, live, above, (er, es)) =
              reset_body_ok T ctx input s s' r done in
            let (n, e) = parse_non_negative_sound input.target_micros target parsed in
            write_account-IsWellFormed T s s' input.account_id row (reset_to row target) w found
              (rw e (reset_to-IsSound row n (w.accounts input.account_id row found))) refl refl
              (ap (λ (x : Store T). x.accounts) es) (ap (λ (x : Store T). x.holds) es)
