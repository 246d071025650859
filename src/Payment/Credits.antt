-- ===== src/Payment/Credits.antt =====
-- The credit service, as kokoro-payment calls it (GrantPurchaseCredits and ReverseCredits of
-- kokoro-payment/src/domain/repository.ts): the two calls, and what is relied on, that a call which
-- returns has been granted, or reversed. A call that throws may have been or not.
use kokoro_platform.Base.{◌≡◌}
use kokoro_platform.Base.Effect.{ok, Action}
use kokoro_platform.Payment.Types.{CreditsInput, PaymentError}

pub record Credits : Type 1 where
  pub State : Type 0
  pub grant : CreditsInput → Action State PaymentError (Unit {0})
  pub reverse : CreditsInput → Action State PaymentError (Unit {0})
  pub Granted : CreditsInput → State → Type 0
  pub Reversed : CreditsInput → State → Type 0
  pub grant_books :
      (input : CreditsInput) (s s' : State) → grant input s ≡ (ok tt, s') → Granted input s'
  pub reverse_books :
      (input : CreditsInput) (s s' : State) → reverse input s ≡ (ok tt, s') → Reversed input s'
