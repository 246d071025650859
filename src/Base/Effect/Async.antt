-- ===== src/Base/Effect/Async.antt =====
-- Composition of asynchronous calls, and the transaction as one call.
use mathlib.Core.Option.{Option, none, some}
use mathlib.Core.Bool.{Bool, true, false}
use mathlib.Core.Path.{◌≡◌, ap}
use native.Mathlib.Omega.{arith}
use mathlib.Core.Logic.{inl, inr}
use kokoro_platform.Base.Effect.Defs.{Result, ok, err, Result-cases, Tx, Action}

module _ {S E A : Type 0} where
  abbrev pub pure : A → Action S E A
  pure a s = (ok a, s)

  abbrev pub throw : E → Action S E A
  throw e s = (err e, s)

  abbrev pub gets : (S → A) → Action S E A
  gets f s = (ok (f s), s)

  abbrev pub lift : Result E A → Action S E A
  lift r s = (r, s)

  -- `prisma.$transaction(body)`: commit, or roll back and throw.
  abbrev pub transaction : Tx S E A → Action S E A
  transaction m s = elim (m s) [ ok (a, s') ↦ (ok a, s') | err e ↦ (err e, s) ]

  -- It keeps what the body keeps where the body returns.
  pub transaction_keeps :
      (P : S → Type 0) (m : Tx S E A) (s : S)
      → ((a : A) (s' : S) → m s ≡ ok (a, s') → P s')
      → P s
      → P (transaction m s).1
  transaction_keeps P m s keep p = elim (Result-cases (m s)) [
    | inl ((a, s'), done) ↦ rw (transaction, done) (keep a s' done)
    | inr (e, failed) ↦ rw (transaction, failed) p
  ]

infixl 5 ◌>>=◌ ◌>>◌
abbrev pub ◌>>=◌ : {S E A B : Type 0} → Action S E A → (A → Action S E B) → Action S E B
◌>>=◌ m f s = let (r, s') = m s in elim r [ ok a ↦ f a s' | err e ↦ (err e, s') ]

abbrev pub ◌>>◌ : {S E A B : Type 0} → Action S E A → Action S E B → Action S E B
m >> k = m >>= λ _. k

abbrev pub throw_if : {S E : Type 0} → Bool → E → Action S E (Unit {0})
throw_if true e s = (err e, s)
throw_if false _ s = (ok tt, s)

abbrev pub or_throw : {S E A : Type 0} → Option A → E → Action S E A
or_throw none e s = (err e, s)
or_throw (some a) _ s = (ok a, s)

-- A sequence that returns is two calls that return.
pub bind_ok :
    {S E A B : Type 0} (m : Action S E A) (f : A → Action S E B) (s s'' : S) (b : B)
    → (m >>= f) s ≡ (ok b, s'')
    → (a : A) × (s' : S) × (m s ≡ (ok a, s')) × (f a s' ≡ (ok b, s''))
bind_ok m f s s'' b done = elim (Result-cases (m s).0) [
  | inl (a, ran) ↦ (a, (m s).1, ap (λ r. (r, (m s).1)) ran, ground arith)
  | inr (e, failed) ↦ absurd (ground (arith, ap (λ x. x.0) done))
]
