-- ===== src/Base/Effect/Transaction.antt =====
-- Composition inside one transaction.
use mathlib.Core.Option.{Option, none, some}
use mathlib.Core.Bool.{Bool, true, false}
use kokoro_platform.Base.Effect.Defs.{Result, ok, err, Tx}

module _ {S E A : Type 0} where
  abbrev pub pure : A → Tx S E A
  pure a s = ok (a, s)

  abbrev pub throw : E → Tx S E A
  throw e _ = err e

  abbrev pub gets : (S → A) → Tx S E A
  gets f s = ok (f s, s)

  -- A result that was computed without the state.
  abbrev pub lift : Result E A → Tx S E A
  lift (ok a) s = ok (a, s)
  lift (err e) _ = err e

infixl 5 ◌>>=◌ ◌>>◌
abbrev pub ◌>>=◌ : {S E A B : Type 0} → Tx S E A → (A → Tx S E B) → Tx S E B
◌>>=◌ m f s = elim (m s) [ ok (a, s') ↦ f a s' | err e ↦ err e ]

abbrev pub ◌>>◌ : {S E A B : Type 0} → Tx S E A → Tx S E B → Tx S E B
m >> k = m >>= λ _. k

abbrev pub modify : {S E : Type 0} → (S → S) → Tx S E (Unit {0})
modify f s = ok (tt, f s)

abbrev pub throw_if : {S E : Type 0} → Bool → E → Tx S E (Unit {0})
throw_if true e _ = err e
throw_if false _ s = ok (tt, s)

-- `if (!x) throw e`
abbrev pub or_throw : {S E A : Type 0} → Option A → E → Tx S E A
or_throw none e _ = err e
or_throw (some a) _ s = ok (a, s)
