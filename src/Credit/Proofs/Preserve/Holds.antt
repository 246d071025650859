-- ===== src/Credit/Proofs/Preserve/Holds.antt =====
-- Holding, capturing, releasing and reclaiming keep the database well formed.
use mathlib.Core.Path.{subst}
use kokoro_platform.Base.{◌≡◌, eq_refl, refl, sym, ◌∙◌, ap, true, false, none, arith, ◌==◌}
use kokoro_platform.Base.Int.{ℤ, pos, ltb_ℤ, int_laws, parts_of_eq}
use kokoro_platform.Base.Effect.{ok}
use kokoro_platform.Base.Table.{weight_of}
use kokoro_platform.Credit.Types.{Hold, captured, HoldInput, CaptureInput, MutationResult}
use kokoro_platform.Credit.Amount.{parse_positive_sound}
use kokoro_platform.Credit.Buckets.{debit}
use kokoro_platform.Credit.Store.{Tables, Store, Context}
use kokoro_platform.Credit.Repository.Rows.{find_hold, put_account, put_hold}
use kokoro_platform.Credit.Repository.Holds.{hold_body, capture_body, capture_hold}
use kokoro_platform.Credit.Proofs.Invariant.{
  IsSplit, frozen_of, IsWellFormed, put_both-IsWellFormed, held_of_row,
}
use kokoro_platform.Credit.Proofs.Mutations.{current}
use kokoro_platform.Credit.Proofs.Holds.{
  unspent, held_account, new_hold, hold_body_ok, capture_body_ok,
}
use kokoro_platform.Credit.Proofs.Balances.{unspent-IsNonneg, charged-IsSound, new_hold-IsSplit}
use kokoro_platform.Credit.Proofs.Preserve.Writes.{
  once-IsWellFormed, Settles-IsWellFormed, frozen_of_active,
}

module _ (T : Tables) where
  module _ (ctx : Context) where
    pub capture_hold-IsWellFormed :
        (input : CaptureInput) (s : Store T)
        → IsWellFormed T s
        → IsWellFormed T (capture_hold T ctx input s).1
    unfolding capture_hold
    capture_hold-IsWellFormed input s w =
        once-IsWellFormed T input.idempotency_key (capture_body T ctx input) s
          (λ r s' done. keep r s' done) w
      where
        keep :
            (r : MutationResult) (s' : Store T)
            → capture_body T ctx input s ≡ ok (r, s')
            → IsWellFormed T s'
        keep r s' done =
            let (actual, hold, acct, _, _, settles, _, _, _) =
              capture_body_ok T ctx input s s' r done in
            Settles-IsWellFormed T input.hold_id captured (unspent hold actual) hold acct s s' refl
              w (unspent-IsNonneg hold actual (w.holds input.hold_id hold settles.0)) settles

    -- The database gives a new hold an id that no hold has.
    pub hold_body-IsWellFormed :
        (input : HoldInput) (s s' : Store T) (h : Hold)
        → IsWellFormed T s
        → find_hold T ctx.hold_id s ≡ none
        → hold_body T ctx input s ≡ ok (h, s')
        → IsWellFormed T s'
    hold_body-IsWellFormed input s s' h w fresh done =
        let (amount, row, parsed, found, can, eh, es) = hold_body_ok T ctx input s s' h done in
        let (n, e, _, _) = parse_positive_sound input.amount_micros amount parsed in
        let sound = w.accounts input.account_id row found in
        let row_id : row.id ≡ input.account_id =
          T.accounts.find_unique-id input.account_id s.accounts row found in
        let new = new_hold T ctx input row amount in
        let a = held_account T ctx row amount in
        let before = held_of_row T s input.account_id row w found in
        let count = T.holds.aggregate-put (frozen_of row.id) new s.holds in
        let mine : (input.account_id == row.id) ≡ true =
          subst (λ k. (input.account_id == k) ≡ true) (sym row_id) (eq_refl input.account_id) in
        let none_there : weight_of (frozen_of row.id) (find_hold T ctx.hold_id s) ≡ pos 0 =
          rw fresh refl in
        let freezes : frozen_of row.id new ≡ amount = frozen_of_active row.id new mine refl in
        let charged_sound = charged-IsSound T ctx row amount sound in
        let covered =
          subst (λ (x : ℤ). ltb_ℤ (pos 0) (debit (current T ctx row) x).shortfall ≡ false) e
            can.2 in
        let split =
          subst (λ (x : ℤ). IsSplit (new_hold T ctx input row x)) (sym e)
            (new_hold-IsSplit T ctx input row n sound covered) in
        subst (IsWellFormed T) (sym (es ∙ ap (λ (x : Hold). put_hold T x (put_account T a s)) eh)) (
          put_both-IsWellFormed T a new s w
            (record {
              buckets = charged_sound.buckets;
              allowances = charged_sound.allowances;
              within = charged_sound.within;
            })
            split (sym row_id) (λ old there. ground arith)
            (omega (
              int_laws,
              parts_of_eq before,
              parts_of_eq count,
              parts_of_eq none_there,
              parts_of_eq freezes,
            )))
