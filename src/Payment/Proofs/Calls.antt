-- ===== src/Payment/Proofs/Calls.antt =====
-- The calls of the credit service that belong to an order.
use Prim.Native.String
use kokoro_platform.Base.{String, ◌≡◌}
use kokoro_platform.Base.Decimal.{to_string}
use kokoro_platform.Payment.Types.{CreditsInput, Order, Plan}

abbrev pub order_key : String → String
order_key id = String.◌++◌ "order:" id

abbrev pub refund_key : String → String
refund_key id = String.◌++◌ "order-refund:" id

-- The call is for the credit of the plan, for the team and the site of the order, under the key.
pub record IsCallFor (key : String) (order : Order) (plan : Plan) (call : CreditsInput)
    : Type 0 where
  pub keyed : call.idempotency_key ≡ key
  pub amount : call.amount_micros ≡ to_string plan.credit_micros
  pub team : call.owner_id ≡ order.team_id
  pub site : call.site_id ≡ order.site_id
