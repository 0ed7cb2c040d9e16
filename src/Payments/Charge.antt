-- ===== src/Payments/Charge.antt =====
-- payments-service/src/payments/fake-payment-gateway.service.ts. `Math.random()` is the next of a
-- process's draws, a multiple of 2⁻⁵³ below 1; `randomUUID()` is the next of its identifiers.
use study_microsservices_nod.Base.{
  ℕ, suc, ◌+◌, ◌-◌, ◌*◌, ◌/◌, ◌%◌, ◌^◌, String, Bool, true, false, Option, none, some, Action, ok,
  ltb, ◌==◌, ◌+ₛ◌, if◌then◌else◌,
}
use study_microsservices_nod.Payments.Money.{finite, cent, to_cents}

-- The memory of the payments process that a charge reads and changes, and the database.
pub record Process (D : Type 0) : Type 0 where
  pub clock : ℕ
  pub draws : ℕ → ℕ
  pub drawn : ℕ
  pub uuids : ℕ → String
  pub issued : ℕ
  pub db : D

-- 10000, in hundredths of a cent.
abbrev pub amount_limit : ℕ
amount_limit = 10000 * 100 * cent

abbrev pub limit_exceeded_reason : String
limit_exceeded_reason = "Limite excedido"

abbrev pub card_declined_reason : String
card_declined_reason = "Cartão recusado pela operadora"

pub record PaymentChargeRequest : Type 0 where
  pub order_id : String
  pub user_id : String
  pub amount : ℕ
  pub payment_method : String

pub record PaymentChargeResult : Type 0 where
  pub approved : Bool
  pub transaction_id : String
  pub rejection_reason : Option String

unfoldable pub rejection_reason_for : ℕ → Option String
unfolding to_cents
rejection_reason_for amount =
    if ltb amount_limit amount
    then some limit_exceeded_reason
    else if to_cents (finite amount) % 100 == 99
    then some card_declined_reason
    else none

abbrev pub min_latency_ms : ℕ
min_latency_ms = 500

abbrev pub max_latency_ms : ℕ
max_latency_ms = 2000

abbrev pub resolution : ℕ
resolution = 2 ^ 53

unfoldable pub random_latency : ℕ → ℕ
random_latency draw =
    min_latency_ms + (draw % resolution) * (max_latency_ms - min_latency_ms) / resolution

-- The answer, by the reason for a rejection.
unfoldable pub charge_result : String → Option String → PaymentChargeResult
charge_result transaction_id (some reason) = record {
  approved = false;
  transaction_id = transaction_id;
  rejection_reason = some reason;
}
charge_result transaction_id none = record {
  approved = true;
  transaction_id = transaction_id;
  rejection_reason = none;
}

unfoldable pub charge : {D : Type 0} → PaymentChargeRequest → Action (Process D) PaymentChargeResult
unfolding random_latency charge_result rejection_reason_for
charge request p = (
  ok (charge_result ("txn_" +ₛ p.uuids p.issued) (rejection_reason_for request.amount)),
  record p {
    clock = p.clock + random_latency (p.draws p.drawn);
    drawn = suc p.drawn;
    issued = suc p.issued;
  },
)
