-- ===== src/Payments/Service.antt =====
-- payments-service/src/payments/payments.service.ts and payment-response.mapper.ts.
pub mod Redelivery
pub mod Outcome
use study_microsservices_nod.Base.{
  ℕ, String, Bool, true, false, Option, none, some, Action, ok, err, Result, ◌>>=◌, pure, gets,
  or_raise, http, if◌then◌else◌,
}
use study_microsservices_nod.Base.Values.{str}
use study_microsservices_nod.Payments.Money.{Number, finite, to_money}
use study_microsservices_nod.Payments.Entity.{
  Payment, NewPayment, PaymentStatus, pending, approved, rejected, PaymentsRepository,
}
use study_microsservices_nod.Payments.Charge.{Process, PaymentChargeResult, charge}

-- The fields of `PaymentOrderMessage` that are read here.
pub record PaymentOrder : Type 0 where
  pub order_id : String
  pub user_id : String
  pub amount : ℕ
  pub payment_method : String

pub record PaymentResponse : Type 0 where
  pub id : String
  pub order_id : String
  pub user_id : String
  pub amount : Number
  pub status : PaymentStatus
  pub payment_method : String
  pub transaction_id : Option String
  pub rejection_reason : Option String
  pub processed_at : Option ℕ
  pub created_at : ℕ
  pub updated_at : ℕ

unfoldable pub to_payment_response : Payment → PaymentResponse
unfolding to_money
to_payment_response payment = record {
  id = payment.id;
  order_id = payment.order_id;
  user_id = payment.user_id;
  amount = to_money (finite payment.amount);
  status = payment.status;
  payment_method = payment.payment_method;
  transaction_id = payment.transaction_id;
  rejection_reason = payment.rejection_reason;
  processed_at = payment.processed_at;
  created_at = payment.created_at;
  updated_at = payment.updated_at;
}

-- The assignments to the payment after a charge.
unfoldable pub finish : Payment → PaymentChargeResult → ℕ → Payment
finish payment result now = record payment {
  status = if result.approved then approved else rejected;
  transaction_id = some result.transaction_id;
  rejection_reason = result.rejection_reason;
  processed_at = some now;
}

-- A call of the database, in the process.
abbrev pub with_db : {D A : Type 0} → Action D A → Action (Process D) A
with_db call p = let (result, d) = call p.db in (result, record p { db = d })

module _ {D : Type 0} (repository : PaymentsRepository D) where
  open repository use {find_one_by, insert_one, update_one}

  -- The charge of a payment that was stored as pending.
  unfoldable pub settle_payment : PaymentOrder → Payment → Action (Process D) Payment
  unfolding charge finish
  settle_payment message payment = do
    result ← charge (record {
      order_id = message.order_id;
      user_id = message.user_id;
      amount = message.amount;
      payment_method = message.payment_method;
    })
    now ← gets (λ p. p.clock)
    with_db (update_one (finish payment result now))

  -- The part for an order that has no payment yet.
  unfoldable pub process_new : PaymentOrder → Action (Process D) Payment
  unfolding settle_payment
  process_new message = do
    payment ← with_db (
        insert_one (record {
          order_id = message.order_id;
          user_id = message.user_id;
          amount = message.amount;
          payment_method = message.payment_method;
          status = pending;
        }))
    settle_payment message payment

  unfoldable pub process_existing : PaymentOrder → Option Payment → Action (Process D) Payment
  unfolding process_new
  process_existing message (some existing_payment) = pure existing_payment
  process_existing message none = process_new message

  unfoldable pub process_payment : PaymentOrder → Action (Process D) Payment
  unfolding process_existing
  process_payment message = do
    existing_payment ← with_db (find_one_by message.order_id)
    process_existing message existing_payment

  unfoldable pub find_by_order_id : String → Action (Process D) PaymentResponse
  unfolding to_payment_response
  find_by_order_id order_id = do
    found ← with_db (find_one_by order_id)
    payment ← or_raise found (http 404 (str "Pagamento não encontrado"))
    pure (to_payment_response payment)
