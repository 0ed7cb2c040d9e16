-- ===== src/Payments/Consumer/Intake.antt =====
-- From the queue to the payment: what the handler of `payment_queue` does with a message.
use study_microsservices_nod.Base.{Bool, Option}
use study_microsservices_nod.Payments.Entity.{PaymentsRepository, IsRepository}
use study_microsservices_nod.Payments.Service.{PaymentOrder}
use study_microsservices_nod.Payments.Rabbitmq.{
  Message, Settlement, handle_message, default_max_retries,
}
use study_microsservices_nod.Payments.Consumer.{Consumer, process_payment_order}

module _ {D R M : Type 0} (repository : PaymentsRepository D) (laws : IsRepository repository)
    (safe_parse : M → Option PaymentOrder) (parse : R → Option M) where
  -- The handler that the consumer gives to `payment_queue`.
  abbrev pub on_delivery : Bool → Message R → Consumer D → Settlement × Consumer D
  on_delivery =
      handle_message parse (process_payment_order repository safe_parse) default_max_retries
