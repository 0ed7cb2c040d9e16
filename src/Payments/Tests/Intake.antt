-- ===== src/Payments/Tests/Intake.antt =====
-- Messages of the payment queue, and what the routes then report.
use study_microsservices_nod.Base.{
  ℕ, ◌≡◌, ◌≢◌, refl, String, Option, some, List, [], ◌∷◌, plain, arith, ◌+ₛ◌, raise, Action,
}
use study_microsservices_nod.Payments.Entity.{Payment}
use study_microsservices_nod.Payments.Service.{PaymentOrder}
use study_microsservices_nod.Payments.Rabbitmq.{Message}
use study_microsservices_nod.Payments.Rabbitmq.Topology.{topology, next_queues, dead_letters_end}
use study_microsservices_nod.Payments.Consumer.{Consumer, process_payment_order}
use study_microsservices_nod.Payments.Consumer.Metrics.{IsCounted, process_payment_order-IsCounted}
use study_microsservices_nod.Payments.Tests.Orders.{table, order, interrupted}

dead_letters_end_example :
    (next_queues (topology "payment_queue" "payments" "payment.order" 30000) "payment_queue"
      ≡ "payment_queue.retry" ∷ [])
    × (next_queues (topology "payment_queue" "payments" "payment.order" 30000) "payment_queue.retry"
        ≡ "payment_queue.dlq" ∷ [])
    × (next_queues (topology "payment_queue" "payments" "payment.order" 30000) "payment_queue.dlq"
        ≡ [])
    × (("payment_queue" +ₛ ".retry") ≢ "payment_queue")
    × (("payment_queue" +ₛ ".dlq") ≢ "payment_queue")
dead_letters_end_example = dead_letters_end "payment_queue" "payments" "payment.order" 30000

-- A message is an order, or nothing.
abbrev sent : Message (Option PaymentOrder)
sent = record {
  content = some order;
  x_death =
      record {
        reason = "expired";
        queue = "payment_queue.retry";
        count = 1;
        exchange = "payments.retry.dlx";
        routing_keys = [];
      }
      ∷ [];
}

abbrev accepts : PaymentOrder → Option PaymentOrder
accepts o = some o

abbrev parse : Option PaymentOrder → Option PaymentOrder
parse content = content

abbrev consumer : Consumer (List Payment)
consumer = record {
  process = interrupted;
  metrics = record {
    total_processed = 9;
    total_success = 9;
    total_failed = 0;
    total_retries = 0;
    last_processed_at = some 900;
    started_at = 0;
    average_processing_time = 100;
  };
  total_processing_time = 900;
}

consumer-IsCounted : IsCounted consumer
consumer-IsCounted = record {
  adds_up = refl;
  averages = refl;
  last_known = ((λ h. cc), (λ h. absurd (omega (arith, h))));
}

abbrev fails : PaymentOrder → Action (Consumer (List Payment)) (Unit {0})
fails o = raise (plain "down")

process_payment_order-IsCounted_example :
    IsCounted (process_payment_order table accepts order consumer).1
process_payment_order-IsCounted_example =
    process_payment_order-IsCounted table accepts order consumer consumer-IsCounted

abbrev show : ℕ → String
show n = "0"

abbrev percent : ℕ → ℕ → ℕ → String
percent part whole digits = "100"
