-- ===== src/Payments/Consumer.antt =====
-- payments-service/src/events/payment-consumer/payment-consumer.service.ts. The schema that a message
-- must satisfy is a parameter. A message is not the JSON value `null`, on which the `catch` itself throws
-- where it logs the order's id, so that nothing is counted.
pub mod Metrics
pub mod Intake
use study_microsservices_nod.Base.{
  ℕ, zero, suc, ◌+◌, ◌-◌, ◌*◌, ◌/◌, String, Bool, true, false, Option, none, some, Action, ok, err,
  Result, Error, plain, pure, raise, gets, modify, try_catch, or_raise, ◌>>=◌, ◌>>◌, if◌then◌else◌,
}
use study_microsservices_nod.Payments.Entity.{Payment, PaymentsRepository}
use study_microsservices_nod.Payments.Charge.{Process}
use study_microsservices_nod.Payments.Service.{PaymentOrder, process_payment}

-- Times are milliseconds.
pub record ConsumerMetrics : Type 0 where
  pub total_processed : ℕ
  pub total_success : ℕ
  pub total_failed : ℕ
  pub total_retries : ℕ
  pub last_processed_at : Option ℕ
  pub started_at : ℕ
  pub average_processing_time : ℕ

-- The fields of the consumer, and the process it runs in.
pub record Consumer (D : Type 0) : Type 0 where
  pub process : Process D
  pub metrics : ConsumerMetrics
  pub total_processing_time : ℕ

unfoldable pub no_metrics : ℕ → ConsumerMetrics
no_metrics now = record {
  total_processed = 0;
  total_success = 0;
  total_failed = 0;
  total_retries = 0;
  last_processed_at = none;
  started_at = now;
  average_processing_time = 0;
}

-- `Math.round(total / count)`, for a count that is not 0.
abbrev pub rounded_average : ℕ → ℕ → ℕ
rounded_average total zero = 0
rounded_average total (suc n) = (2 * total + suc n) / (2 * suc n)

unfoldable pub counted : Bool → ConsumerMetrics → ConsumerMetrics
counted true m = record m { total_success = suc m.total_success }
counted false m = record m { total_failed = suc m.total_failed }

-- `updateMetrics`, at the time of its call.
unfoldable pub update_metrics : {D : Type 0} → Bool → ℕ → Consumer D → Consumer D
unfolding counted
update_metrics success start_time c =
    let now = c.process.clock in
    let total_time = c.total_processing_time + (now - start_time) in
    let m = counted success (record c.metrics {
      total_processed = suc c.metrics.total_processed;
      last_processed_at = some now;
    }) in
    record c {
      metrics = record m { average_processing_time = rounded_average total_time m.total_processed };
      total_processing_time = total_time;
    }

unfoldable pub increment_retry_count : {D : Type 0} → Consumer D → Consumer D
increment_retry_count c = record c {
  metrics = record c.metrics { total_retries = suc c.metrics.total_retries };
}

unfoldable pub reset_metrics : {D : Type 0} → Consumer D → Consumer D
unfolding no_metrics
reset_metrics c = record c { metrics = no_metrics c.process.clock; total_processing_time = 0 }

-- A call of the payments service, from the consumer.
abbrev pub with_process : {D A : Type 0} → Action (Process D) A → Action (Consumer D) A
with_process call c = let (result, p) = call c.process in (result, record c { process = p })

module _ {D M : Type 0} (repository : PaymentsRepository D)
    (safe_parse : M → Option PaymentOrder) where
  -- The `try` of `processPaymentOrder`.
  unfoldable pub accept_order : M → ℕ → Action (Consumer D) (Unit {0})
  unfolding process_payment update_metrics
  accept_order message start_time = do
    payment_order ← or_raise (safe_parse message) (plain "Invalid payment message")
    payment ← with_process (process_payment repository payment_order)
    modify (update_metrics true start_time)

  unfoldable pub process_payment_order : M → Action (Consumer D) (Unit {0})
  unfolding accept_order
  process_payment_order message = do
    start_time ← gets (λ c. c.process.clock)
    try_catch (accept_order message start_time)
        (λ e. do modify (update_metrics false start_time); raise e)
