-- ===== src/Payments/Consumer/Metrics.antt =====
-- The counts of the consumer.
use study_microsservices_nod.Base.{
  ap, ℕ, suc, ◌+◌, ◌≡◌, ◌↔◌, ◌⊎◌, inl, inr, refl, Bool, true, false, Option, none, some, ok, err,
  Error, arith, Option-cases, Result-cases,
}
use study_microsservices_nod.Payments.Entity.{Payment, PaymentsRepository}
use study_microsservices_nod.Payments.Charge.{Process}
use study_microsservices_nod.Payments.Service.{PaymentOrder, process_payment}
use study_microsservices_nod.Payments.Consumer.{
  Consumer, no_metrics, rounded_average, counted, update_metrics, reset_metrics, accept_order,
  process_payment_order,
}

-- Every message was a success or a failure, the average is that of the times added up, and there is a
-- last time exactly if there was a message.
pub record IsCounted {D : Type 0} (c : Consumer D) : Type 0 where
  pub adds_up : c.metrics.total_processed ≡ c.metrics.total_success + c.metrics.total_failed
  pub averages :
      c.metrics.average_processing_time
      ≡ rounded_average c.total_processing_time c.metrics.total_processed
  pub last_known : (c.metrics.last_processed_at ≡ none) ↔ (c.metrics.total_processed ≡ 0)

update_metrics-IsCounted :
    {D : Type 0} (success : Bool) (start_time : ℕ) (c : Consumer D)
    → IsCounted c
    → IsCounted (update_metrics success start_time c)
unfolding update_metrics counted
update_metrics-IsCounted true start_time c h = record {
  adds_up = omega (arith, h.adds_up);
  averages = refl;
  last_known = ground arith;
}
update_metrics-IsCounted false start_time c h = record {
  adds_up = omega (arith, h.adds_up);
  averages = refl;
  last_known = ground arith;
}

module _ {D M : Type 0} (repository : PaymentsRepository D)
    (safe_parse : M → Option PaymentOrder) where
  -- Either an error is thrown on and one failure is counted, or the message was a payment order, the
  -- payments service answered with a payment, nothing is thrown and one success is counted.
  pub process_payment_order-settles :
      (message : M) (c : Consumer D)
      → let (answer, c') = process_payment_order repository safe_parse message c in
        ((e : Error) × (answer ≡ err e)
          × (c'.metrics.total_failed ≡ suc c.metrics.total_failed)
          × (c'.metrics.total_success ≡ c.metrics.total_success))
        ⊎ ((order : PaymentOrder) × (row : Payment) × (safe_parse message ≡ some order)
            × (process_payment repository order c.process ≡ (ok row, c'.process))
            × (answer ≡ ok tt)
            × (c'.metrics.total_success ≡ suc c.metrics.total_success)
            × (c'.metrics.total_failed ≡ c.metrics.total_failed))
  unfolding process_payment_order accept_order update_metrics counted
  process_payment_order-settles message c = elim (Option-cases (safe_parse message)) [
    | inl unread ↦ rw unread (inl (_, refl, refl, refl))
    | inr (order, reads) ↦
        let p = process_payment repository order c.process in
        elim (Result-cases p.0) [
          | inl (row, done) ↦
              rw (reads, done) (inr (order, row, refl, ap (λ r. (r, p.1)) done, refl, refl, refl))
          | inr (e, fails) ↦ rw (reads, fails) (inl (e, refl, refl, refl))
        ]
  ]

  moved : (p : Process D) (c : Consumer D) → IsCounted c → IsCounted (record c { process = p })
  moved p c h = record { adds_up = h.adds_up; averages = h.averages; last_known = h.last_known }

  -- The counts stay right, whatever message is handled and however that ends.
  pub process_payment_order-IsCounted :
      (message : M) (c : Consumer D)
      → IsCounted c
      → IsCounted (process_payment_order repository safe_parse message c).1
  unfolding process_payment_order accept_order
  process_payment_order-IsCounted message c h = elim (Option-cases (safe_parse message)) [
    | inl unread ↦ rw unread (update_metrics-IsCounted false c.process.clock c h)
    | inr (order, reads) ↦
        let p = (process_payment repository order c.process).1 in
        let later : IsCounted (record c { process = p }) = moved p c h in
        elim (Result-cases (process_payment repository order c.process).0) [
          | inl (row, done) ↦
              rw (reads, done) (update_metrics-IsCounted true c.process.clock _ later)
          | inr (e, fails) ↦
              rw (reads, fails) (update_metrics-IsCounted false c.process.clock _ later)
        ]
  ]

-- The routes that change the metrics: a reset starts them afresh, and a retry is counted apart.
reset_metrics-IsCounted : {D : Type 0} (c : Consumer D) → IsCounted (reset_metrics c)
unfolding reset_metrics no_metrics
reset_metrics-IsCounted c = record {
  adds_up = refl;
  averages = refl;
  last_known = ((λ h. refl), (λ h. refl));
}
