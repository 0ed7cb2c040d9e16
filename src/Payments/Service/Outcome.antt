-- ===== src/Payments/Service/Outcome.antt =====
-- What the gateway decides, over all amounts of whole cents.
use study_microsservices_nod.Base.{
  ℕ, ◌+◌, ◌*◌, ◌≤◌, ◌<◌, ◌%◌, ◌≡◌, ◌≢◌, ◌↔◌, true, none, refl, Option, String, ◌+ₛ◌, arith, ok,
}
use study_microsservices_nod.Payments.Money.{cent}
use study_microsservices_nod.Payments.Charge.{
  Process, PaymentChargeRequest, PaymentChargeResult, charge, rejection_reason_for, random_latency,
  charge_result,
}

random_latency_bounds : (draw : ℕ) → (500 ≤ random_latency draw) × (random_latency draw < 2000)
unfolding random_latency
random_latency_bounds draw = omega arith

reason_none :
    (cents : ℕ)
    → (rejection_reason_for (cents * cent) ≡ none) ↔ ((cents ≤ 1000000) × (cents % 100 ≢ 99))
unfolding rejection_reason_for
reason_none cents = ground arith

approved_iff :
    (t : String) (reason : Option String)
    → ((charge_result t reason).approved ≡ true) ↔ (reason ≡ none)
unfolding charge_result
approved_iff t reason = ground arith

reason_of_result :
    (t : String) (reason : Option String) → (charge_result t reason).rejection_reason ≡ reason
unfolding charge_result
reason_of_result t reason = ground arith

-- A charge of whole cents answers after half a second to two seconds, and approves exactly the
-- amounts up to 10000 that do not end in 99 cents; it gives a reason exactly if it does not approve.
pub charge_decision :
    {D : Type 0} (p : Process D) (request : PaymentChargeRequest) (cents : ℕ)
    → request.amount ≡ cents * cent
    → let (answer, q) = charge request p in
      (result : PaymentChargeResult) × (answer ≡ ok result)
      × ((result.approved ≡ true) ↔ ((cents ≤ 1000000) × (cents % 100 ≢ 99)))
      × ((result.rejection_reason ≡ none) ↔ (result.approved ≡ true))
      × (p.clock + 500 ≤ q.clock)
      × (q.clock < p.clock + 2000)
unfolding charge
charge_decision p request cents whole =
    let reason = rejection_reason_for request.amount in
    let t = "txn_" +ₛ p.uuids p.issued in
    let decided : (reason ≡ none) ↔ ((cents ≤ 1000000) × (cents % 100 ≢ 99)) =
      rw whole (reason_none cents) in
    let (late, soon) = random_latency_bounds (p.draws p.drawn) in
    (
      charge_result t reason,
      refl,
      (
        (λ h. decided.0 ((approved_iff t reason).0 h)),
        (λ h. (approved_iff t reason).1 (decided.1 h)),
      ),
      rw (reason_of_result t reason)
          ((λ h. (approved_iff t reason).1 h), (λ h. (approved_iff t reason).0 h)),
      omega arith,
      omega arith,
    )
