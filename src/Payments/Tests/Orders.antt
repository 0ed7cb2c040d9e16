-- ===== src/Payments/Tests/Orders.antt =====
-- Deliveries of a payment order, over a table that is a list.
use study_microsservices_nod.Base.{
  ◌*◌, ◌≤◌, ◌%◌, ◌+◌, ◌<◌, ◌≡◌, ◌≢◌, ◌↔◌, inl, inr, refl, true, Option, none, some, List, [], ◌∷◌,
  ◌++◌, find, ok, err, plain, Result, Option-cases,
}
use study_microsservices_nod.Payments.Money.{cent}
use study_microsservices_nod.Payments.Entity.{
  Payment, NewPayment, PaymentsRepository, IsRepository, has_order, row_of, replace, pending,
}
use study_microsservices_nod.Payments.Charge.{Process, PaymentChargeResult, charge}
use study_microsservices_nod.Payments.Service.{PaymentOrder}
use study_microsservices_nod.Payments.Service.Redelivery.{deliveries, charged_once}
use study_microsservices_nod.Payments.Service.Outcome.{charge_decision}
use study_microsservices_nod.Payments.Tests.{process_with}

-- A row is added if its order has none.
abbrev add : NewPayment → List Payment → Option Payment → Result Payment × List Payment
add new rows none = (ok (row_of new "payment-1" 5), rows ++ row_of new "payment-1" 5 ∷ [])
add new rows (some row) = (err (plain "duplicate key"), rows)

abbrev pub table : PaymentsRepository (List Payment)
table = record {
  rows = λ d. d;
  find_one_by = λ order_id d. (ok (find (has_order order_id) d), d);
  insert_one = λ new d. add new d (find (has_order new.order_id) d);
  update_one =
      λ row d. (ok (record row { updated_at = 7 }), replace (record row { updated_at = 7 }) d);
}

pub table-IsRepository : IsRepository table
table-IsRepository = record {
  finds = λ order_id d. inl refl;
  inserts = λ new d. elim (Option-cases (find (has_order new.order_id) d)) [
    | inl free ↦ inl ("payment-1", 5, d ++ row_of new "payment-1" 5 ∷ [], rw free refl, free, refl)
    | inr (row, taken) ↦ inr (plain "duplicate key", rw taken refl)
  ];
  updates = λ row d. inl (7, replace (record row { updated_at = 7 }) d, refl, refl);
}

-- An order of 50.99, which is declined.
abbrev pub order : PaymentOrder
order = record {
  order_id = "order-1";
  user_id = "user-1";
  amount = 5099 * cent;
  payment_method = "credit_card";
}

abbrev unpaid : Process (List Payment)
unpaid = process_with []

abbrev pub row : Payment
row =
    row_of
      (record {
        order_id = "order-1";
        user_id = "user-1";
        amount = 5099 * cent;
        payment_method = "credit_card";
        status = pending;
      })
      "payment-1" 5

abbrev pub interrupted : Process (List Payment)
interrupted = process_with (row ∷ [])

charged_once_example : (deliveries table table-IsRepository order 4 unpaid).issued ≤ 1
charged_once_example = charged_once table table-IsRepository order 4 unpaid

charge_decision_example :
    let (answer, q) =
      charge
        (record {
          order_id = "order-1";
          user_id = "user-1";
          amount = 5099 * cent;
          payment_method = "credit_card";
        })
        unpaid in
    (result : PaymentChargeResult) × (answer ≡ ok result)
    × ((result.approved ≡ true) ↔ ((5099 ≤ 1000000) × (5099 % 100 ≢ 99)))
    × ((result.rejection_reason ≡ none) ↔ (result.approved ≡ true))
    × (1000 + 500 ≤ q.clock)
    × (q.clock < 1000 + 2000)
charge_decision_example =
    charge_decision unpaid
      (record {
        order_id = "order-1";
        user_id = "user-1";
        amount = 5099 * cent;
        payment_method = "credit_card";
      })
      5099 refl
