-- ===== src/Payments/Entity.antt =====
-- payments-service/src/payments/entities/payment.entity.ts, and the repository of its table: TypeORM
-- over PostgreSQL, of which the service knows the operations and what they promise.
use study_microsservices_nod.Base.{
  ℕ, String, Bool, Option, none, List, [], ◌∷◌, ◌++◌, map, find, ok, err, Error, Action, ◌≡◌, ◌⊎◌,
  ◌=ₛ◌, if◌then◌else◌,
}

pub data PaymentStatus : Type 0 where
  pending approved rejected : PaymentStatus

-- The columns that a new row is given; the others have defaults.
pub record NewPayment : Type 0 where
  pub order_id : String
  pub user_id : String
  pub amount : ℕ
  pub payment_method : String
  pub status : PaymentStatus

pub record Payment : Type 0 where
  pub id : String
  pub order_id : String
  pub user_id : String
  pub amount : ℕ
  pub status : PaymentStatus
  pub payment_method : String
  pub transaction_id : Option String
  pub rejection_reason : Option String
  pub processed_at : Option ℕ
  pub created_at : ℕ
  pub updated_at : ℕ

abbrev pub has_order : String → Payment → Bool
has_order order_id row = row.order_id =ₛ order_id

-- The row of a new payment.
abbrev pub row_of : NewPayment → String → ℕ → Payment
row_of new id now = record {
  id = id;
  order_id = new.order_id;
  user_id = new.user_id;
  amount = new.amount;
  status = new.status;
  payment_method = new.payment_method;
  transaction_id = none;
  rejection_reason = none;
  processed_at = none;
  created_at = now;
  updated_at = now;
}

-- The table after an update of the row with an id.
abbrev pub replace : Payment → List Payment → List Payment
replace row = map (λ old. if old.id =ₛ row.id then row else old)

-- `Repository<Payment>` over a database `D`: `rows` is the table.
pub record PaymentsRepository (D : Type 0) : Type 0 where
  pub rows : D → List Payment
  pub find_one_by : String → Action D (Option Payment)
  pub insert_one : NewPayment → Action D Payment
  pub update_one : Payment → Action D Payment

-- What TypeORM and the unique `orderId` column promise. A call that fails changes nothing.
pub record IsRepository {D : Type 0} (r : PaymentsRepository D) : Type 0 where
  pub finds :
      (order_id : String) (d : D)
      → (r.find_one_by order_id d ≡ (ok (find (has_order order_id) (r.rows d)), d))
        ⊎ ((e : Error) × (r.find_one_by order_id d ≡ (err e, d)))
  pub inserts :
      (new : NewPayment) (d : D)
      → ((id : String) × (now : ℕ) × (d' : D) × (r.insert_one new d ≡ (ok (row_of new id now), d'))
          × (find (has_order new.order_id) (r.rows d) ≡ none)
          × (r.rows d' ≡ r.rows d ++ row_of new id now ∷ []))
        ⊎ ((e : Error) × (r.insert_one new d ≡ (err e, d)))
  pub updates :
      (row : Payment) (d : D)
      → ((now : ℕ) × (d' : D) × (r.update_one row d ≡ (ok (record row { updated_at = now }), d'))
          × (r.rows d' ≡ replace (record row { updated_at = now }) (r.rows d)))
        ⊎ ((e : Error) × (r.update_one row d ≡ (err e, d)))
