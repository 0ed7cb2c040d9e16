-- ===== src/Payments/Service/Redelivery.antt =====
-- The queue may deliver an order more than once: what the second delivery does.
use text.Mathlib.TextPositions.{eq_refl}
use study_microsservices_nod.Base.{
  ℕ, ◌+◌, ◌+ₛ◌, zero, suc, ◌≤◌, ◌≡◌, refl, ap, ◌∙◌, ◌⊎◌, inl, inr, Option, none, some, List, [],
  ◌∷◌, ◌++◌, find, find-append_none, ok, err, Error, Result, Option-cases, eq_iff, arith,
}
use study_microsservices_nod.Payments.Entity.{
  Payment, NewPayment, pending, PaymentsRepository, IsRepository, has_order, row_of, replace,
}
use study_microsservices_nod.Payments.Charge.{
  Process, charge_result, rejection_reason_for, random_latency,
}
use study_microsservices_nod.Payments.Service.{
  PaymentOrder, finish, settle_payment, process_new, process_payment,
}

-- An updated row is found under its order, if no other row has that order.
find-replace :
    (rows : List Payment) (row updated : Payment)
    → row.id ≡ updated.id
    → find (has_order updated.order_id) rows ≡ none
    → find (has_order updated.order_id) (replace updated (rows ++ row ∷ [])) ≡ some updated
find-replace [] row updated same new =
    ground (arith, eq_iff row.id updated.id, eq_refl updated.order_id)
find-replace (x ∷ rows) row updated same new =
    ground
      (arith, find-replace rows row updated same, eq_iff x.id updated.id, eq_refl updated.order_id)

module _ {D : Type 0} (repository : PaymentsRepository D) (laws : IsRepository repository)
    (message : PaymentOrder) where
  open repository use {rows}

  -- The payment of the order in the table.
  abbrev pub stored : Process D → Option Payment
  stored p = find (has_order message.order_id) (rows p.db)

  known_order :
      (p : Process D) (row : Payment)
      → stored p ≡ some row
      → (process_payment repository message p ≡ (ok row, p))
        ⊎ ((e : Error) × (process_payment repository message p ≡ (err e, p)))
  unfolding process_payment
  known_order p row known = elim (laws.finds message.order_id p.db) [
    | inl h ↦ inl (rw (h, known))
    | inr (e, h) ↦ inr (e, rw h)
  ]

  abbrev new : NewPayment
  new = record {
    order_id = message.order_id;
    user_id = message.user_id;
    amount = message.amount;
    payment_method = message.payment_method;
    status = pending;
  }

  -- What a first delivery has done that went as far as the charge: one transaction was issued, and
  -- the order has its payment, finished or, if the last write failed, still pending.
  abbrev pub Charged : Process D → Result Payment × Process D → Type 0
  Charged p x =
      (row : Payment) × (stored x.1 ≡ some row)
      × (x.1.issued ≡ suc p.issued)
      × ((x.0 ≡ ok row) ⊎ ((e : Error) × (x.0 ≡ err e) × (row.status ≡ pending)))

  -- The payment as the charge leaves it, at a time.
  abbrev finished : Process D → Payment → Payment
  finished p row =
      finish row (charge_result ("txn_" +ₛ p.uuids p.issued) (rejection_reason_for message.amount))
        (p.clock + random_latency (p.draws p.drawn))

  settle_payment-Charged :
      (p : Process D) (before : List Payment) (row : Payment)
      → rows p.db ≡ before ++ row ∷ []
      → row.order_id ≡ message.order_id
      → row.status ≡ pending
      → find (has_order message.order_id) before ≡ none
      → Charged p (settle_payment repository message row p)
  unfolding settle_payment
  settle_payment-Charged p before row added same waiting new_order =
      elim (laws.updates (finished p row) p.db) [
        | inl (now, d, h, written) ↦
            let done = record (finished p row) { updated_at = now } in
            (
              done,
              rw (h, written, added, ← same)
                  (find-replace before row done refl (rw (← same) at new_order)),
              refl,
              inl (rw h),
            )
        | inr (e, h) ↦ (
          row,
          rw (h, added)
              (find-append_none _ before (row ∷ []) new_order
                ∙ ground (arith, eq_iff row.order_id message.order_id)),
          refl,
          inr (e, rw h, waiting),
        )
      ]

  process_new-Charged :
      (p : Process D)
      → stored p ≡ none
      → ((e : Error) × (process_new repository message p ≡ (err e, p)))
        ⊎ Charged p (process_new repository message p)
  unfolding process_new
  process_new-Charged p unknown = elim (laws.inserts new p.db) [
    | inr (e, h) ↦ inl (e, rw h)
    | inl (id, now, d, h, fresh, added) ↦ inr (
        rw h (
          settle_payment-Charged (record p { db = d }) (rows p.db) (row_of new id now) added refl
            refl fresh))
  ]

  -- A delivery of an order that has no payment yet: nothing has changed, or one charge was made.
  pub unknown_order :
      (p : Process D)
      → stored p ≡ none
      → ((e : Error) × (process_payment repository message p ≡ (err e, p)))
        ⊎ Charged p (process_payment repository message p)
  unfolding process_payment
  unknown_order p unknown = elim (laws.finds message.order_id p.db) [
    | inl h ↦ rw (h, unknown) (process_new-Charged p unknown)
    | inr (e, h) ↦ inl (e, rw h)
  ]

  pub processed_stored :
      (p q : Process D) (row : Payment)
      → process_payment repository message p ≡ (ok row, q)
      → stored q ≡ some row
  processed_stored p q row done = elim (Option-cases (stored p)) [
    | inr (old, known) ↦ elim (known_order p old known) [
      | inl h ↦
          let same_row : old ≡ row = cc in let same : p ≡ q = cc in rw (← same, known, same_row)
      | inr (e, h) ↦ cc
    ]
    | inl unknown ↦ elim (unknown_order p unknown) [
      | inl (e, h) ↦ cc
      | inr (new_row, known, _, inl h) ↦
          let same_row : new_row ≡ row = cc (ap (λ x. x.0) done) in
          rw (← same_row) (rw (ap (λ x. x.1) done) at known)
      | inr (new_row, known, _, inr (e, h, _)) ↦ cc
    ]
  ]

  -- A message that was processed is delivered again: the same payment is the answer, or the database
  -- fails, and in both cases nothing is charged or written.
  redelivery_same :
      (p q : Process D) (row : Payment)
      → process_payment repository message p ≡ (ok row, q)
      → (process_payment repository message q ≡ (ok row, q))
        ⊎ ((e : Error) × (process_payment repository message q ≡ (err e, q)))
  redelivery_same p q row done = known_order q row (processed_stored p q row done)

  -- A message that is delivered any number of times, whatever fails meanwhile.
  pub deliveries : ℕ → Process D → Process D
  deliveries zero p = p
  deliveries (suc n) p = (process_payment repository message (deliveries n p)).1

  -- For an order that has a payment, also one that is pending, further deliveries change nothing.
  pub known_order_stays :
      (n : ℕ) (p : Process D) (row : Payment) → stored p ≡ some row → deliveries n p ≡ p
  unfolding deliveries
  known_order_stays zero p row known = refl
  known_order_stays (suc n) p row known =
      rw (deliveries, known_order_stays n p row known)
        (elim (known_order p row known) [ inl h ↦ rw h | inr (e, h) ↦ rw h ])

  Once : ℕ → Process D → Type 0
  Once before q =
      ((stored q ≡ none) × (q.issued ≡ before))
      ⊎ ((row : Payment) × (stored q ≡ some row) × (q.issued ≤ suc before))

  deliver-Once :
      (before : ℕ) (q : Process D)
      → Once before q
      → Once before (process_payment repository message q).1
  unfolding Once
  deliver-Once before q (inl (unknown, none_yet)) = elim (unknown_order q unknown) [
    | inl (e, h) ↦ rw h (inl (unknown, none_yet))
    | inr (row, known, one, _) ↦ inr (row, known, omega arith)
  ]
  deliver-Once before q (inr (row, known, one)) = elim (known_order q row known) [
    | inl h ↦ rw h (inr (row, known, one))
    | inr (e, h) ↦ rw h (inr (row, known, one))
  ]

  deliveries-Once : (n : ℕ) (p : Process D) → Once p.issued p → Once p.issued (deliveries n p)
  unfolding deliveries
  deliveries-Once zero p h = h
  deliveries-Once (suc n) p h = deliver-Once p.issued (deliveries n p) (deliveries-Once n p h)

  -- However often an order is delivered, and whichever of the database's calls fail, at most one
  -- transaction is issued for it.
  pub charged_once : (n : ℕ) (p : Process D) → (deliveries n p).issued ≤ suc p.issued
  unfolding Once
  charged_once n p = elim (deliveries-Once n p (start (stored p) refl)) [
    | inl (_, same) ↦ omega arith
    | inr (_, _, one) ↦ one
  ]
    where
      start : (o : Option Payment) → stored p ≡ o → Once p.issued p
      start none e = inl (e, refl)
      start (some row) e = inr (row, e, omega arith)
