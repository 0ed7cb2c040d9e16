-- ===== src/Checkout/Cart/Totals.antt =====
-- What the recalculation of a cart's total does to the tables.
use study_microsservices_nod.Base.{
  ℕ, ◌≡◌, refl, ◌⊎◌, inl, inr, String, true, ◌=ₛ◌, some, List, [], ◌∷◌, find, find_holds, All,
  arith, eq_iff, Bool-cases, Option-cases,
}
use study_microsservices_nod.Payments.Money.{Number}
use study_microsservices_nod.Checkout.Orders.{recalculated_total}
use study_microsservices_nod.Checkout.Store.{CartRow, Tables, items_of, loaded, update_where}
use study_microsservices_nod.Checkout.Responses.{CartResponse, to_cart_response}
use study_microsservices_nod.Checkout.Cart.{is_active_of}
use study_microsservices_nod.Checkout.Cart.Tables.{
  HasOneOrder, IsOrderedOnce, bag, HasTotal, IsTotalled, IsTotalledBut, IsKnown, find-update_none,
  find-update_some,
}

abbrev pub set_total : Number → ℕ → CartRow → CartRow
set_total total now row = record row { total = total; updated_at = now }

-- The total of `cart_id` was recalculated, and the cart answered.
pub record Recalculated (cart_id : String) (before : Tables) (answer : CartResponse)
    (after : Tables) : Type 0 where
  pub items_same : after.items ≡ before.items
  pub orders_same : after.orders ≡ before.orders
  pub row : CartRow
  pub row_id : row.id ≡ cart_id
  pub answered : answer ≡ to_cart_response (loaded after row)
  pub bags_same : (user_id q : String) → bag user_id after q ≡ bag user_id before q
  pub totals : IsTotalledBut cart_id before → IsTotalled after
  pub keeps_one_order : IsOrderedOnce before → IsOrderedOnce after

-- The tables after the update of the total.
abbrev pub retotalled : String → Tables → ℕ → Tables
retotalled cart_id t now = record t {
  carts =
      update_where (λ row. row.id =ₛ cart_id)
        (set_total (recalculated_total (items_of cart_id t)) now) t.carts;
}

retotalled-IsTotalled :
    (cart_id : String) (t : Tables) (now : ℕ) (rows : List CartRow)
    → All (λ row. (row.id ≡ cart_id) ⊎ HasTotal t row) rows
    → All (HasTotal t) (
        update_where
          (λ row. row.id =ₛ cart_id)
          (set_total (recalculated_total (items_of cart_id t)) now)
          rows)
retotalled-IsTotalled cart_id t now [] h = tt
retotalled-IsTotalled cart_id t now (row ∷ rows) (total, h) = (
  elim (Bool-cases (row.id =ₛ cart_id)) [
    | inl same ↦
        let e : row.id ≡ cart_id = ground (arith, eq_iff row.id cart_id) in rw (same, e) refl
    | inr differs ↦ elim total [
      | inl e ↦ absurd (ground (arith, eq_iff row.id cart_id))
      | inr k ↦ rw differs k
    ]
  ],
  retotalled-IsTotalled cart_id t now rows h,
)

retotalled-HasOneOrder :
    (cart_id : String) (t : Tables) (now : ℕ) (rows : List CartRow)
    → All (HasOneOrder t.orders) rows
    → All (HasOneOrder t.orders) (
        update_where
          (λ row. row.id =ₛ cart_id)
          (set_total (recalculated_total (items_of cart_id t)) now)
          rows)
retotalled-HasOneOrder cart_id t now [] h = tt
retotalled-HasOneOrder cart_id t now (row ∷ rows) (one, h) = (
  elim (Bool-cases (row.id =ₛ cart_id)) [ inl same ↦ rw same one | inr differs ↦ rw differs one ],
  retotalled-HasOneOrder cart_id t now rows h,
)

retotalled-bag :
    (cart_id user_id q : String) (t : Tables) (now : ℕ)
    → bag user_id (retotalled cart_id t now) q ≡ bag user_id t q
retotalled-bag cart_id user_id q t now = elim (Option-cases (find (is_active_of user_id) t.carts)) [
  | inl missing ↦
      rw
        (
          missing,
          find-update_none (is_active_of user_id) (λ row. row.id =ₛ cart_id)
              (set_total (recalculated_total (items_of cart_id t)) now) t.carts (λ row. refl)
              missing,
        )
        refl
  | inr (row, hit) ↦
      rw
        (
          hit,
          find-update_some (is_active_of user_id) (λ row. row.id =ₛ cart_id)
              (set_total (recalculated_total (items_of cart_id t)) now) t.carts row (λ row. refl)
              hit,
        )
        (ground arith)
]

pub retotalled-Recalculated :
    (cart_id : String) (t : Tables) (now : ℕ)
    → IsKnown cart_id t
    → (row : CartRow) × (find (λ r. r.id =ₛ cart_id) (retotalled cart_id t now).carts ≡ some row)
      × Recalculated cart_id t
          (to_cart_response (loaded (retotalled cart_id t now) row))
          (retotalled cart_id t now)
retotalled-Recalculated cart_id t now (row, hit) =
    let matches : (row.id =ₛ cart_id) ≡ true = find_holds (λ r. r.id =ₛ cart_id) t.carts row hit in
    let new : CartRow = record row {
      total = recalculated_total (items_of cart_id t);
      updated_at = now;
    } in
    let found : find (λ r. r.id =ₛ cart_id) (retotalled cart_id t now).carts ≡ some new =
      rw
        (
          find-update_some (λ r. r.id =ₛ cart_id) (λ r. r.id =ₛ cart_id)
              (set_total (recalculated_total (items_of cart_id t)) now) t.carts row (λ r. refl) hit,
          matches,
        )
        refl in
    (
      new,
      found,
      record {
        items_same = refl;
        orders_same = refl;
        row = new;
        row_id = (eq_iff row.id cart_id).0 matches;
        answered = refl;
        bags_same = λ user_id q. retotalled-bag cart_id user_id q t now;
        totals = λ h. retotalled-IsTotalled cart_id t now t.carts h;
        keeps_one_order = λ h. retotalled-HasOneOrder cart_id t now t.carts h;
      },
    )
