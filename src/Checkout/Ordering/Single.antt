-- ===== src/Checkout/Ordering/Single.antt =====
-- One order for a cart: what the conditional update and the new order do to the tables.
use text.Mathlib.TextPositions.{eq_refl}
use study_microsservices_nod.Base.{
  All-append, ℕ, suc, ◌+◌, ◌≡◌, refl, ap, String, true, false, ◌=ₛ◌, if◌then◌else◌, some, List, [],
  ◌∷◌, ◌++◌, filter, find, length, All, arith, eq_iff,
}
use study_microsservices_nod.Checkout.Orders.{completed, Order}
use study_microsservices_nod.Checkout.Store.{CartRow, Tables, update_where}
use study_microsservices_nod.Checkout.Cart.{is_active_status}
use study_microsservices_nod.Checkout.Cart.Tables.{orders_of, HasOneOrder, HasTotal, All-map}
use study_microsservices_nod.Checkout.Ordering.{is_still_active}

-- The row as the update of `createOrderFromActiveCart` leaves it.
abbrev pub completed_at : ℕ → CartRow → CartRow
completed_at now row = record row { status = completed; updated_at = now }

update_missed :
    (id : String) (now : ℕ) (rows : List CartRow)
    → All (λ old. (old.id =ₛ id) ≡ false) rows
    → update_where (is_still_active id) (completed_at now) rows ≡ rows
update_missed id now [] h = refl
update_missed id now (row ∷ rows) (miss, h) = rw (miss, update_missed id now rows h) refl

-- The update completes the cart and no other.
pub update-split :
    (before after : List CartRow) (row : CartRow) (now : ℕ)
    → is_active_status row.status ≡ true
    → All (λ old. (old.id =ₛ row.id) ≡ false) before
    → All (λ old. (old.id =ₛ row.id) ≡ false) after
    → update_where (is_still_active row.id) (completed_at now) (before ++ row ∷ after)
      ≡ before ++ completed_at now row ∷ after
update-split [] after row now is_active h k =
    rw (eq_refl row.id, is_active, update_missed row.id now after k) refl
update-split (r ∷ before) after row now is_active (miss, h) k =
    rw (miss, update-split before after row now is_active h k) refl

count_missed :
    (id : String) (rows : List CartRow)
    → All (λ old. (old.id =ₛ id) ≡ false) rows
    → length (filter (is_still_active id) rows) ≡ 0
count_missed id [] h = refl
count_missed id (row ∷ rows) (miss, h) = rw miss (count_missed id rows h)

-- The update affects one row.
pub affected-split :
    (before after : List CartRow) (row : CartRow)
    → is_active_status row.status ≡ true
    → All (λ old. (old.id =ₛ row.id) ≡ false) before
    → All (λ old. (old.id =ₛ row.id) ≡ false) after
    → length (filter (is_still_active row.id) (before ++ row ∷ after)) ≡ 1
affected-split [] after row is_active h k =
    rw (eq_refl row.id, is_active) (ap suc (count_missed row.id after k))
affected-split (r ∷ before) after row is_active (miss, h) k =
    rw miss (affected-split before after row is_active h k)

pub orders_of-add :
    (orders : List Order) (order : Order) (id : String)
    → length (orders_of id (orders ++ order ∷ []))
      ≡ length (orders_of id orders) + (if order.cart_id =ₛ id then 1 else 0)
orders_of-add [] order id = ground arith
orders_of-add (o ∷ orders) order id = ground (arith, orders_of-add orders order id)

others_kept :
    (orders : List Order) (order : Order) (rows : List CartRow)
    → All (λ old. (old.id =ₛ order.cart_id) ≡ false) rows
    → All (HasOneOrder orders) rows
    → All (HasOneOrder (orders ++ order ∷ [])) rows
others_kept orders order [] miss h = tt
others_kept orders order (row ∷ rows) (differs, miss) (one, h) = (
  (let differs' : (order.cart_id =ₛ row.id) ≡ false =
        ground (arith, eq_iff order.cart_id row.id, eq_iff row.id order.cart_id) in
      ground (arith, orders_of-add orders order row.id)),
  others_kept orders order rows miss h,
)

All-prefix {ℓ κ} : {A : Type ℓ} (P : A → Type κ) (xs ys : List A) → All P (xs ++ ys) → All P xs
All-prefix P [] ys h = tt
All-prefix P (x ∷ xs) ys (p, h) = (p, All-prefix P xs ys h)

All-suffix {ℓ κ} : {A : Type ℓ} (P : A → Type κ) (xs ys : List A) → All P (xs ++ ys) → All P ys
All-suffix P [] ys h = h
All-suffix P (x ∷ xs) ys (p, h) = All-suffix P xs ys h

-- A cart that is completed as its order is placed.
pub placed-IsOrderedOnce :
    (before after : List CartRow) (row : CartRow) (now : ℕ) (orders : List Order) (order : Order)
    → is_active_status row.status ≡ true
    → order.cart_id ≡ row.id
    → All (λ old. (old.id =ₛ row.id) ≡ false) before
    → All (λ old. (old.id =ₛ row.id) ≡ false) after
    → All (HasOneOrder orders) (before ++ row ∷ after)
    → All (HasOneOrder (orders ++ order ∷ [])) (before ++ completed_at now row ∷ after)
placed-IsOrderedOnce before after row now orders order is_active e h k all =
    let (here, rest) = All-suffix (HasOneOrder orders) before (row ∷ after) all in
    All-append (HasOneOrder (orders ++ order ∷ [])) before (completed_at now row ∷ after)
      (others_kept orders order before (rw e h)
        (All-prefix (HasOneOrder orders) before (row ∷ after) all))
      (
        ground (arith, orders_of-add orders order row.id),
        others_kept orders order after (rw e k) rest,
      )

pub placed-IsTotalled :
    (t t' : Tables) (before after : List CartRow) (row : CartRow) (now : ℕ)
    → t'.items ≡ t.items
    → All (HasTotal t) (before ++ row ∷ after)
    → All (HasTotal t') (before ++ completed_at now row ∷ after)
placed-IsTotalled t t' [] after row now e (total, h) =
    (rw e total, All-map (HasTotal t) (HasTotal t') after (λ r p. rw e p) h)
placed-IsTotalled t t' (r ∷ before) after row now e (total, h) =
    (rw e total, placed-IsTotalled t t' before after row now e h)

-- The cart as it is found by its id.
pub find-split :
    (before after : List CartRow) (row : CartRow) (now : ℕ)
    → All (λ old. (old.id =ₛ row.id) ≡ false) before
    → find (λ r. r.id =ₛ row.id) (before ++ completed_at now row ∷ after)
      ≡ some (completed_at now row)
find-split [] after row now h = rw (eq_refl row.id) refl
find-split (r ∷ before) after row now (miss, h) = rw miss (find-split before after row now h)
