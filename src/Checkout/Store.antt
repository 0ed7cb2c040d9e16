-- ===== src/Checkout/Store.antt =====
-- The database of the checkout service, as TypeORM's `EntityManager` and `DataSource` show it: a
-- parameter with what they and PostgreSQL promise. A `where` is a test of rows; the database gives a
-- new row its id and its time, so a row that is inserted is a function of these.
pub mod Settling
use study_microsservices_nod.Base.{
  ℕ, String, Bool, Option, none, some, List, [], ◌∷◌, ◌++◌, map, filter, find, length, ◌≡◌, ◌⊎◌,
  ◌=ₛ◌, not, if◌then◌else◌, false, All, Action, ok, err, Error, query_failed, Result,
}
use study_microsservices_nod.Payments.Money.{Number}
use study_microsservices_nod.Checkout.Orders.{Cart, CartItem, CartStatus, Order}

-- A row of `carts`; the items of a cart are rows of their own.
pub record CartRow : Type 0 where
  pub id : String
  pub user_id : String
  pub status : CartStatus
  pub total : Number
  pub created_at : ℕ
  pub updated_at : ℕ

pub record Tables : Type 0 where
  pub carts : List CartRow
  pub items : List CartItem
  pub orders : List Order

abbrev pub has_cart : String → CartItem → Bool
has_cart cart_id item = item.cart_id =ₛ cart_id

abbrev pub items_of : String → Tables → List CartItem
items_of cart_id t = filter (has_cart cart_id) t.items

-- A cart is loaded with its items (`eager: true`).
abbrev pub loaded : Tables → CartRow → Cart
loaded t row = record {
  id = row.id;
  user_id = row.user_id;
  status = row.status;
  total = row.total;
  items = items_of row.id t;
  created_at = row.created_at;
  updated_at = row.updated_at;
}

abbrev pub load : Tables → Option CartRow → Option Cart
load t none = none
load t (some row) = some (loaded t row)

-- The table after an update of the rows that pass a test.
abbrev pub update_where {ℓ} : {R : Type ℓ} → (R → Bool) → (R → R) → List R → List R
update_where test f = map (λ row. if test row then f row else row)

pub record Manager (D : Type 0) : Type 1 where
  pub view : D → Tables
  pub find_cart : (CartRow → Bool) → Action D (Option Cart)
  pub find_item : (CartItem → Bool) → Action D (Option CartItem)
  pub find_items : (CartItem → Bool) → Action D (List CartItem)
  pub find_order : (Order → Bool) → Action D (Option Order)
  -- The rows that pass a test, the latest first (`createdAt: 'DESC'`).
  pub find_orders : (Order → Bool) → Action D (List Order)
  pub insert_cart : (String → ℕ → CartRow) → Action D CartRow
  pub insert_item : (String → ℕ → CartItem) → Action D CartItem
  pub insert_order : (String → ℕ → Order) → Action D Order
  pub save_item : CartItem → Action D CartItem
  pub remove_item : CartItem → Action D (Unit {0})
  pub update_carts : (CartRow → Bool) → (CartRow → CartRow) → Action D ℕ
  pub transaction : {A : Type 0} → Action D A → Action D A

module _ {D A : Type 0} (view : D → Tables) where
  -- A call that succeeded: its answer, and the tables after it.
  abbrev pub Did : Result A × D → A → Tables → Type 0
  Did x a t = (x.0 ≡ ok a) × (view x.1 ≡ t)

  -- A call that the database refused: it has changed nothing.
  abbrev pub Refused : Result A × D → Tables → Type 0
  Refused x t = ((code : String) × (x.0 ≡ err (query_failed code))) × (view x.1 ≡ t)

  abbrev pub Answers : Result A × D → A → Tables → Tables → Type 0
  Answers x a before after = (Did x a after) ⊎ (Refused x before)

pub record IsManager {D : Type 0} (m : Manager D) : Type 1 where
  pub finds_cart :
      (test : CartRow → Bool) (d : D)
      → Answers m.view
          (m.find_cart test d)
          (load (m.view d) (find test (m.view d).carts))
          (m.view d)
          (m.view d)
  pub finds_item :
      (test : CartItem → Bool) (d : D)
      → Answers m.view (m.find_item test d) (find test (m.view d).items) (m.view d) (m.view d)
  pub finds_items :
      (test : CartItem → Bool) (d : D)
      → Answers m.view (m.find_items test d) (filter test (m.view d).items) (m.view d) (m.view d)
  pub finds_order :
      (test : Order → Bool) (d : D)
      → Answers m.view (m.find_order test d) (find test (m.view d).orders) (m.view d) (m.view d)
  -- The id is new: no cart has it, and no item and no order refers to it.
  pub inserts_cart :
      (row : String → ℕ → CartRow) (d : D)
      → ((id : String) × (now : ℕ) × All (λ old. (old.id =ₛ id) ≡ false) (m.view d).carts
          × All (λ item. has_cart id item ≡ false) (m.view d).items
          × All (λ order. (order.cart_id =ₛ id) ≡ false) (m.view d).orders
          × Did m.view
              (m.insert_cart row d)
              (row id now)
              (record (m.view d) { carts = (m.view d).carts ++ row id now ∷ [] }))
        ⊎ Refused m.view (m.insert_cart row d) (m.view d)
  pub inserts_item :
      (row : String → ℕ → CartItem) (d : D)
      → (id : String) × (now : ℕ) × Answers m.view
          (m.insert_item row d)
          (row id now)
          (m.view d)
          (record (m.view d) { items = (m.view d).items ++ row id now ∷ [] })
  pub inserts_order :
      (row : String → ℕ → Order) (d : D)
      → (id : String) × (now : ℕ) × Answers m.view
          (m.insert_order row d)
          (row id now)
          (m.view d)
          (record (m.view d) { orders = (m.view d).orders ++ row id now ∷ [] })
  pub saves_item :
      (item : CartItem) (d : D)
      → Answers m.view (m.save_item item d) item (m.view d) (record (m.view d) {
        items = update_where (λ old. old.id =ₛ item.id) (λ old. item) (m.view d).items;
      })
  pub removes_item :
      (item : CartItem) (d : D)
      → Answers m.view
          (m.remove_item item d)
          tt
          (m.view d)
          (record (m.view d) { items = filter (λ old. not (old.id =ₛ item.id)) (m.view d).items })
  pub updates_carts :
      (test : CartRow → Bool) (f : CartRow → CartRow) (d : D)
      → (now : ℕ) × Answers m.view
          (m.update_carts test f d)
          (length (filter test (m.view d).carts))
          (m.view d)
          (record (m.view d) {
            carts = update_where test (λ row. record (f row) { updated_at = now }) (m.view d).carts;
          })
  -- The ids are primary keys: one row has the id of a row that was found.
  pub item_key :
      (test : CartItem → Bool) (item : CartItem) (d : D)
      → find test (m.view d).items ≡ some item
      → (before : List CartItem) × (after : List CartItem) × ((m.view d).items
          ≡ before ++ item ∷ after)
        × All (λ old. (old.id =ₛ item.id) ≡ false) before
        × All (λ old. (old.id =ₛ item.id) ≡ false) after
  pub cart_key :
      (test : CartRow → Bool) (row : CartRow) (d : D)
      → find test (m.view d).carts ≡ some row
      → (before : List CartRow) × (after : List CartRow) × ((m.view d).carts
          ≡ before ++ row ∷ after)
        × All (λ old. (old.id =ₛ row.id) ≡ false) before
        × All (λ old. (old.id =ₛ row.id) ≡ false) after
  -- All of a transaction's changes are kept, or none: it commits if its body succeeds, unless the
  -- database refuses that, and rolls back if its body throws.
  pub commits :
      {A : Type 0} (body : Action D A) (a : A) (d : D)
      → (body d).0 ≡ ok a
      → Answers m.view (m.transaction body d) a (m.view d) (m.view (body d).1)
  pub rolls_back :
      {A : Type 0} (body : Action D A) (e : Error) (d : D)
      → (body d).0 ≡ err e
      → ((m.transaction body d).0 ≡ err e) × (m.view (m.transaction body d).1 ≡ m.view d)
