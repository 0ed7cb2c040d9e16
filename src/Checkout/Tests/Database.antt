-- ===== src/Checkout/Tests/Database.antt =====
-- A database of lists, whose ids are distinct: the tables of the checkout service in a run.
use study_microsservices_nod.Base.{
  ℕ, ◌≡◌, refl, sym, ◌⊎◌, inl, inr, String, Bool, true, false, not, ◌=ₛ◌, ◌&&◌, if◌then◌else◌, some,
  List, [], ◌∷◌, ◌++◌, filter, find, length, All, arith, eq_iff, Bool-cases, any, query_failed,
  Result, ok, err, recover,
}
use study_microsservices_nod.Checkout.Orders.{Order}
use study_microsservices_nod.Checkout.Store.{
  CartRow, Tables, Manager, IsManager, has_cart, load, update_where, Did, Refused, Answers,
}

module _ {R : Type 0} (test : R → Bool) where
  pub any_not : (rows : List R) → any test rows ≡ false → All (λ row. test row ≡ false) rows
  any_not [] h = tt
  any_not (row ∷ rows) h = (ground arith, any_not rows (ground arith))

module _ {R : Type 0} (key : R → String) where
  abbrev pub distinct : List R → Bool
  distinct [] = true
  distinct (row ∷ rows) = not (any (λ old. key old =ₛ key row) rows) && distinct rows

  middle :
      (P : R → Type 0) (before after : List R) (row : R) → All P (before ++ row ∷ after) → P row
  middle P [] after row (p, h) = p
  middle P (r ∷ before) after row (p, h) = middle P before after row h

  abbrev Split : R → List R → Type 0
  Split row rows =
      (before : List R) × (after : List R) × (rows ≡ before ++ row ∷ after)
      × All (λ old. (key old =ₛ key row) ≡ false) before
      × All (λ old. (key old =ₛ key row) ≡ false) after

  pub distinct-Split :
      (test : R → Bool) (row : R) (rows : List R)
      → distinct rows ≡ true
      → find test rows ≡ some row
      → Split row rows
  distinct-Split test row [] unique h = cc
  distinct-Split test row (r ∷ rows) unique h =
      let others = any_not (λ old. key old =ₛ key r) rows (ground arith) in
      elim (Bool-cases (test r)) [
        | inl hit ↦
            let first : r ≡ row = ground arith in
            ([], rows, rw first refl, tt, rw (sym first) others)
        | inr miss ↦
            let (before, after, split, h₁, h₂) =
              distinct-Split test row rows (ground arith) (ground arith) in
            let differs =
              middle (λ old. (key old =ₛ key r) ≡ false) before after row (rw split at others) in
            (
              r ∷ before,
              after,
              rw split refl,
              (ground (arith, eq_iff (key r) (key row), eq_iff (key row) (key r)), h₁),
              h₂,
            )
      ]

abbrev pub is_keyed : Tables → Bool
is_keyed t = distinct (λ row. row.id) t.carts && distinct (λ item. item.id) t.items

-- The ids that are still to be given out.
pub record Database : Type 0 where
  pub tables : Tables
  pub ids : List String
  pub keyed : is_keyed tables ≡ true

abbrev view : Database → Tables
view d = d.tables

abbrev decide : (b : Bool) → (b ≡ true) ⊎ (b ≡ false)
decide true = inl refl
decide false = inr refl

-- A write, unless an id is taken.
module _ {A : Type 0} (a : A) (t : Tables) (ids : List String) (d : Database) where
  abbrev write_if : (is_keyed t ≡ true) ⊎ (is_keyed t ≡ false) → Result A × Database
  write_if (inl keyed) = (ok a, record { tables = t; ids = ids; keyed = keyed })
  write_if (inr taken) = (err (query_failed "23505"), d)

  abbrev write : Result A × Database
  write = write_if (decide (is_keyed t))

  write-Answers :
      (x : (is_keyed t ≡ true) ⊎ (is_keyed t ≡ false)) → Answers view (write_if x) a d.tables t
  write-Answers (inl keyed) = inl (refl, refl)
  write-Answers (inr taken) = inr (("23505", refl), refl)

-- No cart has the id, and no item and no order refers to it.
abbrev is_fresh : String → Tables → Bool
is_fresh id t =
    not (any (λ row. row.id =ₛ id) t.carts)
    && not (any (has_cart id) t.items)
    && not (any (λ order. order.cart_id =ₛ id) t.orders)

abbrev with_cart : CartRow → Tables → Tables
with_cart row t = record t { carts = t.carts ++ row ∷ [] }

abbrev insert_cart_as : (String → ℕ → CartRow) → Database → List String → Result CartRow × Database
insert_cart_as row d [] = (err (query_failed "53100"), d)
insert_cart_as row d (id ∷ ids) =
    if is_fresh id d.tables
    then write (row id 5) (with_cart (row id 5) d.tables) ids d
    else (err (query_failed "23505"), d)

abbrev first_id : List String → String
first_id [] = "none"
first_id (id ∷ ids) = id

abbrev other_ids : List String → List String
other_ids [] = []
other_ids (id ∷ ids) = ids

-- An order is added at the end.
abbrev latest_first : List Order → List Order
latest_first [] = []
latest_first (order ∷ orders) = latest_first orders ++ order ∷ []

abbrev pub database : Manager Database
database = record {
  view = view;
  find_cart = λ test d. (ok (load d.tables (find test d.tables.carts)), d);
  find_item = λ test d. (ok (find test d.tables.items), d);
  find_items = λ test d. (ok (filter test d.tables.items), d);
  find_order = λ test d. (ok (find test d.tables.orders), d);
  find_orders = λ test d. (ok (latest_first (filter test d.tables.orders)), d);
  insert_cart = λ row d. insert_cart_as row d d.ids;
  insert_item = λ row d.
      let item = row (first_id d.ids) 5 in
      write item (record (d.tables) { items = d.tables.items ++ item ∷ [] }) (other_ids d.ids) d;
  insert_order = λ row d.
      let order = row (first_id d.ids) 5 in
      write order (record (d.tables) { orders = d.tables.orders ++ order ∷ [] }) (other_ids d.ids)
        d;
  save_item = λ item d.
      write item
        (record (d.tables) {
          items = update_where (λ old. old.id =ₛ item.id) (λ old. item) d.tables.items;
        })
        d.ids d;
  remove_item = λ item d.
      write tt
        (record (d.tables) { items = filter (λ old. not (old.id =ₛ item.id)) d.tables.items }) d.ids
        d;
  update_carts = λ test f d.
      write (length (filter test d.tables.carts))
        (record (d.tables) {
          carts = update_where test (λ row. record (f row) { updated_at = 6 }) d.tables.carts;
        })
        d.ids d;
  transaction = λ body d. recover (λ e after. (err e, d)) (body d);
}

inserts :
    (row : String → ℕ → CartRow) (d : Database) (ids : List String)
    → ((id : String) × (now : ℕ) × All (λ old. (old.id =ₛ id) ≡ false) d.tables.carts
        × All (λ item. has_cart id item ≡ false) d.tables.items
        × All (λ order. (order.cart_id =ₛ id) ≡ false) d.tables.orders
        × Did view (insert_cart_as row d ids) (row id now) (with_cart (row id now) d.tables))
      ⊎ Refused view (insert_cart_as row d ids) d.tables
inserts row d [] = inr (("53100", refl), refl)
inserts row d (id ∷ ids) = elim (Bool-cases (is_fresh id d.tables)) [
  | inr taken ↦ rw taken (inr (("23505", refl), refl))
  | inl fresh ↦
      rw fresh
        (elim (write-Answers (row id 5) (with_cart (row id 5) d.tables) ids d
          (decide (is_keyed (with_cart (row id 5) d.tables)))) [
            | inl did ↦ inl (
              id,
              5,
              any_not (λ old. old.id =ₛ id) d.tables.carts (ground arith),
              any_not (has_cart id) d.tables.items (ground arith),
              any_not (λ order. order.cart_id =ₛ id) d.tables.orders (ground arith),
              did,
            )
            | inr refused ↦ inr refused
          ])
]

pub database-IsManager : IsManager database
database-IsManager = record {
  finds_cart = λ test d. inl (refl, refl);
  finds_item = λ test d. inl (refl, refl);
  finds_items = λ test d. inl (refl, refl);
  finds_order = λ test d. inl (refl, refl);
  inserts_cart = λ row d. inserts row d d.ids;
  inserts_item = λ row d. (first_id d.ids, 5, write-Answers _ _ _ d (decide _));
  inserts_order = λ row d. (first_id d.ids, 5, write-Answers _ _ _ d (decide _));
  saves_item = λ item d. write-Answers _ _ _ d (decide _);
  removes_item = λ item d. write-Answers _ _ _ d (decide _);
  updates_carts = λ test f d. (6, write-Answers _ _ _ d (decide _));
  item_key = λ test item d h.
      distinct-Split (λ old. old.id) test item d.tables.items (let k = d.keyed in ground arith) h;
  cart_key = λ test row d h.
      distinct-Split (λ old. old.id) test row d.tables.carts (let k = d.keyed in ground arith) h;
  commits = λ body a d h. rw h (inl (refl, refl));
  rolls_back = λ body e d h. rw h (refl, refl);
}
