-- ===== src/Checkout/Cart/Tables.antt =====
-- Carts in the tables: the bag of products that a user's active cart holds, and totals.
use text.Mathlib.TextPositions.{eq_refl}
use study_microsservices_nod.Base.{
  ◌≤◌, length, ℕ, ◌≡◌, ◌≢◌, refl, ◌∙◌, ◌⊎◌, inl, inr, String, Bool, true, false, ◌=ₛ◌,
  if◌then◌else◌, Option, none, some, List, [], ◌∷◌, filter, find, All, arith, eq_iff, Bool-cases,
}
use study_microsservices_nod.Checkout.Orders.{Order, CartItem, recalculated_total}
use study_microsservices_nod.Checkout.Orders.Amounts.{IsPriced}
use study_microsservices_nod.Checkout.Store.{CartRow, Tables, has_cart, items_of, update_where}
use study_microsservices_nod.Checkout.Cart.{is_active_status, is_active_of}
use study_microsservices_nod.Checkout.Cart.Quantities.{quantity_in}

abbrev pub held : Tables → Option CartRow → String → ℕ
held t none q = 0
held t (some row) q = quantity_in q (items_of row.id t)

-- How many of a product the user's active cart holds.
abbrev pub bag : String → Tables → String → ℕ
bag user_id t = held t (find (is_active_of user_id) t.carts)

abbrev pub HasTotal : Tables → CartRow → Type 0
HasTotal t row = row.total ≡ recalculated_total (items_of row.id t)

-- Every cart's total is that of its items.
abbrev pub IsTotalled : Tables → Type 0
IsTotalled t = All (HasTotal t) t.carts

-- The same, but for one cart.
abbrev pub IsTotalledBut : String → Tables → Type 0
IsTotalledBut cart_id t = All (λ row. (row.id ≡ cart_id) ⊎ HasTotal t row) t.carts

abbrev pub orders_of : String → List Order → List Order
orders_of cart_id orders = filter (λ order. order.cart_id =ₛ cart_id) orders

-- An active cart has no order, any other at most one.
abbrev pub HasOneOrder : List Order → CartRow → Type 0
HasOneOrder orders row =
    length (orders_of row.id orders) ≤ (if is_active_status row.status then 0 else 1)

abbrev pub IsOrderedOnce : Tables → Type 0
IsOrderedOnce t = All (HasOneOrder t.orders) t.carts

-- Every item's subtotal is its price times its quantity.
abbrev pub HasPrices : Tables → Type 0
HasPrices t = All IsPriced t.items

-- What every operation keeps.
abbrev pub IsSound : Tables → Type 0
IsSound t = IsTotalled t × IsOrderedOnce t × HasPrices t

abbrev pub IsKnown : String → Tables → Type 0
IsKnown cart_id t = (row : CartRow) × (find (λ row. row.id =ₛ cart_id) t.carts ≡ some row)

module _ {ℓ} {R : Type ℓ} where
  -- An update that keeps what a search tests keeps what it finds.
  pub find-update_none :
      (test g : R → Bool) (f : R → R) (rows : List R)
      → ((row : R) → test (f row) ≡ test row)
      → find test rows ≡ none
      → find test (update_where g f rows) ≡ none
  find-update_none test g f [] keeps h = refl
  find-update_none test g f (row ∷ rows) keeps h =
      ground (arith, keeps row, find-update_none test g f rows keeps)

  pub find-update_some :
      (test g : R → Bool) (f : R → R) (rows : List R) (row : R)
      → ((row : R) → test (f row) ≡ test row)
      → find test rows ≡ some row
      → find test (update_where g f rows) ≡ some (if g row then f row else row)
  find-update_some test g f [] row keeps h = cc
  find-update_some test g f (r ∷ rows) row keeps h = elim (Bool-cases (test r)) [
    | inl hit ↦
        let first : r ≡ row = ground arith in
        let hit' : test (f r) ≡ true = keeps r ∙ hit in
        elim (Bool-cases (g r)) [
          | inl e ↦ rw (e, hit', ← first, e) refl
          | inr e ↦ rw (e, hit, ← first, e) refl
        ]
    | inr miss ↦
        let miss' : test (f r) ≡ false = keeps r ∙ miss in
        let rest : find test rows ≡ some row = ground arith in
        let found = find-update_some test g f rows row keeps rest in
        elim (Bool-cases (g r)) [ inl e ↦ rw (e, miss') found | inr e ↦ rw (e, miss) found ]
  ]

  pub All-map {κ μ} :
      (P : R → Type κ) (Q : R → Type μ) (xs : List R) → ((x : R) → P x → Q x) → All P xs → All Q xs
  All-map P Q [] f h = tt
  All-map P Q (x ∷ xs) f (p, h) = (f x p, All-map P Q xs f h)

  pub All-update {κ} :
      (P : R → Type κ) (test : R → Bool) (f : R → R) (rows : List R)
      → ((row : R) → P (f row))
      → All P rows
      → All P (update_where test f rows)
  All-update P test f [] new h = tt
  All-update P test f (row ∷ rows) new (p, h) = elim (Bool-cases (test row)) [
    | inl hit ↦ rw hit (new row, All-update P test f rows new h)
    | inr miss ↦ rw miss (p, All-update P test f rows new h)
  ]

  pub All-filter {κ} :
      (P : R → Type κ) (test : R → Bool) (rows : List R) → All P rows → All P (filter test rows)
  All-filter P test [] h = tt
  All-filter P test (row ∷ rows) (p, h) = elim (Bool-cases (test row)) [
    | inl hit ↦ rw hit (p, All-filter P test rows h)
    | inr miss ↦ rw miss (All-filter P test rows h)
  ]

  pub find_unmatched :
      (test : R → Bool) (rows : List R) → All (λ row. test row ≡ false) rows → find test rows ≡ none
  find_unmatched test [] h = refl
  find_unmatched test (row ∷ rows) (miss, h) = rw (miss, find_unmatched test rows h) refl

  pub filter_unmatched :
      (test : R → Bool) (rows : List R) → All (λ row. test row ≡ false) rows → filter test rows ≡ []
  filter_unmatched test [] h = refl
  filter_unmatched test (row ∷ rows) (miss, h) = rw (miss, filter_unmatched test rows h) refl

-- A row that a search found is known by its id.
pub find-IsKnown :
    (test : CartRow → Bool) (rows : List CartRow) (row : CartRow)
    → find test rows ≡ some row
    → (r : CartRow) × (find (λ r. r.id =ₛ row.id) rows ≡ some r)
find-IsKnown test [] row h = cc
find-IsKnown test (r ∷ rows) row h = elim (Bool-cases (r.id =ₛ row.id)) [
  | inl same ↦ (r, rw same refl)
  | inr differs ↦ elim (Bool-cases (test r)) [
    | inl hit ↦ let e : r ≡ row = ground arith in ground (arith, eq_refl row.id)
    | inr miss ↦ let (found, k) = find-IsKnown test rows row (ground arith) in (found, rw differs k)
  ]
]

-- What a change of one cart's items does to totals and bags.
pub IsTotalled-elsewhere :
    (t : Tables) (cart_id : String) (more : List CartItem) (rows : List CartRow)
    → ((other : String)
        → other ≢ cart_id
        → filter (has_cart other) more ≡ filter (has_cart other) t.items)
    → All (HasTotal t) rows
    → All (λ row. (row.id ≡ cart_id) ⊎ HasTotal (record t { items = more }) row) rows
IsTotalled-elsewhere t cart_id more [] elsewhere h = tt
IsTotalled-elsewhere t cart_id more (row ∷ rows) elsewhere (total, h) = (
  elim (Bool-cases (row.id =ₛ cart_id)) [
    | inl same ↦ inl (ground (arith, eq_iff row.id cart_id))
    | inr differs ↦ inr (rw (elsewhere row.id (λ e. ground (arith, eq_iff row.id cart_id))) total)
  ],
  IsTotalled-elsewhere t cart_id more rows elsewhere h,
)
