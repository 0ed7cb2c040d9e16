-- ===== src/Checkout/Ordering/Concurrent.antt =====
-- Several checkouts at once: the transactions of `createOrderFromActiveCart` of
-- checkout-service/src/orders/orders.service.ts, interleaved as PostgreSQL interleaves them at its
-- default isolation. Each reads what is committed; its update waits for the lock of the row that
-- another has updated, looks at the row again, and keeps the lock until it commits or rolls back.
pub mod Safety
pub mod Waiting
use mathlib.Core.Path.{subst}
use study_microsservices_nod.Base.{
  ℕ, ◌+◌, ◌≤◌, ◌≡◌, ◌≢◌, refl, sym, ap, ◌∙◌, String, false, ◌==◌, ◌=ₛ◌, if◌then◌else◌, some, List,
  [], ◌∷◌, ◌++◌, filter, find, length, arith, eq_iff, ◌⊎◌, Bool-cases, inl, inr,
}
use study_microsservices_nod.Checkout.Orders.{Cart, Order, new_order}
use study_microsservices_nod.Checkout.Store.{CartRow, Tables, load, update_where}
use study_microsservices_nod.Checkout.Cart.{is_active_of}
use study_microsservices_nod.Checkout.Ordering.{with_items, is_still_active}
use study_microsservices_nod.Checkout.Ordering.Single.{orders_of-add, completed_at}
use study_microsservices_nod.Checkout.Cart.Tables.{orders_of}
use study_microsservices_nod.Checkout.Ordering.Placing.{written}

-- Where a checkout stands: before its read, before its update, before its commit, or done.
pub data Phase : Type 0 where
  began : Phase
  found : Cart → Phase
  locked : Cart → Phase
  ended : Phase

-- The committed tables, and the checkouts by their number.
pub record World : Type 0 where
  pub tables : Tables
  pub phase : ℕ → Phase

abbrev pub set_phase : ℕ → Phase → (ℕ → Phase) → ℕ → Phase
set_phase i p phase j = if i == j then p else phase j

-- How many rows the update of a checkout affects.
abbrev pub active_rows : String → List CartRow → ℕ
active_rows cart_id carts = length (filter (is_still_active cart_id) carts)

-- No other checkout holds the row's lock.
abbrev pub IsFree : World → ℕ → String → Type 0
IsFree w i cart_id = (j : ℕ) → j ≢ i → (cart : Cart) → w.phase j ≡ locked cart → cart.id ≢ cart_id

-- Each checkout is of a user, with a payment method.
module _ (user payment_method : ℕ → String) where
  pub data Step : World → World → Type 0 where
    reads :
        (w : World) (i : ℕ) (cart : Cart)
        → w.phase i ≡ began
        → with_items (load w.tables (find (is_active_of (user i)) w.tables.carts)) ≡ some cart
        → Step w (record { tables = w.tables; phase = set_phase i (found cart) w.phase })
    updates :
        (w : World) (i : ℕ) (cart : Cart)
        → w.phase i ≡ found cart
        → IsFree w i cart.id
        → active_rows cart.id w.tables.carts ≡ 1
        → Step w (record { tables = w.tables; phase = set_phase i (locked cart) w.phase })
    -- The order is inserted and the transaction commits.
    commits :
        (w : World) (i : ℕ) (cart : Cart) (id : String) (now now' : ℕ)
        → w.phase i ≡ locked cart
        → Step w (record {
          tables =
              written cart.id now w.tables (new_order id now' (user i) cart (payment_method i));
          phase = set_phase i ended w.phase;
        })
    -- The checkout throws, for whatever reason, and is rolled back.
    rolls_back :
        (w : World) (i : ℕ)
        → Step w (record { tables = w.tables; phase = set_phase i ended w.phase })
    -- Another transaction commits, that places no order and changes no cart's status.
    edits :
        (w : World) (tables : Tables)
        → tables.orders ≡ w.tables.orders
        → ((id : String) → active_rows id tables.carts ≡ active_rows id w.tables.carts)
        → Step w (record { tables = tables; phase = w.phase })

  pub data Reach : World → World → Type 0 where
    here : (w : World) → Reach w w
    next : (w v u : World) → Reach w v → Step v u → Reach w u

-- A cart has one order, or can still get one, or neither.
abbrev pub IsOrderedOnce : Tables → Type 0
IsOrderedOnce t = (id : String) → length (orders_of id t.orders) + active_rows id t.carts ≤ 1

-- What holds between the steps: a lock is of an active row, and of one checkout.
pub record IsSafe (w : World) : Type 0 where
  pub once : IsOrderedOnce w.tables
  pub lock_active :
      (i : ℕ) (cart : Cart) → w.phase i ≡ locked cart → active_rows cart.id w.tables.carts ≡ 1
  pub lock_apart :
      (i j : ℕ) (a b : Cart) → i ≢ j → w.phase i ≡ locked a → w.phase j ≡ locked b → a.id ≢ b.id
