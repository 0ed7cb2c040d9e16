-- ===== src/Checkout/Tests/Concurrent.antt =====
-- Two checkouts of the same cart: both have read it when the first commits.
use study_microsservices_nod.Base.{ℕ, ◌≡◌, refl, String, arith, ◌==◌, Bool-cases, inl, inr}
use study_microsservices_nod.Checkout.Orders.{Cart, Order, new_order, new_item}
use study_microsservices_nod.Checkout.Store.{loaded}
use study_microsservices_nod.Checkout.Ordering.{with_items, is_still_active}
use study_microsservices_nod.Checkout.Ordering.Placing.{written}
use study_microsservices_nod.Checkout.Ordering.Concurrent.{
  began, found, locked, ended, World, set_phase, Reach, here, next, reads, updates, commits,
  rolls_back, IsOrderedOnce, Step, IsFree, active_rows,
}
use study_microsservices_nod.Checkout.Ordering.Concurrent.Safety.{one_order}
use study_microsservices_nod.Checkout.Ordering.Concurrent.Waiting.{waiting_resolved}
use study_microsservices_nod.Checkout.Tests.Effects.{shop, cart_row}

abbrev users : ℕ → String
users i = "user-1"

abbrev methods : ℕ → String
methods i = "pix"

abbrev cart : Cart
cart = loaded shop.tables cart_row

abbrev started : World
started = record { tables = shop.tables; phase = λ i. began }

abbrev both_read : World
both_read = record {
  tables = shop.tables;
  phase = set_phase 1 (found cart) (set_phase 0 (found cart) (λ i. began));
}

abbrev first_updated : World
first_updated = record { tables = shop.tables; phase = set_phase 0 (locked cart) both_read.phase }

abbrev order : Order
order = new_order "order-1" 7 "user-1" cart "pix"

abbrev first_done : World
first_done = record {
  tables = written cart.id 6 shop.tables order;
  phase = set_phase 0 ended first_updated.phase;
}

abbrev both_done : World
both_done = record { tables = first_done.tables; phase = set_phase 1 ended first_done.phase }

found_apart : {a b : Cart} → found a ≡ locked b → ⊥
found_apart h = cc

began_apart : {a : Cart} → began ≡ locked a → ⊥
began_apart h = cc

none_locked : (j : ℕ) (other : Cart) → both_read.phase j ≡ locked other → ⊥
none_locked j other h = elim (Bool-cases (1 == j)) [
  | inl second ↦ found_apart (rw second at h)
  | inr one ↦ elim (Bool-cases (0 == j)) [
    | inl first ↦ found_apart (rw (one, first) at h)
    | inr more ↦ began_apart (rw (one, more) at h)
  ]
]

to_first_updated : Reach users methods started first_updated
unfolding with_items new_item
to_first_updated =
    next started both_read first_updated
      (next started _ both_read
        (next started started _ (here started) (reads started 0 cart refl refl))
        (reads (record { tables = shop.tables; phase = set_phase 0 (found cart) (λ i. began) }) 1
          cart refl refl))
      (updates both_read 0 cart refl (λ j differs other h. absurd (none_locked j other h)) refl)

run : Reach users methods started both_done
unfolding new_item new_order
run =
    next started first_done both_done
      (next started first_updated first_done to_first_updated
        (commits first_updated 0 cart "order-1" 6 7 refl))
      (rolls_back first_done 1)

shop-IsOrderedOnce : IsOrderedOnce shop.tables
unfolding new_item
shop-IsOrderedOnce id = elim (Bool-cases (is_still_active id cart_row)) [
  | inl hit ↦ rw hit (omega arith)
  | inr miss ↦ rw miss (omega arith)
]

one_order_example : IsOrderedOnce both_done.tables
one_order_example = one_order users methods shop.tables both_done shop-IsOrderedOnce run

waiting_resolved_example :
    let given_up : World = record {
      tables = first_updated.tables;
      phase = set_phase 0 ended first_updated.phase;
    } in
    (Step users methods first_updated given_up
      × Step users methods given_up (record {
        tables = first_updated.tables;
        phase = set_phase 1 (locked cart) given_up.phase;
      }))
    × ((id : String) (now now' : ℕ)
        → let placed : World = record {
          tables = written cart.id now first_updated.tables (new_order id now' "user-1" cart "pix");
          phase = set_phase 0 ended first_updated.phase;
        } in
          Step users methods first_updated placed
          × IsFree placed 1 cart.id
          × (active_rows cart.id placed.tables.carts ≡ 0))
waiting_resolved_example =
    waiting_resolved users methods shop.tables first_updated 1 0 cart cart shop-IsOrderedOnce
      to_first_updated (λ e. absurd (omega (arith, e))) refl refl refl
