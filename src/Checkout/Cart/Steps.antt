-- ===== src/Checkout/Cart/Steps.antt =====
-- The steps of an operation on the cart: finding or creating it, putting an item in, the total.
use text.Mathlib.TextPositions.{eq_refl}
use mathlib.Core.Path.{subst}
use study_microsservices_nod.Base.{
  All-append, arith, bind_ok, bind_err, ◌>>=◌, ℕ, ◌≡◌, refl, inl, inr, String, false, ◌=ₛ◌, none,
  some, [], ◌∷◌, ◌++◌, find, find-append_none, All, Option-cases, Error, query_failed, pure,
}
use study_microsservices_nod.Checkout.Orders.{recalculated_total}
use study_microsservices_nod.Checkout.Store.{
  CartRow, Tables, Manager, IsManager, has_cart, items_of, loaded, load,
}
use study_microsservices_nod.Checkout.Store.Settling.{
  IsRefusal, Settles, settle_bind, settle_call, settle-Answers,
}
use study_microsservices_nod.Checkout.Responses.{CartResponse, to_cart_response}
use study_microsservices_nod.Checkout.Cart.{
  is_active_of, new_cart, find_active_cart, or_create, find_or_create_active_cart,
  save_recalculated_total, answer_cart,
}
use study_microsservices_nod.Checkout.Cart.Totals.{
  Recalculated, retotalled, retotalled-Recalculated,
}
use study_microsservices_nod.Checkout.Cart.Tables.{
  HasOneOrder, IsOrderedOnce, bag, HasTotal, IsTotalled, IsKnown, find_unmatched, filter_unmatched,
  find-IsKnown,
}

-- The user's active cart is `cart_id`, after it was found or created.
pub record Opened (user_id : String) (before : Tables) (cart_id : String) (after : Tables)
    : Type 0 where
  pub items_same : after.items ≡ before.items
  pub orders_same : after.orders ≡ before.orders
  pub row : CartRow
  pub row_id : row.id ≡ cart_id
  pub is_active : find (is_active_of user_id) after.carts ≡ some row
  pub known : IsKnown cart_id after
  pub bag_same : (q : String) → bag user_id after q ≡ bag user_id before q
  pub totals : IsTotalled before → IsTotalled after
  pub keeps_one_order : IsOrderedOnce before → IsOrderedOnce after

existing-Opened :
    (user_id : String) (t : Tables) (row : CartRow)
    → find (is_active_of user_id) t.carts ≡ some row
    → Opened user_id t row.id t
existing-Opened user_id t row h = record {
  items_same = refl;
  orders_same = refl;
  row = row;
  row_id = refl;
  is_active = h;
  known = find-IsKnown (is_active_of user_id) t.carts row h;
  bag_same = λ q. refl;
  totals = λ k. k;
  keeps_one_order = λ k. k;
}

new_cart-Opened :
    (user_id : String) (t : Tables) (id : String) (now : ℕ)
    → find (is_active_of user_id) t.carts ≡ none
    → All (λ old. (old.id =ₛ id) ≡ false) t.carts
    → All (λ item. has_cart id item ≡ false) t.items
    → All (λ order. (order.cart_id =ₛ id) ≡ false) t.orders
    → Opened user_id t id (record t { carts = t.carts ++ new_cart user_id id now ∷ [] })
unfolding new_cart recalculated_total
new_cart-Opened user_id t id now none_active new unused unordered =
    let row = new_cart user_id id now in
    let empty : items_of id t ≡ [] = filter_unmatched (has_cart id) t.items unused in
    let found : find (is_active_of user_id) (t.carts ++ row ∷ []) ≡ some row =
      rw (find-append_none (is_active_of user_id) t.carts (row ∷ []) none_active, eq_refl user_id)
        refl in
    record {
      items_same = refl;
      orders_same = refl;
      row = row;
      row_id = refl;
      is_active = found;
      known = (
        row,
        rw
            (
              find-append_none (λ r. r.id =ₛ id) t.carts (row ∷ [])
                  (find_unmatched (λ r. r.id =ₛ id) t.carts new),
              eq_refl id,
            )
            refl,
      );
      bag_same = λ q. rw (found, none_active, empty) refl;
      totals = λ h. All-append (HasTotal t) t.carts (row ∷ []) h (rw empty refl, tt);
      keeps_one_order = λ h. All-append (HasOneOrder t.orders) t.carts (row ∷ []) h (
        rw (filter_unmatched (λ order. order.cart_id =ₛ id) t.orders unordered) (omega arith),
        tt,
      );
    }

module _ {D : Type 0} (m : Manager D) (laws : IsManager m) (E : Error → Type 0)
    (refusals : (e : Error) → IsRefusal e → E e) where
  open m use {view}

  creates :
      (user_id : String) (d : D)
      → find (is_active_of user_id) (view d).carts ≡ none
      → Settles view E (or_create m user_id none d) (Opened user_id (view d))
  unfolding or_create new_cart
  creates user_id d none_active =
      let t = view d in
      elim (laws.inserts_cart (new_cart user_id) d) [
        | inl (id, now, new, unused, unordered, (e, same)) ↦
            rw (bind_ok (m.insert_cart (new_cart user_id)) (λ cart. pure cart.id) d _ e) (
              inl (
                id,
                refl,
                rw same (new_cart-Opened user_id t id now none_active new unused unordered),
              ))
        | inr ((code, e), same) ↦
            rw (bind_err (m.insert_cart (new_cart user_id)) (λ cart. pure cart.id) d _ e)
              (inr (query_failed code, refusals (query_failed code) (code, refl), refl))
      ]

  pub find_or_create-settles :
      (user_id : String) (d : D)
      → Settles view E (find_or_create_active_cart m user_id d) (Opened user_id (view d))
  unfolding find_or_create_active_cart find_active_cart or_create
  find_or_create-settles user_id d =
      let t = view d in
      settle_bind view E (m.find_cart (is_active_of user_id)) (or_create m user_id) d
        (λ found after. (found ≡ load t (find (is_active_of user_id) t.carts)) × (after ≡ t))
        (Opened user_id t)
        (settle-Answers view E refusals _ _ _ _ (laws.finds_cart (is_active_of user_id) d))
        (λ found d' (e, same). elim (Option-cases (find (is_active_of user_id) t.carts)) [
          | inl missing ↦
              let none_found : found ≡ none = rw missing at e in
              rw none_found (
                subst (λ u. Settles view E (or_create m user_id none d') (Opened user_id u)) same
                  (creates user_id d' (rw same missing)))
          | inr (row, hit) ↦
              let one_found : found ≡ some (loaded t row) = rw hit at e in
              rw one_found (inl (row.id, refl, rw same (existing-Opened user_id t row hit)))
        ])

  answer_cart-settles :
      (cart_id : String) (d : D) (row : CartRow) (Q : CartResponse → Tables → Type 0)
      → find (λ r. r.id =ₛ cart_id) (view d).carts ≡ some row
      → Q (to_cart_response (loaded (view d) row)) (view d)
      → Settles view E (answer_cart m cart_id d) Q
  unfolding answer_cart
  answer_cart-settles cart_id d row Q hit q =
      let t = view d in
      settle_bind view E (m.find_cart (λ r. r.id =ₛ cart_id)) _ d
        (λ found after. (found ≡ some (loaded t row)) × (after ≡ t)) Q
        (settle_call view E refusals _ _ _ _
          (λ found after. (found ≡ some (loaded t row)) × (after ≡ t))
          (laws.finds_cart (λ r. r.id =ₛ cart_id) d) (rw hit refl, refl))
        (λ found d' (e, same). rw e (inl (to_cart_response (loaded t row), refl, rw same q)))

  retotal-settles :
      (cart_id : String) (t : Tables) (d : D)
      → view d ≡ t
      → IsKnown cart_id t
      → Settles view E
          ((m.update_carts
                (λ row. row.id =ₛ cart_id)
                (λ row. record row { total = recalculated_total (items_of cart_id t) })
              >>= λ affected. answer_cart m cart_id)
            d)
          (Recalculated cart_id t)
  retotal-settles cart_id t d same known =
      let (now, updated) =
        laws.updates_carts (λ row. row.id =ₛ cart_id)
          (λ row. record row { total = recalculated_total (items_of cart_id t) }) d in
      let (row, hit, done) = retotalled-Recalculated cart_id t now known in
      settle_bind view E
        (m.update_carts (λ row. row.id =ₛ cart_id)
          (λ row. record row { total = recalculated_total (items_of cart_id t) }))
        (λ affected. answer_cart m cart_id) d (λ affected after. after ≡ retotalled cart_id t now)
        (Recalculated cart_id t)
        (settle_call view E refusals _ _ _ _ (λ affected after. after ≡ retotalled cart_id t now)
          updated (rw same refl))
        (λ affected d' same'.
          answer_cart-settles cart_id d' row (Recalculated cart_id t) (rw same' hit)
            (rw same' done))

  pub save_total-settles :
      (cart_id : String) (d : D)
      → IsKnown cart_id (view d)
      → Settles view E (save_recalculated_total m cart_id d) (Recalculated cart_id (view d))
  unfolding save_recalculated_total
  save_total-settles cart_id d known =
      let t = view d in
      settle_bind view E (m.find_items (has_cart cart_id)) _ d
        (λ items after. (items ≡ items_of cart_id t) × (after ≡ t)) (Recalculated cart_id t)
        (settle-Answers view E refusals _ _ _ _ (laws.finds_items (has_cart cart_id) d))
        (λ items d' (all, same). rw all (retotal-settles cart_id t d' same known))
