-- ===== src/Checkout/Ordering/Placing.antt =====
-- The transaction of a checkout, step by step.
use mathlib.Core.Path.{subst}
use study_microsservices_nod.Base.{
  ◌>>=◌, ◌>>◌, ℕ, ◌≡◌, ◌≢◌, refl, ap, ◌∙◌, ◌⊎◌, inl, inr, String, true, false, not, ◌==◌, ◌=ₛ◌,
  Option, none, some, List, [], ◌∷◌, ◌++◌, find, find_holds, All, arith, Option-cases, Error,
  raise_if,
}
use study_microsservices_nod.Checkout.Orders.{Cart, CartItem, completed, Order, new_order}
use study_microsservices_nod.Checkout.Store.{
  CartRow, Tables, Manager, IsManager, items_of, loaded, load, update_where,
}
use study_microsservices_nod.Checkout.Store.Settling.{
  IsRefusal, Settles, settle_bind, settle_call, settle-Answers,
}
use study_microsservices_nod.Checkout.Cart.{is_active_of, is_active_status}
use study_microsservices_nod.Checkout.Cart.Tables.{IsSound}
use study_microsservices_nod.Checkout.Ordering.{
  empty_cart, with_items, unless_empty, is_still_active, complete, place_order, order_cart,
}
use study_microsservices_nod.Checkout.Ordering.Single.{
  completed_at, update-split, affected-split, placed-IsOrderedOnce, placed-IsTotalled, find-split,
}

-- The user's active cart, with items in it.
abbrev pub IsFull : String → CartRow → Tables → Type 0
IsFull user_id row t = (find (is_active_of user_id) t.carts ≡ some row) × (items_of row.id t ≢ [])

-- The user has no active cart with items.
abbrev pub HasNothing : String → Tables → Type 0
HasNothing user_id t =
    (row : CartRow) → find (is_active_of user_id) t.carts ≡ some row → items_of row.id t ≡ []

-- The user's cart was turned into one order: the cart is completed, and the order is its.
pub record Placed (user_id payment_method : String) (before : Tables) (order : Order) (cart : Cart)
    (after : Tables) : Type 0 where
  pub row : CartRow
  pub full : IsFull user_id row before
  pub id : String
  pub now : ℕ
  pub cart_is : cart ≡ loaded before row
  pub order_is : order ≡ new_order id now user_id cart payment_method
  pub items_same : after.items ≡ before.items
  pub ordered : after.orders ≡ before.orders ++ order ∷ []
  pub row_after : CartRow
  pub found_after : find (λ r. r.id =ₛ row.id) after.carts ≡ some row_after
  pub is_completed : row_after.status ≡ completed

abbrev pub PlacedSoundly : String → String → Tables → Order → Cart → Tables → Type 0
PlacedSoundly user_id payment_method before order cart after =
    (IsSound before → IsSound after) × Placed user_id payment_method before order cart after

-- Why a checkout fails.
abbrev pub IsCheckoutError : String → Tables → Error → Type 0
IsCheckoutError user_id t e = IsRefusal e ⊎ ((e ≡ empty_cart) × HasNothing user_id t)

-- The tables after both writes.
abbrev pub written : String → ℕ → Tables → Order → Tables
written cart_id now t order = record {
  carts = update_where (is_still_active cart_id) (completed_at now) t.carts;
  items = t.items;
  orders = t.orders ++ order ∷ [];
}

placed :
    (user_id payment_method id : String) (now now' : ℕ) (t : Tables) (row : CartRow)
    (before after : List CartRow)
    → IsFull user_id row t
    → is_active_status row.status ≡ true
    → t.carts ≡ before ++ row ∷ after
    → All (λ old. (old.id =ₛ row.id) ≡ false) before
    → All (λ old. (old.id =ₛ row.id) ≡ false) after
    → let order = new_order id now' user_id (loaded t row) payment_method in
      PlacedSoundly user_id payment_method t order (loaded t row) (written row.id now t order)
unfolding new_order
placed user_id payment_method id now now' t row before after full is_active split h k =
    let order = new_order id now' user_id (loaded t row) payment_method in
    let carts_after =
      ap (update_where (is_still_active row.id) (completed_at now)) split
      ∙ update-split before after row now is_active h k in
    (
      (λ (totals, once, prices). (
        rw carts_after (
            placed-IsTotalled t (written row.id now t order) before after row now refl
              (rw split at totals)),
        rw carts_after (
            placed-IsOrderedOnce before after row now t.orders order is_active refl h k
              (rw split at once)),
        prices,
      )),
      record {
        row = row;
        full = full;
        id = id;
        now = now';
        cart_is = refl;
        order_is = refl;
        items_same = refl;
        ordered = refl;
        row_after = completed_at now row;
        found_after = rw carts_after (find-split before after row now h);
        is_completed = refl;
      },
    )

with_items-cases :
    (cart : Cart) (items : List CartItem)
    → cart.items ≡ items
    → ((cart.items ≡ []) × (with_items (some cart) ≡ none))
      ⊎ ((cart.items ≢ []) × (with_items (some cart) ≡ some cart))
unfolding with_items
with_items-cases cart [] e = inl (e, ap (unless_empty cart) e)
with_items-cases cart (item ∷ items) e = inr ((λ h. cc), ap (unless_empty cart) e)

with_items-none : with_items none ≡ none
unfolding with_items
with_items-none = refl

same_row : {x : Option CartRow} (a b : CartRow) → x ≡ some a → x ≡ some b → a ≡ b
same_row a b h k = cc

module _ {D : Type 0} (m : Manager D) (laws : IsManager m) where
  open m use {view}

  -- The cart is there, with items: the rest of the body.
  places :
      (user_id payment_method : String) (t : Tables) (row : CartRow) (d : D)
      → view d ≡ t
      → IsFull user_id row t
      → Settles view
          (IsCheckoutError user_id t)
          ((m.update_carts (is_still_active row.id) complete >>= λ affected.
              raise_if (not (affected == 1)) empty_cart
              >> place_order m user_id payment_method (loaded t row))
            d)
          (λ done after. PlacedSoundly user_id payment_method t done.0 done.1 after)
  unfolding place_order
  places user_id payment_method t row d same full =
      let E = IsCheckoutError user_id t in
      let Q : Order × Cart → Tables → Type 0 =
        (λ done after. PlacedSoundly user_id payment_method t done.0 done.1 after) in
      let refusals : (e : Error) → IsRefusal e → E e = (λ e k. inl k) in
      let (before, after, split, h, k) =
        laws.cart_key (is_active_of user_id) row d (rw same full.0) in
      let matches = find_holds (is_active_of user_id) t.carts row full.0 in
      let is_active : is_active_status row.status ≡ true = ground arith in
      let (now, updated) = laws.updates_carts (is_still_active row.id) complete d in
      settle_bind view E (m.update_carts (is_still_active row.id) complete) _ d
        (λ affected u.
          (affected ≡ 1)
          × (u ≡ record t {
            carts = update_where (is_still_active row.id) (completed_at now) t.carts;
          }))
        Q
        (settle_call view E refusals _ _ _ _
          (λ affected u.
            (affected ≡ 1)
            × (u ≡ record t {
              carts = update_where (is_still_active row.id) (completed_at now) t.carts;
            }))
          updated (rw split (affected-split before after row is_active h k), rw same refl))
        (λ affected d₁ (one, same₁). rw one (
          let (id, now', inserted) =
            laws.inserts_order (λ id now. new_order id now user_id (loaded t row) payment_method)
              d₁ in
          settle_bind view E
            (m.insert_order (λ id now. new_order id now user_id (loaded t row) payment_method)) _ d₁
            (λ order u.
              (order ≡ new_order id now' user_id (loaded t row) payment_method)
              × (u ≡ record (view d₁) {
                orders =
                    (view d₁).orders
                    ++ new_order id now' user_id (loaded t row) payment_method ∷ [];
              }))
            Q (settle-Answers view E refusals _ _ _ _ inserted)
            (λ order d₂ (e, same₂). inl (
              (order, loaded t row),
              refl,
              rw (e, same₂, same₁)
                  (placed user_id payment_method id now now' t row before after full is_active
                    (rw same at split) h k),
            ))))

  pub order_cart-settles :
      (user_id payment_method : String) (d : D)
      → Settles view
          (IsCheckoutError user_id (view d))
          (order_cart m user_id payment_method d)
          (λ done after. PlacedSoundly user_id payment_method (view d) done.0 done.1 after)
  unfolding order_cart
  order_cart-settles user_id payment_method d =
      let t = view d in
      let E = IsCheckoutError user_id t in
      let Q : Order × Cart → Tables → Type 0 =
        (λ done after. PlacedSoundly user_id payment_method t done.0 done.1 after) in
      settle_bind view E (m.find_cart (is_active_of user_id)) _ d
        (λ found after. (found ≡ load t (find (is_active_of user_id) t.carts)) × (after ≡ t)) Q
        (settle-Answers view E (λ e k. inl k) _ _ _ _ (laws.finds_cart (is_active_of user_id) d))
        (λ found d₁ (e, same₁). elim (Option-cases (find (is_active_of user_id) t.carts)) [
          | inl missing ↦
              let nothing : with_items found ≡ none = rw (e, missing) with_items-none in
              rw nothing (inr (empty_cart, inr (refl, λ row h. cc), refl))
          | inr (row, hit) ↦ elim (with_items-cases (loaded t row) (items_of row.id t) refl) [
            | inl (empty, dropped) ↦
                let nothing : with_items found ≡ none = rw (e, hit) dropped in
                rw nothing (
                  inr (
                    empty_cart,
                    inr (
                      refl,
                      λ other h. subst (λ r. items_of r.id t ≡ []) (same_row row other hit h) empty,
                    ),
                    refl,
                  ))
            | inr (has_items, kept) ↦
                let something : with_items found ≡ some (loaded t row) = rw (e, hit) kept in
                rw something (places user_id payment_method t row d₁ same₁ (hit, has_items))
          ]
        ])
