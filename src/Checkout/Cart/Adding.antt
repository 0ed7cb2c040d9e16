-- ===== src/Checkout/Cart/Adding.antt =====
-- Adding to and removing from a cart: the operations in their transactions.
use mathlib.Core.Path.{subst}
use study_microsservices_nod.Base.{
  All-append, ℕ, ◌+◌, ◌≡◌, refl, sym, ◌∙◌, inl, inr, String, ◌=ₛ◌, if◌then◌else◌, List, [], ◌∷◌,
  map, find, find_holds, arith, eq_iff, Option-cases, Error,
}
use study_microsservices_nod.Checkout.Orders.{CartItem, ExternalProduct, new_item, increased_item}
use study_microsservices_nod.Checkout.Store.{Tables, Manager, IsManager, items_of}
use study_microsservices_nod.Checkout.Store.Settling.{
  IsRefusal, Settles, settle_bind, settle_weaken, settle_call, settle-Answers,
}
use study_microsservices_nod.Checkout.Responses.{
  CartResponse, CartItemResponse, to_cart_response, to_item_response,
}
use study_microsservices_nod.Checkout.Cart.{
  is_product_of, find_or_create_active_cart, save_recalculated_total, put_item, add_product,
}
use study_microsservices_nod.Checkout.Cart.Quantities.{
  quantity_in, Gains, insert-Gains, Gains-at, replace-Gains, update_one-split,
}
use study_microsservices_nod.Checkout.Cart.Tables.{
  IsSound, HasPrices, All-update, bag, IsTotalled-elsewhere,
}
use study_microsservices_nod.Checkout.Orders.Amounts.{
  IsPriced, new_item-IsPriced, increased_item-IsPriced,
}
use study_microsservices_nod.Checkout.Cart.Totals.{Recalculated}
use study_microsservices_nod.Checkout.Cart.Steps.{
  Opened, find_or_create-settles, save_total-settles,
}

-- The items of a response as a bag.
abbrev pub answered_quantity : String → List CartItemResponse → ℕ
answered_quantity q [] = 0
answered_quantity q (item ∷ items) =
    (if item.product_id =ₛ q then item.quantity else 0) + answered_quantity q items

pub answered-quantity_in :
    (q : String) (items : List CartItem)
    → answered_quantity q (map to_item_response items) ≡ quantity_in q items
unfolding to_item_response
answered-quantity_in q [] = refl
answered-quantity_in q (item ∷ items) = omega (arith, answered-quantity_in q items)

-- An item was put into the cart.
pub record Put (cart_id p : String) (n : ℕ) (before after : Tables) : Type 0 where
  pub carts_same : after.carts ≡ before.carts
  pub orders_same : after.orders ≡ before.orders
  pub gains : Gains cart_id p n before.items after.items
  pub prices : HasPrices before → HasPrices after

-- What the body of `addItem` has done.
abbrev pub Added : String → String → ℕ → Tables → CartResponse → Tables → Type 0
Added user_id p n before answer after =
    ((q : String) → bag user_id after q ≡ bag user_id before q + (if p =ₛ q then n else 0))
    × ((q : String) → answered_quantity q answer.items ≡ bag user_id after q)
    × (after.orders ≡ before.orders)

abbrev pub AddedSoundly : String → String → ℕ → Tables → CartResponse → Tables → Type 0
AddedSoundly user_id p n before answer after =
    (IsSound before → IsSound after) × Added user_id p n before answer after

finished :
    (user_id p : String) (n : ℕ) (t : Tables) (cart_id : String) (t₁ t₂ : Tables)
    (answer : CartResponse) (t₃ : Tables)
    → Opened user_id t cart_id t₁
    → Put cart_id p n t₁ t₂
    → Recalculated cart_id t₂ answer t₃
    → AddedSoundly user_id p n t answer t₃
unfolding to_cart_response
finished user_id p n t cart_id t₁ t₂ answer t₃ opened put done =
    let held₂ : (q : String) → bag user_id t₂ q ≡ quantity_in q (items_of cart_id t₂) =
      (λ q. rw (put.carts_same, opened.is_active, opened.row_id) refl) in
    let held₁ : (q : String) → bag user_id t₁ q ≡ quantity_in q (items_of cart_id t₁) =
      (λ q. rw (opened.is_active, opened.row_id) refl) in
    (
      (λ (totals, once, prices). (
        done.totals (
            rw put.carts_same (
              IsTotalled-elsewhere t₁ cart_id t₂.items t₁.carts put.gains.elsewhere
                (opened.totals totals))),
        done.keeps_one_order (rw (put.carts_same, put.orders_same) (opened.keeps_one_order once)),
        rw done.items_same (put.prices (rw opened.items_same prices)),
      )),
      (
        (λ q. omega (
          arith,
          done.bags_same user_id q,
          held₂ q,
          put.gains.here q,
          held₁ q,
          opened.bag_same q,
        )),
        (λ q. rw done.answered (
            answered-quantity_in q (items_of done.row.id t₃)
            ∙ rw (done.row_id, done.items_same) (sym (held₂ q))
            ∙ sym (done.bags_same user_id q))),
        done.orders_same ∙ put.orders_same ∙ opened.orders_same,
      ),
    )

module _ {D : Type 0} (m : Manager D) (laws : IsManager m) (E : Error → Type 0)
    (refusals : (e : Error) → IsRefusal e → E e) where
  open m use {view}

  put_item-settles :
      (cart_id : String) (product : ExternalProduct) (n : ℕ) (d : D)
      → Settles view E
          (put_item m cart_id product n (find (is_product_of cart_id product.id) (view d).items) d)
          (λ item after. Put cart_id product.id n (view d) after)
  unfolding put_item increased_item new_item
  put_item-settles cart_id product n d =
      let t = view d in
      elim (Option-cases (find (is_product_of cart_id product.id) t.items)) [
        | inl missing ↦
            let (id, now, done) =
              laws.inserts_item (λ id now. new_item id now cart_id product n) d in
            rw missing (
              settle_call view E refusals _ _ _ _ (λ item after. Put cart_id product.id n t after)
                done
                (record {
                  carts_same = refl;
                  orders_same = refl;
                  gains = insert-Gains t.items (new_item id now cart_id product n);
                  prices = λ h.
                      All-append IsPriced t.items _ h
                        (new_item-IsPriced id now cart_id product n, tt);
                }))
        | inr (item, hit) ↦
            let (before, after, split, no_before, no_after) =
              laws.item_key (is_product_of cart_id product.id) item d hit in
            let matches = find_holds (is_product_of cart_id product.id) t.items item hit in
            let in_cart : item.cart_id ≡ cart_id = ground (arith, eq_iff item.cart_id cart_id) in
            let of_product : item.product_id ≡ product.id =
              ground (arith, eq_iff item.product_id product.id) in
            let more = increased_item item n in
            rw hit (
              settle_call view E refusals _ _ _ _ (λ item after. Put cart_id product.id n t after)
                (laws.saves_item more d)
                (record {
                  carts_same = refl;
                  orders_same = refl;
                  gains =
                      rw (split, update_one-split before after item more no_before no_after)
                        (Gains-at _ _ _ _ _ _ _ in_cart of_product
                          (replace-Gains before after item more n refl refl refl));
                  prices = λ h.
                      All-update IsPriced (λ old. old.id =ₛ item.id) (λ old. more) t.items
                        (λ old. increased_item-IsPriced item n) h;
                }))
      ]

  pub add_product-settles :
      (user_id : String) (product : ExternalProduct) (n : ℕ) (d : D)
      → Settles view E
          (add_product m user_id product n d)
          (AddedSoundly user_id product.id n (view d))
  unfolding add_product
  add_product-settles user_id product n d =
      let t = view d in
      settle_bind view E (find_or_create_active_cart m user_id) _ d (Opened user_id t)
        (AddedSoundly user_id product.id n t) (find_or_create-settles m laws E refusals user_id d)
        (λ cart_id d₁ opened.
          let t₁ = view d₁ in
          settle_bind view E (m.find_item (is_product_of cart_id product.id)) _ d₁
            (λ found after.
              (found ≡ find (is_product_of cart_id product.id) t₁.items) × (after ≡ t₁))
            (AddedSoundly user_id product.id n t)
            (settle-Answers view E refusals _ _ _ _
              (laws.finds_item (is_product_of cart_id product.id) d₁))
            (λ found d₂ (e, same₂).
              settle_bind view E (put_item m cart_id product n found)
                (λ item. save_recalculated_total m cart_id) d₂
                (λ item after. Put cart_id product.id n t₁ after)
                (AddedSoundly user_id product.id n t)
                (rw e (
                  subst
                    (λ u.
                      Settles view E
                        (put_item m cart_id product n
                          (find (is_product_of cart_id product.id) u.items) d₂)
                        (λ item after. Put cart_id product.id n u after))
                    same₂ (put_item-settles cart_id product n d₂)))
                (λ item d₃ put.
                  settle_weaken view E _ (Recalculated cart_id (view d₃)) _
                    (save_total-settles m laws E refusals cart_id d₃
                      (rw put.carts_same opened.known))
                    (λ answer t₄ done.
                      finished user_id product.id n t cart_id t₁ (view d₃) answer t₄ opened put
                        done))))
