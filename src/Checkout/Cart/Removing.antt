-- ===== src/Checkout/Cart/Removing.antt =====
-- Removing an item from a cart, in its transaction.
use mathlib.Core.Path.{subst}
use study_microsservices_nod.Base.{
  not, ℕ, ◌+◌, ◌≡◌, refl, sym, ◌∙◌, ◌⊎◌, inl, inr, String, ◌=ₛ◌, if◌then◌else◌, Option, none, some,
  find, find_holds, arith, eq_iff, Option-cases, Error,
}
use study_microsservices_nod.Checkout.Orders.{CartItem}
use study_microsservices_nod.Checkout.Orders.Amounts.{IsPriced}
use study_microsservices_nod.Checkout.Store.{
  CartRow, Tables, Manager, IsManager, items_of, loaded, load,
}
use study_microsservices_nod.Checkout.Store.Settling.{
  IsRefusal, Settles, settle_bind, settle_weaken, settle_call, settle-Answers,
}
use study_microsservices_nod.Checkout.Responses.{CartResponse, to_cart_response}
use study_microsservices_nod.Checkout.Cart.{
  is_active_of, is_item_of, find_active_cart, remove_from_cart, item_not_found,
  save_recalculated_total,
}
use study_microsservices_nod.Checkout.Cart.Quantities.{
  quantity_in, Gains, Gains-at, remove-Gains, remove_one-split,
}
use study_microsservices_nod.Checkout.Cart.Tables.{
  IsSound, HasPrices, All-filter, bag, find-IsKnown, IsTotalled-elsewhere,
}
use study_microsservices_nod.Checkout.Cart.Totals.{Recalculated}
use study_microsservices_nod.Checkout.Cart.Steps.{save_total-settles}
use study_microsservices_nod.Checkout.Cart.Adding.{answered_quantity, answered-quantity_in}

-- An item was taken out of the cart.
pub record Taken (cart_id p : String) (n : ℕ) (before after : Tables) : Type 0 where
  pub carts_same : after.carts ≡ before.carts
  pub orders_same : after.orders ≡ before.orders
  pub gains : Gains cart_id p n after.items before.items
  pub prices : HasPrices before → HasPrices after

-- What the body of `removeItem` has done with the item.
abbrev pub Removed : String → CartItem → Tables → CartResponse → Tables → Type 0
Removed user_id item before answer after =
    ((q : String)
      → bag user_id before q
        ≡ bag user_id after q + (if item.product_id =ₛ q then item.quantity else 0))
    × ((q : String) → answered_quantity q answer.items ≡ bag user_id after q)
    × (after.orders ≡ before.orders)

abbrev pub RemovedSoundly : String → CartItem → Tables → CartResponse → Tables → Type 0
RemovedSoundly user_id item before answer after =
    (IsSound before → IsSound after) × Removed user_id item before answer after

-- The item is in the user's active cart.
abbrev pub IsIn : String → String → CartItem → Tables → Type 0
IsIn user_id item_id item t =
    (row : CartRow) × (find (is_active_of user_id) t.carts ≡ some row)
    × (find (is_item_of row.id item_id) t.items ≡ some item)

-- The user has no active cart with such an item.
abbrev pub IsMissing : String → String → Tables → Type 0
IsMissing user_id item_id t =
    (row : CartRow)
    → find (is_active_of user_id) t.carts ≡ some row
    → find (is_item_of row.id item_id) t.items ≡ none

same_row : {x : Option CartRow} (a b : CartRow) → x ≡ some a → x ≡ some b → a ≡ b
same_row a b h k = cc

-- Why `removeItem` fails.
abbrev pub IsRemovalError : String → String → Tables → Error → Type 0
IsRemovalError user_id item_id t e =
    IsRefusal e ⊎ ((e ≡ item_not_found) × IsMissing user_id item_id t)

taken :
    (user_id : String) (item : CartItem) (t : Tables) (row : CartRow) (t₁ : Tables)
    (answer : CartResponse) (t₂ : Tables)
    → find (is_active_of user_id) t.carts ≡ some row
    → Taken row.id item.product_id item.quantity t t₁
    → Recalculated row.id t₁ answer t₂
    → RemovedSoundly user_id item t answer t₂
unfolding to_cart_response
taken user_id item t row t₁ answer t₂ hit out done =
    let held : (q : String) → bag user_id t q ≡ quantity_in q (items_of row.id t) =
      (λ q. rw hit refl) in
    let held₁ : (q : String) → bag user_id t₁ q ≡ quantity_in q (items_of row.id t₁) =
      (λ q. rw (out.carts_same, hit) refl) in
    (
      (λ (totals, once, prices). (
        done.totals (
            rw out.carts_same (
              IsTotalled-elsewhere t row.id t₁.items t.carts
                (λ other differs. sym (out.gains.elsewhere other differs)) totals)),
        done.keeps_one_order (rw (out.carts_same, out.orders_same) once),
        rw done.items_same (out.prices prices),
      )),
      (
        (λ q. omega (arith, done.bags_same user_id q, held q, out.gains.here q, held₁ q)),
        (λ q. rw done.answered (
            answered-quantity_in q (items_of done.row.id t₂)
            ∙ rw (done.row_id, done.items_same) (sym (held₁ q))
            ∙ sym (done.bags_same user_id q))),
        done.orders_same ∙ out.orders_same,
      ),
    )

module _ {D : Type 0} (m : Manager D) (laws : IsManager m) (E : Error → Type 0)
    (refusals : (e : Error) → IsRefusal e → E e) where
  open m use {view}

  takes :
      (cart_id item_id : String) (item : CartItem) (d : D)
      → find (is_item_of cart_id item_id) (view d).items ≡ some item
      → Settles view E
          (m.remove_item item d)
          (λ u after. Taken cart_id item.product_id item.quantity (view d) after)
  takes cart_id item_id item d hit =
      let t = view d in
      let (before, after, split, no_before, no_after) =
        laws.item_key (is_item_of cart_id item_id) item d hit in
      let matches = find_holds (is_item_of cart_id item_id) t.items item hit in
      let in_cart : item.cart_id ≡ cart_id = ground (arith, eq_iff item.cart_id cart_id) in
      settle_call view E refusals _ _ _ _
        (λ u after. Taken cart_id item.product_id item.quantity t after) (laws.removes_item item d)
        (record {
          carts_same = refl;
          orders_same = refl;
          gains =
              rw (split, remove_one-split before after item no_before no_after)
                (Gains-at _ _ _ _ _ _ _ in_cart refl (remove-Gains before after item));
          prices = λ h. All-filter IsPriced (λ old. not (old.id =ₛ item.id)) t.items h;
        })

module _ {D : Type 0} (m : Manager D) (laws : IsManager m) where
  open m use {view}

  pub remove_from_cart-settles :
      (user_id item_id : String) (d : D)
      → Settles view
          (IsRemovalError user_id item_id (view d))
          (remove_from_cart m user_id item_id d)
          (λ answer after.
            (item : CartItem) × IsIn user_id item_id item (view d)
            × RemovedSoundly user_id item (view d) answer after)
  unfolding remove_from_cart find_active_cart
  remove_from_cart-settles user_id item_id d =
      let t = view d in
      let E = IsRemovalError user_id item_id t in
      let Q : CartResponse → Tables → Type 0 = (λ answer after.
        (item : CartItem) × IsIn user_id item_id item t
        × RemovedSoundly user_id item t answer after) in
      let refusals : (e : Error) → IsRefusal e → E e = (λ e k. inl k) in
      settle_bind view E (m.find_cart (is_active_of user_id)) _ d
        (λ found after. (found ≡ load t (find (is_active_of user_id) t.carts)) × (after ≡ t)) Q
        (settle-Answers view E refusals _ _ _ _ (laws.finds_cart (is_active_of user_id) d))
        (λ found d₁ (e, same₁). elim (Option-cases (find (is_active_of user_id) t.carts)) [
          | inl missing ↦
              let none_found : found ≡ none = rw missing at e in
              rw none_found (inr (item_not_found, inr (refl, λ row h. cc), refl))
          | inr (row, hit) ↦
              let one_found : found ≡ some (loaded t row) = rw hit at e in
              rw one_found (
                settle_bind view E (m.find_item (is_item_of row.id item_id)) _ d₁
                  (λ found after. (found ≡ find (is_item_of row.id item_id) t.items) × (after ≡ t))
                  Q
                  (subst
                    (λ u.
                      Settles view E (m.find_item (is_item_of row.id item_id) d₁) (λ found after.
                        (found ≡ find (is_item_of row.id item_id) u.items) × (after ≡ u)))
                    same₁
                    (settle-Answers view E refusals _ _ _ _
                      (laws.finds_item (is_item_of row.id item_id) d₁)))
                  (λ found₂ d₂ (e₂, same₂).
                    elim (Option-cases (find (is_item_of row.id item_id) t.items)) [
                      | inl missing ↦
                          let none_found : found₂ ≡ none = rw missing at e₂ in
                          rw none_found (
                            inr (
                              item_not_found,
                              inr (
                                refl,
                                λ other h.
                                    subst (λ r. find (is_item_of r.id item_id) t.items ≡ none)
                                      (same_row row other hit h) missing,
                              ),
                              refl,
                            ))
                      | inr (item, present) ↦
                          let one_found : found₂ ≡ some item = rw present at e₂ in
                          rw one_found (
                            settle_bind view E (m.remove_item item)
                              (λ u. save_recalculated_total m row.id) d₂
                              (λ u after. Taken row.id item.product_id item.quantity t after) Q
                              (subst
                                (λ u.
                                  Settles view E (m.remove_item item d₂)
                                    (λ x after. Taken row.id item.product_id item.quantity u after))
                                same₂
                                (takes m laws E refusals row.id item_id item d₂ (rw same₂ present)))
                              (λ u d₃ out.
                                settle_weaken view E _ (Recalculated row.id (view d₃)) Q
                                  (save_total-settles m laws E refusals row.id d₃ (
                                    rw out.carts_same
                                      (find-IsKnown (is_active_of user_id) t.carts row hit)))
                                  (λ answer t₄ done. (
                                    item,
                                    (row, hit, present),
                                    taken user_id item t row (view d₃) answer t₄ hit out done,
                                  ))))
                    ]))
        ])
