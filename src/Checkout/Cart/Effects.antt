-- ===== src/Checkout/Cart/Effects.antt =====
-- The operations of the cart service against a bag of products: what each does, on every branch.
use mathlib.Core.Path.{subst}
use study_microsservices_nod.Base.{
  bind_ok, bind_err, ◌>>◌, ℕ, ◌≡◌, refl, ap, ◌∙◌, ◌⊎◌, inl, inr, String, true, false, not, find,
  Bool-cases, Option-cases, Result-cases, Error, http, query_failed, ok, err, Action, raise_if,
  pure,
}
use study_microsservices_nod.Base.Values.{str}
use study_microsservices_nod.Checkout.Orders.{CartItem, ExternalProduct}
use study_microsservices_nod.Checkout.Store.{Tables, Manager, IsManager, items_of, load}
use study_microsservices_nod.Checkout.Store.Settling.{IsRefusal, transaction-Atomic}
use study_microsservices_nod.Checkout.Responses.{
  CartResponse, to_cart_response, empty_cart_response,
}
use study_microsservices_nod.Checkout.Cart.{
  is_active_of, add_product, add_item, find_active_cart, get_cart, response_of, remove_from_cart,
  remove_item_of,
}
use study_microsservices_nod.Checkout.Cart.Tables.{bag}
use study_microsservices_nod.Checkout.Cart.Adding.{
  answered_quantity, answered-quantity_in, Added, AddedSoundly, add_product-settles,
}
use study_microsservices_nod.Checkout.Cart.Removing.{
  IsIn, Removed, RemovedSoundly, IsRemovalError, remove_from_cart-settles,
}

abbrev pub unavailable_product : Error
unavailable_product = http 422 (str "Produto indisponível")

module _ {D : Type 0} (m : Manager D) (laws : IsManager m) where
  open m use {view}

  shown :
      (user_id : String) (t : Tables) (q : String)
      → answered_quantity q
          (response_of user_id (load t (find (is_active_of user_id) t.carts))).items
        ≡ bag user_id t q
  unfolding response_of to_cart_response empty_cart_response
  shown user_id t q = elim (Option-cases (find (is_active_of user_id) t.carts)) [
    | inl missing ↦ rw missing refl
    | inr (row, hit) ↦ rw hit (answered-quantity_in q (items_of row.id t))
  ]

  -- The cart that is answered holds what the user's bag holds, item by item of the products, and
  -- reading changes nothing; or the database refuses.
  pub get_cart_effect :
      (user_id : String) (d : D)
      → let x = get_cart m user_id d in
        (view x.1 ≡ view d)
        × (((answer : CartResponse) × (x.0 ≡ ok answer)
              × ((q : String) → answered_quantity q answer.items ≡ bag user_id (view d) q))
            ⊎ ((e : Error) × IsRefusal e × (x.0 ≡ err e)))
  unfolding get_cart find_active_cart
  get_cart_effect user_id d =
      let t = view d in
      let search = find (is_active_of user_id) t.carts in
      elim (laws.finds_cart (is_active_of user_id) d) [
        | inl (e, same) ↦
            rw
              (bind_ok (m.find_cart (is_active_of user_id))
                (λ cart. pure (response_of user_id cart)) d _ e)
              (same, inl (response_of user_id (load t search), refl, shown user_id t))
        | inr ((code, e), same) ↦
            rw
              (bind_err (m.find_cart (is_active_of user_id))
                (λ cart. pure (response_of user_id cart)) d _ e)
              (same, inr (query_failed code, (code, refl), refl))
      ]

  -- `addItem` once the product is there.
  abbrev put_product : String → ℕ → ExternalProduct → Action D CartResponse
  put_product user_id n product =
      raise_if (not product.is_active) unavailable_product
      >> m.transaction (add_product m user_id product n)

  put_active :
      (user_id : String) (n : ℕ) (product : ExternalProduct) (d : D)
      → product.is_active ≡ true
      → put_product user_id n product d ≡ m.transaction (add_product m user_id product n) d
  put_active user_id n product d h =
      ap
        (λ b.
          (raise_if (not b) unavailable_product >> m.transaction (add_product m user_id product n))
            d)
        h

  put_inactive :
      (user_id : String) (n : ℕ) (product : ExternalProduct) (d : D)
      → product.is_active ≡ false
      → put_product user_id n product d ≡ (err unavailable_product, d)
  put_inactive user_id n product d h =
      ap
        (λ b.
          (raise_if (not b) unavailable_product >> m.transaction (add_product m user_id product n))
            d)
        h

  pub add_item_outcome :
      (fetch : String → Action D ExternalProduct)
      → ((product_id : String) (d : D) → view (fetch product_id d).1 ≡ view d)
      → (user_id product_id : String) (n : ℕ) (d : D)
      → let x = add_item m fetch user_id product_id n d in
        ((answer : CartResponse) × (product : ExternalProduct) × ((fetch product_id d).0
            ≡ ok product)
          × (product.is_active ≡ true)
          × (x.0 ≡ ok answer)
          × AddedSoundly user_id product.id n (view d) answer (view x.1))
        ⊎ ((e : Error) × (x.0 ≡ err e)
            × (view x.1 ≡ view d)
            × (((fetch product_id d).0 ≡ err e)
                ⊎ ((product : ExternalProduct) × ((fetch product_id d).0 ≡ ok product)
                    × (product.is_active ≡ false)
                    × (e ≡ unavailable_product))
                ⊎ IsRefusal e))
  unfolding add_item
  add_item_outcome fetch still user_id product_id n d = elim (Result-cases (fetch product_id d).0) [
    | inr (e, h) ↦
        rw (bind_err (fetch product_id) (put_product user_id n) d e h)
          (inr (e, refl, still product_id d, inl h))
    | inl (product, h) ↦
        rw (bind_ok (fetch product_id) (put_product user_id n) d product h)
          (elim (Bool-cases product.is_active) [
            | inr inactive ↦ rw (put_inactive user_id n product (fetch product_id d).1 inactive) (
                inr (
                  unavailable_product,
                  refl,
                  still product_id d,
                  inr (inl (product, h, inactive, refl)),
                ))
            | inl on_sale ↦
                rw (put_active user_id n product (fetch product_id d).1 on_sale)
                  (elim (transaction-Atomic m laws IsRefusal (λ e k. k)
                    (add_product m user_id product n) (fetch product_id d).1
                    (AddedSoundly user_id product.id n (view (fetch product_id d).1))
                    (add_product-settles m laws IsRefusal (λ e k. k) user_id product n
                      (fetch product_id d).1)) [
                        | inl (answer, done, added) ↦ inl (
                          answer,
                          product,
                          h,
                          on_sale,
                          done,
                          subst
                              (λ t. AddedSoundly user_id product.id n t answer (
                                view
                                  (m.transaction (add_product m user_id product n)
                                    (fetch product_id d).1).1))
                              (still product_id d) added,
                        )
                        | inr (e, refused, thrown, same) ↦
                            inr (e, thrown, same ∙ still product_id d, inr (inr refused))
                      ])
          ])
  ]

  -- With a way to look up products that leaves the tables alone. Either the product was found and is
  -- on sale, and then the user's bag has gained the quantity of it and nothing else, the answer shows
  -- that bag, and no order changes. Or an error is thrown and the tables are as
  -- before: the look-up's, 422 for a product that is not on sale, or a refusal.
  pub add_item_effect :
      (fetch : String → Action D ExternalProduct)
      → ((product_id : String) (d : D) → view (fetch product_id d).1 ≡ view d)
      → (user_id product_id : String) (n : ℕ) (d : D)
      → let x = add_item m fetch user_id product_id n d in
        ((answer : CartResponse) × (product : ExternalProduct) × ((fetch product_id d).0
            ≡ ok product)
          × (product.is_active ≡ true)
          × (x.0 ≡ ok answer)
          × Added user_id product.id n (view d) answer (view x.1))
        ⊎ ((e : Error) × (x.0 ≡ err e)
            × (view x.1 ≡ view d)
            × (((fetch product_id d).0 ≡ err e)
                ⊎ ((product : ExternalProduct) × ((fetch product_id d).0 ≡ ok product)
                    × (product.is_active ≡ false)
                    × (e ≡ unavailable_product))
                ⊎ IsRefusal e))
  add_item_effect fetch still user_id product_id n d =
      elim (add_item_outcome fetch still user_id product_id n d) [
        | inl (answer, product, h, on_sale, done, (sound, added)) ↦
            inl (answer, product, h, on_sale, done, added)
        | inr bad ↦ inr bad
      ]

  pub remove_item_outcome :
      (user_id item_id : String) (d : D)
      → let x = remove_item_of m user_id item_id d in
        ((answer : CartResponse) × (x.0 ≡ ok answer)
          × ((item : CartItem) × IsIn user_id item_id item (view d)
              × RemovedSoundly user_id item (view d) answer (view x.1)))
        ⊎ ((e : Error) × IsRemovalError user_id item_id (view d) e
            × (x.0 ≡ err e)
            × (view x.1 ≡ view d))
  unfolding remove_item_of
  remove_item_outcome user_id item_id d =
      transaction-Atomic m laws (IsRemovalError user_id item_id (view d)) (λ e k. inl k)
        (remove_from_cart m user_id item_id) d
        (λ answer after.
          (item : CartItem) × IsIn user_id item_id item (view d)
          × RemovedSoundly user_id item (view d) answer after)
        (remove_from_cart-settles m laws user_id item_id d)

  -- Either the item is in the user's active cart, and then the bag has lost it and nothing else, the
  -- answer shows that bag, and no order changes. Or an error is thrown and the
  -- tables are as before: a refusal, or 404 when the user has no active cart with such an item.
  pub remove_item_effect :
      (user_id item_id : String) (d : D)
      → let x = remove_item_of m user_id item_id d in
        ((answer : CartResponse) × (x.0 ≡ ok answer)
          × ((item : CartItem) × IsIn user_id item_id item (view d)
              × Removed user_id item (view d) answer (view x.1)))
        ⊎ ((e : Error) × IsRemovalError user_id item_id (view d) e
            × (x.0 ≡ err e)
            × (view x.1 ≡ view d))
  remove_item_effect user_id item_id d = elim (remove_item_outcome user_id item_id d) [
    | inl (answer, done, (item, here, (sound, removed))) ↦ inl (answer, done, (item, here, removed))
    | inr bad ↦ inr bad
  ]
