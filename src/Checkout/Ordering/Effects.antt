-- ===== src/Checkout/Ordering/Effects.antt =====
-- What the operations on orders do, on every branch.
use study_microsservices_nod.Base.{
  bind_ok, bind_err, ◌>>=◌, ◌>>◌, ◌≡◌, refl, ◌∙◌, ◌⊎◌, inl, inr, String, ◌=ₛ◌, ◌&&◌, Option, none,
  find, find_holds, eq_iff, arith, Error, query_failed, ok, err, Action, pure, or_raise,
  Result-cases, Option-cases,
}
use study_microsservices_nod.Checkout.Orders.{
  Cart, Order, PaymentOrderMessage, to_payment_order_message,
}
use study_microsservices_nod.Checkout.Store.{Manager, IsManager}
use study_microsservices_nod.Checkout.Store.Settling.{IsRefusal, transaction-Atomic}
use study_microsservices_nod.Checkout.Responses.{OrderResponse, to_order_response}
use study_microsservices_nod.Checkout.Ordering.{
  order_cart, create_order_from_active_cart, publish_payment_order, checkout, find_by_id_for_user,
  order_not_found,
}
use study_microsservices_nod.Checkout.Ordering.Placing.{
  Placed, PlacedSoundly, IsCheckoutError, order_cart-settles,
}

module _ {D : Type 0} (m : Manager D) (laws : IsManager m) where
  open m use {view}

  pub create-Atomic :
      (user_id payment_method : String) (d : D)
      → let x = create_order_from_active_cart m user_id payment_method d in
        ((done : Order × Cart) × (x.0 ≡ ok done)
          × PlacedSoundly user_id payment_method (view d) done.0 done.1 (view x.1))
        ⊎ ((e : Error) × IsCheckoutError user_id (view d) e × (x.0 ≡ err e) × (view x.1 ≡ view d))
  unfolding create_order_from_active_cart
  create-Atomic user_id payment_method d =
      transaction-Atomic m laws (IsCheckoutError user_id (view d)) (λ e k. inl k)
        (order_cart m user_id payment_method) d
        (λ done after. PlacedSoundly user_id payment_method (view d) done.0 done.1 after)
        (order_cart-settles m laws user_id payment_method d)

  -- A failure to publish is not seen.
  pub published :
      (publish : PaymentOrderMessage → Action D (Unit {0})) (order : Order) (cart : Cart) (d : D)
      → publish_payment_order publish order cart d
        ≡ (ok tt, (publish (to_payment_order_message order cart) d).1)
  unfolding publish_payment_order
  published publish order cart d =
      elim (Result-cases (publish (to_payment_order_message order cart) d).0) [
        | inl (u, h) ↦ rw h refl
        | inr (e, h) ↦ rw h refl
      ]

  pub checkout_outcome :
      (publish : PaymentOrderMessage → Action D (Unit {0})) (user_id payment_method : String)
      (d : D)
      → let placing = create_order_from_active_cart m user_id payment_method d in
        let x = checkout m publish user_id payment_method d in
        ((order : Order) × (cart : Cart) × PlacedSoundly user_id payment_method
            (view d)
            order
            cart
            (view placing.1)
          × (x ≡ (
            ok (to_order_response order),
            (publish (to_payment_order_message order cart) placing.1).1,
          )))
        ⊎ ((e : Error) × IsCheckoutError user_id (view d) e
            × (view placing.1 ≡ view d)
            × (x ≡ (err e, placing.1)))
  unfolding checkout
  checkout_outcome publish user_id payment_method d =
      let after : Order × Cart → Action D OrderResponse =
        (λ done. publish_payment_order publish done.0 done.1 >> pure (to_order_response done.0)) in
      elim (create-Atomic user_id payment_method d) [
        | inl (done, e, how) ↦ inl (
          done.0,
          done.1,
          how,
          bind_ok (create_order_from_active_cart m user_id payment_method) after d done e
              ∙ rw
                  (published publish done.0 done.1
                    (create_order_from_active_cart m user_id payment_method d).1)
                  refl,
        )
        | inr (e, kind, h, same) ↦ inr (
          e,
          kind,
          same,
          bind_err (create_order_from_active_cart m user_id payment_method) after d e h,
        )
      ]

  -- Either the user's active cart, which has items, was turned into one order: the cart is completed,
  -- the order has the cart's total. With these committed the message of the order
  -- is given to what publishes it, once, whose failure does not show in the answer. Or an error is
  -- thrown, the tables are as before and nothing is given to publish: a refusal, or 422 when the user
  -- has no active cart with items.
  pub checkout_effect :
      (publish : PaymentOrderMessage → Action D (Unit {0})) (user_id payment_method : String)
      (d : D)
      → let placing = create_order_from_active_cart m user_id payment_method d in
        let x = checkout m publish user_id payment_method d in
        ((order : Order) × (cart : Cart) × Placed user_id payment_method
            (view d)
            order
            cart
            (view placing.1)
          × (x ≡ (
            ok (to_order_response order),
            (publish (to_payment_order_message order cart) placing.1).1,
          )))
        ⊎ ((e : Error) × IsCheckoutError user_id (view d) e
            × (view placing.1 ≡ view d)
            × (x ≡ (err e, placing.1)))
  checkout_effect publish user_id payment_method d =
      elim (checkout_outcome publish user_id payment_method d) [
        | inl (order, cart, (sound, how), e) ↦ inl (order, cart, how, e)
        | inr bad ↦ inr bad
      ]

  -- An order is answered only to the user whose it is; the tables stay as they are. An order that does
  -- not exist and an order of another user are the same 404.
  pub find_by_id_effect :
      (user_id id : String) (d : D)
      → let x = find_by_id_for_user m user_id id d in
        (view x.1 ≡ view d)
        × (((order : Order) × (x.0 ≡ ok (to_order_response order))
              × (order.id ≡ id)
              × (order.user_id ≡ user_id))
            ⊎ ((x.0 ≡ err order_not_found)
                × (find (λ o. (o.id =ₛ id) && (o.user_id =ₛ user_id)) (view d).orders ≡ none))
            ⊎ ((e : Error) × IsRefusal e × (x.0 ≡ err e)))
  unfolding find_by_id_for_user
  find_by_id_effect user_id id d =
      let test : Order → _ = (λ o. (o.id =ₛ id) && (o.user_id =ₛ user_id)) in
      let next : Option Order → Action D OrderResponse =
        (λ found. or_raise found order_not_found >>= λ order. pure (to_order_response order)) in
      elim (laws.finds_order test d) [
        | inl (e, same) ↦
            rw (bind_ok (m.find_order test) next d (find test (view d).orders) e)
              (elim (Option-cases (find test (view d).orders)) [
                | inl missing ↦ rw missing (same, inr (inl (refl, refl)))
                | inr (order, hit) ↦
                    let matches = find_holds test (view d).orders order hit in
                    rw hit (
                      same,
                      inl (
                        order,
                        refl,
                        ground (arith, eq_iff order.id id),
                        ground (arith, eq_iff order.user_id user_id),
                      ),
                    )
              ])
        | inr ((code, e), same) ↦
            rw (bind_err (m.find_order test) next d (query_failed code) e)
              (same, inr (inr (query_failed code, (code, refl), refl)))
      ]
