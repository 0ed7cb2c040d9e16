-- ===== src/Checkout/Sound.antt =====
-- The operations of the checkout service one after another.
use study_microsservices_nod.Base.{ℕ, ◌≡◌, ap, inl, inr, String, List, [], ◌∷◌, Action}
use study_microsservices_nod.Checkout.Orders.{ExternalProduct, PaymentOrderMessage}
use study_microsservices_nod.Checkout.Store.{Manager, IsManager}
use study_microsservices_nod.Checkout.Cart.{get_cart, add_item, remove_item_of}
use study_microsservices_nod.Checkout.Cart.Tables.{IsSound}
use study_microsservices_nod.Checkout.Cart.Effects.{
  get_cart_effect, add_item_outcome, remove_item_outcome,
}
use study_microsservices_nod.Checkout.Ordering.{checkout, find_by_id_for_user}
use study_microsservices_nod.Checkout.Ordering.Effects.{checkout_outcome, find_by_id_effect}

-- The requests that the service answers, with their users.
pub data Operation : Type 0 where
  see_cart : String → Operation
  add : String → String → ℕ → Operation
  remove : String → String → Operation
  order : String → String → Operation
  see_order : String → String → Operation

-- With the look-up of products and what publishes a message, which leave the tables alone.
module _ {D : Type 0} (m : Manager D) (laws : IsManager m)
    (fetch : String → Action D ExternalProduct)
    (publish : PaymentOrderMessage → Action D (Unit {0}))
    (fetch_still : (id : String) (d : D) → m.view (fetch id d).1 ≡ m.view d)
    (publish_still : (message : PaymentOrderMessage) (d : D)
      → m.view (publish message d).1 ≡ m.view d) where
  open m use {view}

  -- The state after an operation, whatever it answers.
  abbrev pub after : Operation → D → D
  after (see_cart user_id) d = (get_cart m user_id d).1
  after (add user_id product_id n) d = (add_item m fetch user_id product_id n d).1
  after (remove user_id item_id) d = (remove_item_of m user_id item_id d).1
  after (order user_id payment_method) d = (checkout m publish user_id payment_method d).1
  after (see_order user_id id) d = (find_by_id_for_user m user_id id d).1

  abbrev pub after_all : List Operation → D → D
  after_all [] d = d
  after_all (operation ∷ operations) d = after_all operations (after operation d)

  after-IsSound :
      (operation : Operation) (d : D) → IsSound (view d) → IsSound (view (after operation d))
  after-IsSound (see_cart user_id) d sound = rw (get_cart_effect m laws user_id d).0 sound
  after-IsSound (add user_id product_id n) d sound =
      elim (add_item_outcome m laws fetch fetch_still user_id product_id n d) [
        | inl (answer, product, h, on_sale, done, (keeps, added)) ↦ keeps sound
        | inr (e, thrown, same, why) ↦ rw same sound
      ]
  after-IsSound (remove user_id item_id) d sound =
      elim (remove_item_outcome m laws user_id item_id d) [
        | inl (answer, done, (item, here, (keeps, removed))) ↦ keeps sound
        | inr (e, why, thrown, same) ↦ rw same sound
      ]
  after-IsSound (order user_id payment_method) d sound =
      elim (checkout_outcome m laws publish user_id payment_method d) [
        | inl (placed, cart, (keeps, how), e) ↦
            let kept = keeps sound in rw (ap (λ x. view x.1) e, publish_still) kept
        | inr (e, why, same, thrown) ↦ rw (ap (λ x. view x.1) thrown, same) sound
      ]
  after-IsSound (see_order user_id id) d sound = rw (find_by_id_effect m laws user_id id d).0 sound

  -- Whatever operations are asked for, by whichever users, and however each ends, if it was so at the
  -- start: every item's subtotal is its price times its quantity, every cart's total is that of its
  -- items, an active cart has no order and any other at most one.
  pub operations-IsSound :
      (operations : List Operation) (d : D)
      → IsSound (view d)
      → IsSound (view (after_all operations d))
  operations-IsSound [] d sound = sound
  operations-IsSound (operation ∷ operations) d sound =
      operations-IsSound operations (after operation d) (after-IsSound operation d sound)
