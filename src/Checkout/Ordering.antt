-- ===== src/Checkout/Ordering.antt =====
-- checkout-service/src/orders/orders.service.ts, over the database and a way to publish a message.
pub mod Single
pub mod Placing
pub mod Effects
pub mod Concurrent
use study_microsservices_nod.Base.{
  ℕ, String, Bool, true, false, not, ◌&&◌, ◌=ₛ◌, ◌==◌, Option, none, some, List, [], ◌∷◌, map,
  Error, http, Action, pure, or_raise, raise_if, try_catch, ◌>>=◌, ◌>>◌,
}
use study_microsservices_nod.Base.Values.{str}
use study_microsservices_nod.Checkout.Orders.{
  Cart, CartItem, completed, Order, new_order, PaymentOrderMessage, to_payment_order_message,
}
use study_microsservices_nod.Checkout.Store.{CartRow, Manager}
use study_microsservices_nod.Checkout.Responses.{OrderResponse, to_order_response}
use study_microsservices_nod.Checkout.Cart.{is_active_of, is_active_status}

abbrev pub empty_cart : Error
empty_cart = http 422 (str "Não é possível finalizar um carrinho vazio")

abbrev pub order_not_found : Error
order_not_found = http 404 (str "Pedido não encontrado")

-- A cart that was found and is not empty.
abbrev pub unless_empty : Cart → List CartItem → Option Cart
unless_empty cart [] = none
unless_empty cart (item ∷ items) = some cart

unfoldable pub with_items : Option Cart → Option Cart
with_items none = none
with_items (some cart) = unless_empty cart cart.items

-- `{ id: cart.id, status: ACTIVE }`
abbrev pub is_still_active : String → CartRow → Bool
is_still_active cart_id row = (row.id =ₛ cart_id) && is_active_status row.status

-- `{ status: COMPLETED }`
abbrev pub complete : CartRow → CartRow
complete row = record row { status = completed }

-- With what publishes the message: a failure is logged.
unfoldable pub publish_payment_order :
    {D : Type 0} (publish : PaymentOrderMessage → Action D (Unit {0}))
    → Order
    → Cart
    → Action D (Unit {0})
unfolding to_payment_order_message
publish_payment_order publish order cart =
    try_catch (publish (to_payment_order_message order cart)) (λ e. pure tt)

module _ {D : Type 0} (m : Manager D) where
  open m use {find_cart, find_order, find_orders, insert_order, update_carts, transaction}

  -- The order and the cart that it is of.
  unfoldable pub place_order : String → String → Cart → Action D (Order × Cart)
  unfolding new_order
  place_order user_id payment_method cart = do
    order ← insert_order (λ id now. new_order id now user_id cart payment_method)
    pure (order, cart)

  -- The body of the transaction of `createOrderFromActiveCart`.
  unfoldable pub order_cart : String → String → Action D (Order × Cart)
  unfolding with_items place_order
  order_cart user_id payment_method = do
    found ← find_cart (is_active_of user_id)
    cart ← or_raise (with_items found) empty_cart
    affected ← update_carts (is_still_active cart.id) complete
    raise_if (not (affected == 1)) empty_cart >> place_order user_id payment_method cart

  unfoldable pub create_order_from_active_cart : String → String → Action D (Order × Cart)
  unfolding order_cart
  create_order_from_active_cart user_id payment_method =
      transaction (order_cart user_id payment_method)

  unfoldable pub checkout :
      (PaymentOrderMessage → Action D (Unit {0})) → String → String → Action D OrderResponse
  unfolding create_order_from_active_cart publish_payment_order to_order_response
  checkout publish user_id payment_method = do
    placed ← create_order_from_active_cart user_id payment_method
    publish_payment_order publish placed.0 placed.1 >> pure (to_order_response placed.0)

  unfoldable pub find_all_by_user : String → Action D (List OrderResponse)
  unfolding to_order_response
  find_all_by_user user_id = do
    orders ← find_orders (λ order. order.user_id =ₛ user_id)
    pure (map to_order_response orders)

  unfoldable pub find_by_id_for_user : String → String → Action D OrderResponse
  unfolding to_order_response
  find_by_id_for_user user_id id = do
    found ← find_order (λ order. (order.id =ₛ id) && (order.user_id =ₛ user_id))
    order ← or_raise found order_not_found
    pure (to_order_response order)
