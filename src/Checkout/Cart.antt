-- ===== src/Checkout/Cart.antt =====
-- checkout-service/src/cart/cart.service.ts, over a database and a way to look up a product.
pub mod Quantities
pub mod Tables
pub mod Totals
pub mod Steps
pub mod Adding
pub mod Removing
pub mod Effects
use study_microsservices_nod.Base.{
  ℕ, String, Bool, Option, none, some, List, map, Error, plain, http, Action, pure, raise, raise_if,
  or_raise, ◌>>=◌, ◌>>◌, ◌=ₛ◌, ◌&&◌, not, true, false,
}
use study_microsservices_nod.Base.Values.{str}
use study_microsservices_nod.Payments.Money.{finite}
use study_microsservices_nod.Checkout.Orders.{
  Cart, CartItem, CartStatus, active, completed, abandoned, ExternalProduct, new_item,
  increased_item, recalculated_total,
}
use study_microsservices_nod.Checkout.Store.{CartRow, Manager, has_cart}
use study_microsservices_nod.Checkout.Responses.{
  CartResponse, to_cart_response, empty_cart_response,
}

abbrev pub is_active_status : CartStatus → Bool
is_active_status active = true
is_active_status completed = false
is_active_status abandoned = false

-- `{ where: { userId, status: ACTIVE } }`
abbrev pub is_active_of : String → CartRow → Bool
is_active_of user_id row = (row.user_id =ₛ user_id) && is_active_status row.status

-- The row of a new cart.
unfoldable pub new_cart : String → String → ℕ → CartRow
new_cart user_id id now = record {
  id = id;
  user_id = user_id;
  status = active;
  total = finite 0;
  created_at = now;
  updated_at = now;
}

abbrev pub is_product_of : String → String → CartItem → Bool
is_product_of cart_id product_id item = (item.cart_id =ₛ cart_id) && (item.product_id =ₛ product_id)

abbrev pub is_item_of : String → String → CartItem → Bool
is_item_of cart_id item_id item = (item.id =ₛ item_id) && (item.cart_id =ₛ cart_id)

unfoldable pub response_of : String → Option Cart → CartResponse
unfolding to_cart_response empty_cart_response
response_of user_id none = empty_cart_response user_id
response_of user_id (some cart) = to_cart_response cart

abbrev pub item_not_found : Error
item_not_found = http 404 (str "Item não encontrado no carrinho")

module _ {D : Type 0} (m : Manager D) where
  open m use {
    find_cart, find_item, find_items, insert_cart, insert_item, save_item, remove_item,
    update_carts, transaction,
  }

  unfoldable pub find_active_cart : String → Action D (Option Cart)
  find_active_cart user_id = find_cart (is_active_of user_id)

  unfoldable pub get_cart : String → Action D CartResponse
  unfolding find_active_cart response_of
  get_cart user_id = do cart ← find_active_cart user_id; pure (response_of user_id cart)

  -- The id of the cart; nothing else of it is read.
  unfoldable pub or_create : String → Option Cart → Action D String
  unfolding new_cart
  or_create user_id (some cart) = pure cart.id
  or_create user_id none = do cart ← insert_cart (new_cart user_id); pure cart.id

  unfoldable pub find_or_create_active_cart : String → Action D String
  unfolding find_active_cart or_create
  find_or_create_active_cart user_id = do cart ← find_active_cart user_id; or_create user_id cart

  -- The cart as it is read back at the end.
  unfoldable pub answer_cart : String → Action D CartResponse
  unfolding to_cart_response
  answer_cart cart_id = do
    found ← find_cart (λ row. row.id =ₛ cart_id)
    cart ← or_raise found (plain "EntityNotFoundError")
    pure (to_cart_response cart)

  unfoldable pub save_recalculated_total : String → Action D CartResponse
  unfolding recalculated_total answer_cart
  save_recalculated_total cart_id = do
    items ← find_items (has_cart cart_id)
    affected ←
        update_carts (λ row. row.id =ₛ cart_id)
          (λ row. record row { total = recalculated_total items })
    answer_cart cart_id

  -- The `if` of `addItem`.
  unfoldable pub put_item : String → ExternalProduct → ℕ → Option CartItem → Action D CartItem
  unfolding increased_item new_item
  put_item cart_id product quantity (some existing_item) =
      save_item (increased_item existing_item quantity)
  put_item cart_id product quantity none =
      insert_item (λ id now. new_item id now cart_id product quantity)

  -- The body of the transaction of `addItem`.
  unfoldable pub add_product : String → ExternalProduct → ℕ → Action D CartResponse
  unfolding find_or_create_active_cart put_item save_recalculated_total
  add_product user_id product quantity = do
    cart_id ← find_or_create_active_cart user_id
    existing_item ← find_item (is_product_of cart_id product.id)
    item ← put_item cart_id product quantity existing_item
    save_recalculated_total cart_id

  unfoldable pub add_item :
      (String → Action D ExternalProduct) → String → String → ℕ → Action D CartResponse
  unfolding add_product
  add_item fetch_product user_id product_id quantity = do
    product ← fetch_product product_id
    raise_if (not product.is_active) (http 422 (str "Produto indisponível"))
        >> transaction (add_product user_id product quantity)

  -- The body of the transaction of `removeItem`.
  unfoldable pub remove_from_cart : String → String → Action D CartResponse
  unfolding find_active_cart save_recalculated_total
  remove_from_cart user_id item_id = do
    found ← find_active_cart user_id
    cart ← or_raise found item_not_found
    found_item ← find_item (is_item_of cart.id item_id)
    item ← or_raise found_item item_not_found
    remove_item item >> save_recalculated_total cart.id

  unfoldable pub remove_item_of : String → String → Action D CartResponse
  unfolding remove_from_cart
  remove_item_of user_id item_id = transaction (remove_from_cart user_id item_id)
