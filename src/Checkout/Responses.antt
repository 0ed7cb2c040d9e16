-- ===== src/Checkout/Responses.antt =====
-- checkout-service/src/cart/cart-response.mapper.ts and orders/order-response.mapper.ts: what clients
-- see of carts and orders.
use study_microsservices_nod.Base.{ℕ, String, Option, none, some, List, [], map}
use study_microsservices_nod.Payments.Money.{Number, finite}
use study_microsservices_nod.Checkout.Money.{to_money}
use study_microsservices_nod.Checkout.Orders.{
  Cart, CartItem, CartStatus, active, Order, OrderStatus,
}

pub record CartItemResponse : Type 0 where
  pub id : String
  pub product_id : String
  pub product_name : String
  pub price : Number
  pub quantity : ℕ
  pub subtotal : Number

-- `null` is `none`.
pub record CartResponse : Type 0 where
  pub id : Option String
  pub user_id : String
  pub status : CartStatus
  pub items : List CartItemResponse
  pub total : Number
  pub created_at : Option ℕ
  pub updated_at : Option ℕ

unfoldable pub to_item_response : CartItem → CartItemResponse
unfolding to_money
to_item_response item = record {
  id = item.id;
  product_id = item.product_id;
  product_name = item.product_name;
  price = to_money item.price;
  quantity = item.quantity;
  subtotal = to_money item.subtotal;
}

unfoldable pub to_cart_response : Cart → CartResponse
unfolding to_item_response to_money
to_cart_response cart = record {
  id = some cart.id;
  user_id = cart.user_id;
  status = cart.status;
  items = map to_item_response cart.items;
  total = to_money cart.total;
  created_at = some cart.created_at;
  updated_at = some cart.updated_at;
}

unfoldable pub empty_cart_response : String → CartResponse
empty_cart_response user_id = record {
  id = none;
  user_id = user_id;
  status = active;
  items = [];
  total = finite 0;
  created_at = none;
  updated_at = none;
}

pub record OrderResponse : Type 0 where
  pub id : String
  pub user_id : String
  pub cart_id : String
  pub total : Number
  pub status : OrderStatus
  pub payment_method : String
  pub created_at : ℕ
  pub updated_at : ℕ

unfoldable pub to_order_response : Order → OrderResponse
unfolding to_money
to_order_response order = record {
  id = order.id;
  user_id = order.user_id;
  cart_id = order.cart_id;
  total = to_money order.total;
  status = order.status;
  payment_method = order.payment_method;
  created_at = order.created_at;
  updated_at = order.updated_at;
}
