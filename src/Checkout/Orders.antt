-- ===== src/Checkout/Orders.antt =====
-- What the checkout service writes into items, carts and orders, and sends to be paid:
-- checkout-service/src/cart/cart.service.ts, orders/orders.service.ts and
-- events/payment-queue/payment-order-message.mapper.ts. Times are milliseconds.
pub mod Amounts
use study_microsservices_nod.Base.{ℕ, ◌+◌, String, Bool, List, [], ◌∷◌, map}
use study_microsservices_nod.Payments.Money.{Number}
use study_microsservices_nod.Checkout.Money.{to_money, multiply_money, sum_money}

pub data CartStatus : Type 0 where
  active completed abandoned : CartStatus

pub record CartItem : Type 0 where
  pub id : String
  pub cart_id : String
  pub product_id : String
  pub product_name : String
  pub price : Number
  pub quantity : ℕ
  pub subtotal : Number
  pub created_at : ℕ

pub record Cart : Type 0 where
  pub id : String
  pub user_id : String
  pub status : CartStatus
  pub total : Number
  pub items : List CartItem
  pub created_at : ℕ
  pub updated_at : ℕ

-- The fields that are read.
pub record ExternalProduct : Type 0 where
  pub id : String
  pub name : String
  pub price : Number
  pub is_active : Bool

-- The item that `addItem` creates; the database gives it its id and time.
unfoldable pub new_item : String → ℕ → String → ExternalProduct → ℕ → CartItem
unfolding multiply_money
new_item id now cart_id product quantity = record {
  id = id;
  cart_id = cart_id;
  product_id = product.id;
  product_name = product.name;
  price = product.price;
  quantity = quantity;
  subtotal = multiply_money product.price quantity;
  created_at = now;
}

-- The item as `addItem` saves it when the cart has the product already.
unfoldable pub increased_item : CartItem → ℕ → CartItem
unfolding multiply_money
increased_item item added =
    let quantity = item.quantity + added in
    record item { quantity = quantity; subtotal = multiply_money item.price quantity }

-- The total that `saveRecalculatedTotal` writes.
unfoldable pub recalculated_total : List CartItem → Number
unfolding sum_money
recalculated_total items = sum_money (map (λ item. item.subtotal) items)

pub data OrderStatus : Type 0 where
  pending paid failed cancelled : OrderStatus

pub record Order : Type 0 where
  pub id : String
  pub user_id : String
  pub cart_id : String
  pub total : Number
  pub status : OrderStatus
  pub payment_method : String
  pub created_at : ℕ
  pub updated_at : ℕ

-- The order that `createOrderFromActiveCart` creates; the database gives it its id and times.
unfoldable pub new_order : String → ℕ → String → Cart → String → Order
unfolding to_money
new_order id now user_id cart payment_method = record {
  id = id;
  user_id = user_id;
  cart_id = cart.id;
  total = to_money cart.total;
  status = pending;
  payment_method = payment_method;
  created_at = now;
  updated_at = now;
}

pub record MessageItem : Type 0 where
  pub product_id : String
  pub quantity : ℕ
  pub price : Number

pub record PaymentOrderMessage : Type 0 where
  pub order_id : String
  pub user_id : String
  pub amount : Number
  pub items : List MessageItem
  pub payment_method : String
  pub created_at : ℕ

abbrev pub message_item : CartItem → MessageItem
message_item item = record {
  product_id = item.product_id;
  quantity = item.quantity;
  price = item.price;
}

unfoldable pub to_payment_order_message : Order → Cart → PaymentOrderMessage
to_payment_order_message order cart = record {
  order_id = order.id;
  user_id = order.user_id;
  amount = order.total;
  items = map message_item cart.items;
  payment_method = order.payment_method;
  created_at = order.created_at;
}
