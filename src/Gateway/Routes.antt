-- ===== src/Gateway/Routes.antt =====
-- The handlers of the gateway's controllers: api-gateway/src/checkout/cart.controller.ts and
-- orders.controller.ts, products/products.controller.ts, payments/payments.controller.ts and
-- users/users.controller.ts. Each makes one call of the proxy.
pub mod Identity
use study_microsservices_nod.Base.{
  ℕ, String, ◌+ₛ◌, Option, none, some, List, [], ◌∷◌, Map, Value, Action,
}
use study_microsservices_nod.Base.Values.{undefined, str}
use study_microsservices_nod.Gateway.Process.{Process}
use study_microsservices_nod.Gateway.Config.{
  ServiceName, ServiceUrls, users, products, checkout, payments,
}
use study_microsservices_nod.Gateway.Proxy.{
  HttpMethod, get, post, delete, HttpRequest, HttpResponse, UserPayload, proxy_request,
}

-- The arguments of `proxyRequest`.
pub record Call : Type 0 where
  pub service : ServiceName
  pub method : HttpMethod
  pub path : String
  pub body : Value
  pub headers : Map Value
  pub user : Option UserPayload

-- A request that the guard has let through: its `Authorization` header and `request.user`.
pub record Authenticated : Type 0 where
  pub authorization : Value
  pub user : UserPayload

-- A call on behalf of the user.
abbrev pub call_for : Authenticated → ServiceName → HttpMethod → String → Value → Call
call_for request service method path body = record {
  service = service;
  method = method;
  path = path;
  body = body;
  headers = ("Authorization", request.authorization) ∷ [];
  user = some request.user;
}

-- A call of a public route.
abbrev pub public_call : ServiceName → HttpMethod → String → Call
public_call service method path = record {
  service = service;
  method = method;
  path = path;
  body = undefined;
  headers = [];
  user = none;
}

unfoldable pub add_item : Value → Authenticated → Call
add_item input request = call_for request checkout post "/cart/items" input

unfoldable pub get_cart : Authenticated → Call
get_cart request = call_for request checkout get "/cart" undefined

unfoldable pub remove_item : String → Authenticated → Call
remove_item item_id request = call_for request checkout delete ("/cart/items/" +ₛ item_id) undefined

unfoldable pub finish_cart : Value → Authenticated → Call
finish_cart input request = call_for request checkout post "/cart/checkout" input

unfoldable pub find_orders : Authenticated → Call
find_orders request = call_for request checkout get "/orders" undefined

unfoldable pub find_order : String → Authenticated → Call
find_order id request = call_for request checkout get ("/orders/" +ₛ id) undefined

unfoldable pub find_active_products : Call
find_active_products = public_call products get "/products"

unfoldable pub find_seller_products : String → Call
find_seller_products seller_id = public_call products get ("/products/seller/" +ₛ seller_id)

unfoldable pub find_product : String → Call
find_product id = public_call products get ("/products/" +ₛ id)

unfoldable pub create_product : Value → Authenticated → Call
create_product input request = call_for request products post "/products" input

unfoldable pub find_payment : String → Authenticated → Call
find_payment order_id request = call_for request payments get ("/payments/" +ₛ order_id) undefined

unfoldable pub get_profile : Authenticated → Call
get_profile request = call_for request users get "/users/profile" undefined

unfoldable pub get_active_sellers : Authenticated → Call
get_active_sellers request = call_for request users get "/users/sellers" undefined

-- The handlers, as the controllers are asked for them.
pub data Route : Type 0 where
  cart_add : Value → Route
  cart_get : Route
  cart_remove : String → Route
  cart_checkout : Value → Route
  orders_all : Route
  orders_one : String → Route
  products_create : Value → Route
  payments_one : String → Route
  users_profile : Route
  users_sellers : Route

-- The call of a handler that the guard protects.
abbrev pub call_of : Route → Authenticated → Call
call_of (cart_add input) = add_item input
call_of cart_get = get_cart
call_of (cart_remove id) = remove_item id
call_of (cart_checkout input) = finish_cart input
call_of orders_all = find_orders
call_of (orders_one id) = find_order id
call_of (products_create input) = create_product input
call_of (payments_one id) = find_payment id
call_of users_profile = get_profile
call_of users_sellers = get_active_sellers

module _ {N : Type 0} (env : ServiceUrls) (show : ℕ → String)
    (request : HttpRequest → Action (Process N) HttpResponse) where
  unfoldable pub proxy_call : Call → Action (Process N) Value
  unfolding proxy_request
  proxy_call call =
      proxy_request env show request call.service call.method call.path call.body call.headers
        call.user
