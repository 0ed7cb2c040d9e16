-- ===== src/Gateway/Routes/Identity.antt =====
-- Who a request to a service says it is from.
use study_microsservices_nod.Base.{◌≡◌, refl, get, insert, some}
use study_microsservices_nod.Base.Values.{str}
use study_microsservices_nod.Gateway.Config.{ServiceUrls}
use study_microsservices_nod.Gateway.Proxy.{HttpRequest, enhanced_headers, http_request}
use study_microsservices_nod.Gateway.Routes.{
  Call, Authenticated, Route, cart_add, cart_get, cart_remove, cart_checkout, orders_all,
  orders_one, products_create, payments_one, users_profile, users_sellers, call_of, add_item,
  get_cart, remove_item, finish_cart, find_orders, find_order, create_product, find_payment,
  get_profile, get_active_sellers,
}

-- The HTTP request of a call.
abbrev pub sent_for : ServiceUrls → Call → HttpRequest
sent_for env call =
    http_request env call.service call.method call.path call.body call.headers call.user

-- The request names this user, and carries the token it came with.
abbrev pub IsFrom : Authenticated → HttpRequest → Type 0
IsFrom request sent =
    (get "Authorization" sent.headers ≡ some request.authorization)
    × (get "x-user-id" sent.headers ≡ some (str request.user.user_id))
    × (get "x-user-email" sent.headers ≡ some (str request.user.email))
    × (get "x-user-role" sent.headers ≡ some (str request.user.role))

-- Each handler that the guard protects sends a request to a service that names the user whom the guard
-- found, and that carries the token of the request to the gateway.
pub route-IsFrom :
    (env : ServiceUrls) (route : Route) (request : Authenticated)
    → IsFrom request (sent_for env (call_of route request))
unfolding add_item get_cart remove_item finish_cart find_orders find_order create_product
    find_payment get_profile get_active_sellers http_request enhanced_headers insert get
route-IsFrom env (cart_add input) request = (refl, refl, refl, refl)
route-IsFrom env cart_get request = (refl, refl, refl, refl)
route-IsFrom env (cart_remove id) request = (refl, refl, refl, refl)
route-IsFrom env (cart_checkout input) request = (refl, refl, refl, refl)
route-IsFrom env orders_all request = (refl, refl, refl, refl)
route-IsFrom env (orders_one id) request = (refl, refl, refl, refl)
route-IsFrom env (products_create input) request = (refl, refl, refl, refl)
route-IsFrom env (payments_one id) request = (refl, refl, refl, refl)
route-IsFrom env users_profile request = (refl, refl, refl, refl)
route-IsFrom env users_sellers request = (refl, refl, refl, refl)
