-- ===== src/Gateway/Tests/Proxied.antt =====
-- Calls through the proxy on concrete processes.
use study_microsservices_nod.Base.{
  true, ltb, some, inl, inr, insert, ℕ, ◌≡◌, refl, String, none, get, [], ◌∷◌, Value, Action, err,
  ok, plain, http, arith,
}
use study_microsservices_nod.Base.Values.{null, num}
use study_microsservices_nod.Gateway.Process.{opened, closed, half_open, set_cell}
use study_microsservices_nod.Gateway.Config.{ServiceUrls, service_config, users, products, checkout}
use study_microsservices_nod.Gateway.CircuitBreaker.{
  on_success, get_or_create_circuit, execute_with_circuit_breaker,
}
use study_microsservices_nod.Gateway.Retry.{execute_with_exponential_backoff}
use study_microsservices_nod.Gateway.Timeout.{execute_with_custom_timeout}
use study_microsservices_nod.Gateway.Fallback.{create_cache_fallback}
use study_microsservices_nod.Gateway.Proxy
use study_microsservices_nod.Gateway.Proxy.{
  breaker_options, HttpRequest, HttpResponse, create_service_fallback, proxy_request,
  error_response, http_request,
}
use study_microsservices_nod.Gateway.Proxy.Fallbacks.{
  no_service, HoldsNoUser, users_outage_succeeds,
}
use study_microsservices_nod.Gateway.Proxy.Requests.{client_error_thrown, answer_cached}
use study_microsservices_nod.Gateway.Proxy.Outages.{after_calls, three_failures_open}
use study_microsservices_nod.Gateway.Tests.{Gateway, circuit, process}

abbrev pub urls : ServiceUrls
urls = record {
  users_service_url = none;
  products_service_url = none;
  checkout_service_url = none;
  payments_service_url = none;
}

abbrev show : ℕ → String
show n = "0"

-- A network in which nothing answers, and one in which every answer is the same.
abbrev silent : HttpRequest → Action Gateway HttpResponse
silent x p = (err (plain "down"), p)

abbrev answers : ℕ → Value → HttpRequest → Action Gateway HttpResponse
answers status content x p = (ok (record { status = status; content = content }), p)

abbrev pub fail_login : Gateway → Gateway
fail_login p = (proxy_request urls show silent users Proxy.post "/auth/login" null [] none p).1

-- Three logins have found the users service down.
abbrev pub down : Gateway
down = fail_login (fail_login (fail_login (process "proxy-users" 100 (circuit closed 0))))

pub down_reached :
    (get "proxy-users" down.circuits ≡ some 0)
    × ((down.cells 0).state ≡ opened)
    × (ltb down.clock (down.cells 0).next_attempt_time ≡ true)
    × (HoldsNoUser down)
unfolding proxy_request get execute_with_circuit_breaker execute_with_exponential_backoff
    execute_with_custom_timeout service_config create_service_fallback create_cache_fallback insert
down_reached = (refl, refl, refl, inr (_, refl))

users_outage_succeeds_example :
    let (answer, q) =
      proxy_request urls show silent users Proxy.post "/auth/login" null [] none down in
    (answer ≡ ok no_service) × HoldsNoUser q
users_outage_succeeds_example =
    let (hit, is_open, early, held) = down_reached in
    users_outage_succeeds urls show silent Proxy.post "/auth/login" null [] none down 0 held hit
      is_open (ground (arith, early))

abbrev stocked : Gateway
stocked = record (process "proxy-products" 100 (circuit opened 3)) {
  cache = ("products-/products", record { content = num 4; timestamp = 50 }) ∷ [];
}

-- A circuit whose time has come, and what a call makes of it.
abbrev due : String → Gateway
due key = process key 40000 (circuit opened 3)

abbrev probing : String → Gateway
probing key = set_cell 0 (circuit half_open 3) (due key)

client_error_thrown_example :
    proxy_request urls show
      (answers 404 (num 4))
      users
      Proxy.get
      "/users/1"
      null
      []
      none
      (due "proxy-users")
    ≡ (err (http 404 (error_response show (num 4))), on_success 0 (probing "proxy-users"))
unfolding get service_config
client_error_thrown_example =
    client_error_thrown urls show (answers 404 (num 4)) users Proxy.get "/users/1" null [] none
      (due "proxy-users") (probing "proxy-users") (probing "proxy-users") 0
      (record { status = 404; content = num 4 }) (inr (inr (refl, refl, omega arith, refl))) refl
      (omega arith) (omega arith) (omega arith)

-- A process without circuits.
abbrev started : Gateway
started = record (process "" 100 (circuit closed 0)) { circuits = [] }

abbrev created : Gateway
created = (get_or_create_circuit "proxy-products" breaker_options started).1

answer_cached_example :
    (proxy_request urls show
      (answers 200 (num 4))
      products
      Proxy.get
      "/products"
      null
      []
      none
      started).0
    ≡ ok (num 4)
unfolding get service_config get_or_create_circuit
answer_cached_example =
    (answer_cached urls show (answers 200 (num 4)) products Proxy.get "/products" null [] none
      started created created 1 (record { status = 200; content = num 4 }) (inl (refl, refl)) refl
      (omega arith) 200 refl (omega arith) (omega arith)).0

three_failures_open_example :
    let q =
      after_calls urls show silent
        (λ x q. (tt, refl, refl))
        checkout
        Proxy.get
        "/orders"
        null
        []
        none
        (process "proxy-checkout" 100 (circuit closed 1))
        0
        2 in
    ((q.cells 0).failure_count ≡ 3) × ((q.cells 0).state ≡ opened)
unfolding get
three_failures_open_example =
    three_failures_open urls show silent (λ x q. (tt, refl, refl)) checkout Proxy.get "/orders" null
      [] none (process "proxy-checkout" 100 (circuit closed 1)) 0 2 refl refl (omega arith)
      (omega arith)
