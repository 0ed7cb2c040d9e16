-- ===== src/Gateway/Proxy/Fallbacks.antt =====
-- What a client gets while the circuit of a service is open.
use study_microsservices_nod.Base.{
  get-insert_self, Bool-cases, ltb, ◌-◌, ◌⊎◌, inl, inr, ℕ, ◌<◌, ◌≡◌, refl, String, true, false,
  Option, none, some, Map, get, Value, Action, continue, plain, err, ok, Result, ◌+ₛ◌, arith, Error,
}
use study_microsservices_nod.Base.Values.{str, is_truthy}
use study_microsservices_nod.Gateway.Process.{Process, opened}
use study_microsservices_nod.Gateway.Config.{
  ServiceName, ServiceUrls, users, products, checkout, payments, name_of,
}
use study_microsservices_nod.Gateway.CircuitBreaker.Laws.{opened_falls_back}
use study_microsservices_nod.Gateway.Fallback.{
  default_timeout, get_cached_data, create_cache_fallback, create_error_fallback, set_cached_data,
}
use study_microsservices_nod.Gateway.Proxy
use study_microsservices_nod.Gateway.Proxy.{
  HttpMethod, HttpRequest, HttpResponse, ProxiedResponse, UserPayload, breaker_options,
  create_service_fallback, proxied_fallback, deliver, protected, proxy_request,
}

module _ {N : Type 0} where
  -- A fallback's answer passes through unchanged.
  deliver-fallback :
      (show : ℕ → String) (x : Result Value × Process N)
      → continue (deliver show) (
          continue
            (λ content q.
              (ok (record { content = content; status = 200; is_client_error = false }), q))
            x)
        ≡ x
  unfolding deliver
  deliver-fallback show (ok v, q) = refl
  deliver-fallback show (err e, q) = refl

module _ {N : Type 0} (env : ServiceUrls) (show : ℕ → String)
    (request : HttpRequest → Action (Process N) HttpResponse) (service : ServiceName)
    (method : HttpMethod) (path : String) (body : Value) (headers : Map Value)
    (user : Option UserPayload) (p : Process N) (r : ℕ)
    (hit : get ("proxy-" +ₛ name_of service) p.circuits ≡ some r)
    (broken : (p.cells r).state ≡ opened) (early : p.clock < (p.cells r).next_attempt_time) where
  -- While the circuit of a service is open, no request is sent to it: the client gets the fallback of
  -- the service.
  pub outage_falls_back :
      proxy_request env show request service method path body headers user p
      ≡ create_service_fallback (name_of service) method path p
  unfolding proxy_request
  outage_falls_back =
      rw
        (opened_falls_back _ breaker_options p _
          (proxied_fallback (create_service_fallback (name_of service) method path)) r hit broken
          early)
        (deliver-fallback show (create_service_fallback (name_of service) method path p))

abbrev pub no_service : Value
no_service = str "Service unavailable. Please try again later."

-- Under the name of the users service the cache holds nothing, or the text of its fallback.
abbrev pub HoldsNoUser : {N : Type 0} → Process N → Type 0
HoldsNoUser p =
    (get "users" p.cache ≡ none)
    ⊎ ((t : ℕ) × (get "users" p.cache ≡ some (record { content = no_service; timestamp = t })))

text_answered :
    {N : Type 0} (p : Process N)
    → HoldsNoUser p
    → let (answer, q) = create_cache_fallback "users" no_service default_timeout p in
      (answer ≡ ok no_service) × HoldsNoUser q
unfolding create_cache_fallback get_cached_data set_cached_data
text_answered p (inl uncached) = rw uncached (refl, inr (p.clock, get-insert_self _ _ _))
text_answered p (inr (t, cached)) = elim (Bool-cases (ltb default_timeout (p.clock - t))) [
  | inl late ↦ rw (cached, late) (refl, inr (p.clock, get-insert_self _ _ _))
  | inr fresh ↦ rw (cached, fresh) (refl, inr (t, cached))
]

-- The error of a service that must not be answered for.
abbrev pub unavailable : ServiceName → Option Error
unavailable checkout =
    some (plain "Checkout service is currently unavailable. Please try again later.")
unavailable payments =
    some (plain "Payments service is currently unavailable. Please try again later.")
unavailable _ = none

module _ {N : Type 0} (env : ServiceUrls) (show : ℕ → String)
    (request : HttpRequest → Action (Process N) HttpResponse) (method : HttpMethod) (path : String)
    (body : Value) (headers : Map Value) (user : Option UserPayload) (p : Process N) (r : ℕ) where
  -- Checkout and payments: every call fails with the error of the service, and changes nothing.
  pub guarded_outage_fails :
      (service : ServiceName) (e : Error)
      → unavailable service ≡ some e
      → get ("proxy-" +ₛ name_of service) p.circuits ≡ some r
      → (p.cells r).state ≡ opened
      → p.clock < (p.cells r).next_attempt_time
      → proxy_request env show request service method path body headers user p ≡ (err e, p)
  unfolding create_service_fallback create_error_fallback
  guarded_outage_fails users e h hit broken early = cc
  guarded_outage_fails products e h hit broken early = cc
  guarded_outage_fails checkout e h hit broken early =
      rw
        (outage_falls_back env show request checkout method path body headers user p r hit broken
          early)
        (ground arith)
  guarded_outage_fails payments e h hit broken early =
      rw
        (outage_falls_back env show request payments method path body headers user p r hit broken
          early)
        (ground arith)

  -- Users: the switch of the fallbacks has a case for "user" and none for "users". So while the circuit
  -- of the users service is open and its time has not come, every call succeeds, a login too, with a
  -- text in place of the data, and the cache goes on to hold nothing else under the name of the
  -- service, if it held at most that text there, which is all that a fallback puts there.
  pub users_outage_succeeds :
      HoldsNoUser p
      → get ("proxy-" +ₛ name_of users) p.circuits ≡ some r
      → (p.cells r).state ≡ opened
      → p.clock < (p.cells r).next_attempt_time
      → let (answer, q) = proxy_request env show request users method path body headers user p in
        (answer ≡ ok no_service) × HoldsNoUser q
  unfolding create_service_fallback
  users_outage_succeeds held hit broken early =
      rw
        (outage_falls_back env show request users method path body headers user p r hit broken
          early)
        (text_answered p held)

  -- Products: what was cached for the path is the answer, if it is in time and truthy.
  pub products_outage_cached :
      (content : Value)
      → (get_cached_data ("products-" +ₛ path) default_timeout p).0 ≡ content
      → is_truthy content ≡ true
      → get ("proxy-" +ₛ name_of products) p.circuits ≡ some r
      → (p.cells r).state ≡ opened
      → p.clock < (p.cells r).next_attempt_time
      → (proxy_request env show request products Proxy.get path body headers user p).0 ≡ ok content
  unfolding create_service_fallback create_cache_fallback get_cached_data
  products_outage_cached content cached good hit broken early =
      rw
        (outage_falls_back env show request products Proxy.get path body headers user p r hit broken
          early)
        (ground arith)
