-- ===== src/Gateway/Proxy.antt =====
-- api-gateway/src/proxy/service/proxy.service.ts. The HTTP client is a parameter: it answers a request
-- or throws, and changes the process by what happens while it is awaited.
pub mod Fallbacks
pub mod Requests
pub mod Outages
use text.Mathlib.Text.{find?}
use study_microsservices_nod.Base.{
  ℕ, String, Bool, true, false, not, ◌&&◌, ◌||◌, Option, none, some, Map, insert, Value, Action,
  ◌>>=◌, pure, raise, plain, http, leb, ltb, ◌=ₛ◌, ◌+ₛ◌, is_some, if◌then◌else◌, Error,
}
use study_microsservices_nod.Base.Values.{
  undefined, null, bool, num, str, array, object, no_elements, no_members, member,
}
use study_microsservices_nod.Gateway.Process.{Process, CircuitBreakerOptions}
use study_microsservices_nod.Gateway.Config.{ServiceName, ServiceUrls, name_of, service_config}
use study_microsservices_nod.Gateway.CircuitBreaker.{execute_with_circuit_breaker}
use study_microsservices_nod.Gateway.Retry.{execute_with_exponential_backoff}
use study_microsservices_nod.Gateway.Timeout.{execute_with_custom_timeout}
use study_microsservices_nod.Gateway.Fallback.{
  default_timeout, set_cached_data, create_cache_fallback, create_error_fallback,
}

pub data HttpMethod : Type 0 where
  get post put delete patch : HttpMethod

abbrev pub is_get : HttpMethod → Bool
is_get get = true
is_get _ = false

-- The configuration that Axios gets; a header may be `undefined`.
pub record HttpRequest : Type 0 where
  pub method : HttpMethod
  pub url : String
  pub body : Value
  pub headers : Map Value
  pub timeout : ℕ
  pub validate_status : ℕ → Bool

pub record HttpResponse : Type 0 where
  pub status : ℕ
  pub content : Value

pub record UserPayload : Type 0 where
  pub user_id : String
  pub email : String
  pub role : String

pub record ProxiedResponse : Type 0 where
  pub content : Value
  pub status : ℕ
  pub is_client_error : Bool

-- `path.includes(part)`
abbrev pub includes : String → String → Bool
includes path part = is_some (find? path part)

-- 2xx and 4xx.
abbrev pub validate_status : ℕ → Bool
validate_status status = (leb 200 status && ltb status 300) || (leb 400 status && ltb status 500)

abbrev pub breaker_options : CircuitBreakerOptions
breaker_options = record { failure_threshold = 3; timeout = 30000; reset_timeout = 30000 }

-- `userInfo?.field`
abbrev pub user_field : (UserPayload → String) → Option UserPayload → Value
user_field part none = undefined
user_field part (some user) = str (part user)

unfoldable pub enhanced_headers : Map Value → Option UserPayload → Map Value
enhanced_headers headers user = insert "x-user-role" (user_field (λ u. u.role) user) (
    insert "x-user-email" (user_field (λ u. u.email) user)
      (insert "x-user-id" (user_field (λ u. u.user_id) user) headers))

-- `String(data)` of what is no text and no object; a number is written by `show`.
pub to_text : (ℕ → String) → Value → String
to_text show undefined = "undefined"
to_text show null = "null"
to_text show (bool true) = "true"
to_text show (bool false) = "false"
to_text show (num n) = show n
to_text show (str s) = s
to_text show (array xs) = ""
to_text show (object fs) = "[object Object]"

-- The response of the `HttpException` for a client error.
pub error_response : (ℕ → String) → Value → Value
unfolding to_text
error_response show (str s) = str s
error_response show (array xs) = array xs
error_response show (object fs) = object fs
error_response show v = object (member "message" (str (to_text show v)) no_members)

module _ {N : Type 0} where
  unfoldable pub create_service_fallback : String → HttpMethod → String → Action (Process N) Value
  create_service_fallback service_name method path =
      if service_name =ₛ "user"
      then (if includes path "/auth"
          then create_error_fallback
              "Authentication service is currently unavailable. Please try again later."
          else create_error_fallback
              "User service is currently unavailable. Please try again later.")
      else if service_name =ₛ "products"
      then (if is_get method
          then create_cache_fallback ("products-" +ₛ path)
              (object (member "products" (array no_elements) no_members)) default_timeout
          else create_error_fallback
              "Products service is currently unavailable. Please try again later.")
      else if service_name =ₛ "checkout"
      then create_error_fallback
          "Checkout service is currently unavailable. Please try again later."
      else if service_name =ₛ "payments"
      then create_error_fallback
          "Payments service is currently unavailable. Please try again later."
      else create_cache_fallback service_name (str "Service unavailable. Please try again later.")
          default_timeout

  -- The fallback that the circuit breaker gets.
  pub proxied_fallback : Action (Process N) Value → Action (Process N) ProxiedResponse
  proxied_fallback fallback = do
    content ← fallback
    pure (record { content = content; status = 200; is_client_error = false })

  pub deliver : (ℕ → String) → ProxiedResponse → Action (Process N) Value
  unfolding error_response
  deliver show r =
      if r.is_client_error
      then raise (http r.status (error_response show r.content))
      else pure r.content

  -- What is made of a response: an answer to a `get` is cached, unless it is a client error.
  pub receive :
      ServiceName → HttpMethod → String → HttpResponse → Action (Process N) ProxiedResponse
  receive service method path response p =
      let is_client_error = leb 400 response.status && ltb response.status 500 in
      pure
        (record {
          content = response.content;
          status = response.status;
          is_client_error = is_client_error;
        })
        (if is_get method && not is_client_error
          then set_cached_data (name_of service +ₛ "-" +ₛ path) response.content p
          else p)

-- The request that is sent for a call.
unfoldable pub http_request :
    ServiceUrls
    → ServiceName
    → HttpMethod
    → String
    → Value
    → Map Value
    → Option UserPayload
    → HttpRequest
http_request env service method path body headers user = record {
  method = method;
  url = (service_config env service).url +ₛ path;
  body = body;
  headers = enhanced_headers headers user;
  timeout = (service_config env service).timeout;
  validate_status = validate_status;
}

module _ {N : Type 0} (env : ServiceUrls) (show : ℕ → String)
    (request : HttpRequest → Action (Process N) HttpResponse) where
  -- One attempt, within its timeout.
  pub send :
      ServiceName
      → HttpMethod
      → String
      → Value
      → Map Value
      → Option UserPayload
      → Action (Process N) ProxiedResponse
  unfolding receive
  send service method path body headers user = do
    response ← request (http_request env service method path body headers user)
    receive service method path response

  -- The three layers round `send`: timeout, retry, circuit breaker.
  pub protected :
      ServiceName
      → HttpMethod
      → String
      → Value
      → Map Value
      → Option UserPayload
      → Action (Process N) ProxiedResponse
  unfolding send proxied_fallback
  protected service method path body headers user =
      execute_with_circuit_breaker
        (execute_with_exponential_backoff
          (execute_with_custom_timeout (send service method path body headers user)
            (service_config env service).timeout)
          4)
        ("proxy-" +ₛ name_of service)
        (some (proxied_fallback (create_service_fallback (name_of service) method path)))
        breaker_options

  unfoldable pub proxy_request :
      ServiceName
      → HttpMethod
      → String
      → Value
      → Map Value
      → Option UserPayload
      → Action (Process N) Value
  unfolding protected deliver
  proxy_request service method path body headers user = do
    response ← protected service method path body headers user
    deliver show response
