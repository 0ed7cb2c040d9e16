-- ===== src/Gateway/Proxy/Requests.antt =====
-- What a client gets of a service that answers.
use study_microsservices_nod.Base.{
  ℕ, ◌<◌, ◌+◌, ◌≤◌, ◌≡◌, refl, ap, String, true, false, Option, Map, Value, Action, http, err, ok,
  ◌+ₛ◌, arith,
}
use study_microsservices_nod.Gateway.Process.{Process}
use study_microsservices_nod.Gateway.Config.{ServiceName, ServiceUrls, name_of, service_config}
use study_microsservices_nod.Gateway.CircuitBreaker.{settle, on_success}
use study_microsservices_nod.Gateway.CircuitBreaker.Ending.{Admitted, Admitted-runs}
use study_microsservices_nod.Gateway.Retry.{execute_with_exponential_backoff, default_options}
use study_microsservices_nod.Gateway.Retry.Laws.{first_success_wins}
use study_microsservices_nod.Gateway.Timeout.{execute_with_custom_timeout}
use study_microsservices_nod.Gateway.Fallback.{default_timeout, get_cached_data, set_cached_data}
use study_microsservices_nod.Gateway.Fallback.Laws.{cached_in_time}
use study_microsservices_nod.Gateway.Proxy.{
  HttpMethod, HttpRequest, HttpResponse, ProxiedResponse, UserPayload, breaker_options,
  http_request, error_response, receive, send, deliver, proxy_request,
}

-- An operation that succeeds at once is not retried.
backoff_succeeds :
    {N T : Type 0} (operation : Action (Process N) T) (max_retries : ℕ) (p q : Process N) (a : T)
    → operation p ≡ (ok a, q)
    → execute_with_exponential_backoff operation max_retries p ≡ (ok a, q)
unfolding execute_with_exponential_backoff
backoff_succeeds operation max_retries p q a h =
    let o = record default_options { max_retries = max_retries } in
    ground (arith, first_success_wins operation o p 0 a)

-- A service answers the first attempt of a call in time, whose circuit is new, not open, or half-open; the
-- attempt begins at `p'`.
module _ {N : Type 0} (env : ServiceUrls) (show : ℕ → String)
    (request : HttpRequest → Action (Process N) HttpResponse) (service : ServiceName)
    (method : HttpMethod) (path : String) (body : Value) (headers : Map Value)
    (user : Option UserPayload) (p p' q : Process N) (r : ℕ) (response : HttpResponse)
    (admitted : Admitted ("proxy-" +ₛ name_of service) breaker_options p r p')
    (answered : request (http_request env service method path body headers user) p'
      ≡ (ok response, q))
    (in_time : q.clock ≤ p'.clock + (service_config env service).timeout) where
  sent :
      (response' : ProxiedResponse) (q' : Process N)
      → receive service method path response q ≡ (ok response', q')
      → q'.clock ≡ q.clock
      → execute_with_custom_timeout
          (send env show request service method path body headers user)
          (service_config env service).timeout
          p'
        ≡ (ok response', q')
  unfolding send execute_with_custom_timeout
  sent response' q' h same = rw (answered, h) (ground arith)

  passed :
      (response' : ProxiedResponse) (q' : Process N)
      → receive service method path response q ≡ (ok response', q')
      → q'.clock ≡ q.clock
      → proxy_request env show request service method path body headers user p
        ≡ deliver show response' (on_success r q')
  unfolding proxy_request settle
  passed response' q' h same = rw (
    Admitted-runs _ breaker_options p _ _ r p' admitted,
    backoff_succeeds _ 4 p' q' response' (sent response' q' h same),
  )

  -- A client error that the first attempt gets, in time, on a circuit that is new, not open or half-open,
  -- is the caller's: it is thrown with its status and the response that `error_response` makes of its
  -- content, nothing is retried or cached, and for the circuit it is a success.
  pub client_error_thrown :
      400 ≤ response.status
      → response.status < 500
      → proxy_request env show request service method path body headers user p
        ≡ (err (http response.status (error_response show response.content)), on_success r q)
  unfolding receive deliver
  client_error_thrown low high = rw (
      passed
        (record { content = response.content; status = response.status; is_client_error = true }) q
        (ground arith) refl)

  -- An answer of a status below 400 that the first attempt of a `get` gets, in time, on a circuit that is
  -- new, not open or half-open, is returned, and is cached under the service and the path; the cache
  -- gives it back until five minutes after.
  pub answer_cached :
      (elapsed : ℕ)
      → method ≡ HttpMethod.get
      → response.status < 400
      → elapsed ≤ default_timeout
      → let (result, q') = proxy_request env show request service method path body headers user p in
        (result ≡ ok response.content)
        × ((get_cached_data
              (name_of service +ₛ "-" +ₛ path)
              default_timeout
              (record q' { clock = q.clock + elapsed })).0
            ≡ response.content)
  unfolding receive deliver set_cached_data on_success
  answer_cached elapsed is_get good soon =
      let received : receive service method path response q ≡ (
        ok (record {
          content = response.content;
          status = response.status;
          is_client_error = false;
        }),
        set_cached_data (name_of service +ₛ "-" +ₛ path) response.content q,
      ) =
        ground arith in
      rw (passed _ _ received refl) (
        refl,
        ap (λ x. x.0)
            (cached_in_time (name_of service +ₛ "-" +ₛ path) response.content default_timeout
              (on_success r q) elapsed soon),
      )
