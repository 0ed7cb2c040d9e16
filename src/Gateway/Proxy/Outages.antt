-- ===== src/Gateway/Proxy/Outages.antt =====
-- A service that cannot be reached: from the failing request to the open circuit.
use study_microsservices_nod.Base.{
  ℕ, zero, suc, ◌<◌, ◌+◌, ◌≤◌, ◌≡◌, refl, ◌∙◌, String, Option, some, Map, get, Value, Action,
  continue, err, ok, Result, ◌+ₛ◌, if◌then◌else◌, leb, arith, Error,
}
use study_microsservices_nod.Gateway.Process.{Process, opened, closed}
use study_microsservices_nod.Gateway.Config.{
  ServiceName, ServiceUrls, name_of, service_config, users, products, checkout, payments,
}
use study_microsservices_nod.Gateway.CircuitBreaker.Tripping.{IsCalm, calls, counts_failures}
use study_microsservices_nod.Gateway.Retry.{
  RetryOptions, RetryResult, failure, wait, after_attempt, give_up, attempt_from,
  execute_with_retry, execute_with_exponential_backoff, default_options,
}
use study_microsservices_nod.Gateway.Timeout.{race, execute_with_custom_timeout}
use study_microsservices_nod.Gateway.Fallback.{create_cache_fallback, create_error_fallback}
use study_microsservices_nod.Gateway.Proxy.{
  HttpMethod, HttpRequest, HttpResponse, ProxiedResponse, UserPayload, breaker_options,
  http_request, send, create_service_fallback, proxied_fallback, protected,
}

-- What a failing call has done: it has thrown, and has left the circuits alone.
module _ {T : Type 0} where
  abbrev IsErr : Result T → Type 0
  IsErr (ok a) = ⊥
  IsErr (err e) = Unit {0}

  error_of : (r : Result T) → IsErr r → (e : Error) × (r ≡ err e)
  error_of (ok a) h = absurd h
  error_of (err e) h = (e, refl)

module _ {N T : Type 0} where
  abbrev FailedFrom : Process N → Result T × Process N → Type 0
  FailedFrom p x = IsErr x.0 × (x.1.cells ≡ p.cells) × (x.1.circuits ≡ p.circuits)

  race-FailedFrom :
      (start_time timeout : ℕ) (p : Process N) (x : Result T × Process N)
      → FailedFrom p x
      → FailedFrom p (race start_time timeout x)
  unfolding race
  race-FailedFrom start_time timeout p (ok a, q) (h, c, d) = absurd h
  race-FailedFrom start_time timeout p (err e', q) f = ground arith

module _ {N : Type 0} where
  wait_same :
      (attempt : ℕ) (o : RetryOptions) (q : Process N)
      → ((wait attempt o q).cells ≡ q.cells) × ((wait attempt o q).circuits ≡ q.circuits)
  unfolding wait
  wait_same attempt o q = ground arith

module _ {N T : Type 0} (operation : Action (Process N) T)
    (fails : (q : Process N) → FailedFrom q (operation q)) where
  abbrev Failed : Process N → RetryResult T × Process N → Type 0
  Failed p x =
      (e : Error) × (x.0.settled ≡ failure e) × (x.1.cells ≡ p.cells) × (x.1.circuits ≡ p.circuits)

  after_attempt-Failed :
      (start_time attempt : ℕ) (next : Error → Process N → RetryResult T × Process N)
      (p : Process N) (x : Result T × Process N)
      → FailedFrom p x
      → ((e : Error) (q : Process N)
          → q.cells ≡ p.cells
          → q.circuits ≡ p.circuits
          → Failed p (next e q))
      → Failed p (after_attempt start_time attempt next x)
  unfolding after_attempt
  after_attempt-Failed start_time attempt next p (ok a, q) (h, c, d) k = absurd h
  after_attempt-Failed start_time attempt next p (err e, q) (h, c, d) k = k e q c d

  attempt_from-Failed :
      (o : RetryOptions) (start_time left attempt : ℕ) (p q : Process N)
      → q.cells ≡ p.cells
      → q.circuits ≡ p.circuits
      → Failed p (attempt_from operation o start_time left attempt q)
  unfolding attempt_from give_up
  attempt_from-Failed o start_time zero attempt p q c d =
      after_attempt-Failed start_time attempt _ p (operation q) (ground (arith, fails q))
        (λ e q' c' d'. (e, refl, c', d'))
  attempt_from-Failed o start_time (suc left) attempt p q c d =
      after_attempt-Failed start_time attempt _ p (operation q) (ground (arith, fails q))
        λ e q' c' d'.
          let (c₁, d₁) = wait_same attempt o q' in
          attempt_from-Failed o start_time left (suc attempt) p (wait attempt o q') (c₁ ∙ c')
            (d₁ ∙ d')

  backoff-FailedFrom :
      (max_retries : ℕ) (q : Process N)
      → FailedFrom q (execute_with_exponential_backoff operation max_retries q)
  unfolding execute_with_exponential_backoff execute_with_retry
  backoff-FailedFrom max_retries q =
      let o = record default_options { max_retries = max_retries } in
      ground (arith, attempt_from-Failed o q.clock max_retries 0 q q refl refl)

module _ {N : Type 0} where
  send-FailedFrom :
      (p : Process N) (k : HttpResponse → Action (Process N) ProxiedResponse)
      (x : Result HttpResponse × Process N)
      → FailedFrom p x
      → FailedFrom p (continue k x)
  send-FailedFrom p k (ok a, q) (h, c, d) = absurd h
  send-FailedFrom p k (err e, q) f = f

  fallback-IsCalm :
      (service : ServiceName) (method : HttpMethod) (path : String)
      → IsCalm {N = N} (create_service_fallback (name_of service) method path)
  unfolding create_service_fallback create_cache_fallback create_error_fallback
  fallback-IsCalm users method path q = ground arith
  fallback-IsCalm products method path q = ground arith
  fallback-IsCalm checkout method path q = ground arith
  fallback-IsCalm payments method path q = ground arith

  proxied-IsCalm :
      (fallback : Action (Process N) Value) → IsCalm fallback → IsCalm (proxied_fallback fallback)
  unfolding proxied_fallback
  proxied-IsCalm fallback calm q = ground (arith, calm q)

module _ {N : Type 0} (env : ServiceUrls) (show : ℕ → String)
    (request : HttpRequest → Action (Process N) HttpResponse)
    (unreachable : (x : HttpRequest) (q : Process N) → FailedFrom q (request x q))
    (service : ServiceName) (method : HttpMethod) (path : String) (body : Value)
    (headers : Map Value) (user : Option UserPayload) (p : Process N) (r : ℕ) where
  abbrev pub after_calls : ℕ → Process N
  after_calls n = calls n (protected env show request service method path body headers user) p

  send-fails :
      (q : Process N)
      → FailedFrom q (
          execute_with_exponential_backoff
            (execute_with_custom_timeout
              (send env show request service method path body headers user)
              (service_config env service).timeout)
            4
            q)
  unfolding execute_with_custom_timeout send
  send-fails =
      backoff-FailedFrom _
        (λ q. race-FailedFrom q.clock _ q _ (
          send-FailedFrom q _ _
            (unreachable (http_request env service method path body headers user) q)))
        4

  -- A service that no request reaches, behind a closed circuit: each call counts one failure,
  -- and the circuit is open as soon as three are counted, and not before.
  pub three_failures_open :
      (n : ℕ)
      → get ("proxy-" +ₛ name_of service) p.circuits ≡ some r
      → (p.cells r).state ≡ closed
      → (p.cells r).failure_count < 3
      → (p.cells r).failure_count + n ≤ 3
      → (((after_calls n).cells r).failure_count ≡ (p.cells r).failure_count + n)
        × (((after_calls n).cells r).state
            ≡ (if leb 3 ((p.cells r).failure_count + n) then opened else closed))
  unfolding protected
  three_failures_open n hit intact room fits =
      let (_, count, state) =
        counts_failures _ _ ("proxy-" +ₛ name_of service) breaker_options r
          (λ q. error_of _ (send-fails q).0) (λ q. ((send-fails q).1, (send-fails q).2))
          (proxied-IsCalm _ (fallback-IsCalm service method path)) n p hit intact room fits in
      (count, state)
