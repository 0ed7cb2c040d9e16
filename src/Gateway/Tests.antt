-- ===== src/Gateway/Tests.antt =====
-- Runs of the gateway on concrete processes.
mod Throttled
mod Proxied
mod Access
mod Health
use study_microsservices_nod.Base.{
  ℕ, zero, suc, ap, ◌+◌, ◌*◌, ◌/◌, ◌≤◌, ◌⊎◌, max, timed_out, ◌<◌, ◌≡◌, ◌≢◌, refl, inl, inr, String,
  Bool, true, false, Option, none, some, Map, get, insert, [], ◌∷◌, Value, Action, err, ok, Result,
  plain, http, ◌+ₛ◌, if◌then◌else◌, leb, arith, Error,
}
use study_microsservices_nod.Base.Values.{null, str, num, is_truthy}
use study_microsservices_nod.Gateway.Process.{
  Process, CircuitState, CircuitBreakerOptions, CircuitBreakerState, CacheEntry, opened, closed,
  half_open, set_cell,
}
use study_microsservices_nod.Gateway.Config.{
  ServiceName, ServiceUrls, name_of, service_config, users, products, checkout, payments,
}
use study_microsservices_nod.Gateway.CircuitBreaker.{
  default_options, on_success, settle, execute_with_circuit_breaker, reset_circuit,
  get_circuit_state, get_or_create_circuit,
}
use study_microsservices_nod.Gateway.CircuitBreaker.Laws.{
  opened_falls_back, opened_without_fallback, expired_probes, success_closes,
}
use study_microsservices_nod.Gateway.CircuitBreaker.Ending.{Ended, call_decided}
use study_microsservices_nod.Gateway.CircuitBreaker.Counting.{Counts, execute-Counts}
use study_microsservices_nod.Gateway.CircuitBreaker.Tripping.{calls, counts_failures}
use study_microsservices_nod.Gateway.Retry.{
  RetryOptions, execute_with_retry, success, failure, calculate_delay, jitter, resolution,
}
use study_microsservices_nod.Gateway.Retry.Laws.{
  FailsAt, jitter_bounds, calculate_delay-le, first_success_wins, execute_with_retry_time,
}
use study_microsservices_nod.Gateway.Timeout.{execute_with_custom_timeout, execute_with_timeout}
use study_microsservices_nod.Gateway.Timeout
use study_microsservices_nod.Gateway.Retry
use study_microsservices_nod.Gateway.Timeout.Laws.{execute_with_timeout_time}
use study_microsservices_nod.Gateway.Fallback.{
  get_cached_data, set_cached_data, create_cache_fallback,
}
use study_microsservices_nod.Gateway.Fallback.Laws.{
  later, cached_in_time, cached_too_late, cache_fallback_repeats,
}
use study_microsservices_nod.Gateway.Proxy
use study_microsservices_nod.Gateway.Proxy.{
  HttpRequest, HttpResponse, proxy_request, error_response, http_request,
}
use study_microsservices_nod.Gateway.Proxy.Fallbacks.{
  no_service, guarded_outage_fails, users_outage_succeeds, products_outage_cached,
}
use study_microsservices_nod.Gateway.Proxy.Requests.{client_error_thrown, answer_cached}
use study_microsservices_nod.Gateway.Proxy.Outages.{after_calls, three_failures_open}

abbrev pub Gateway : Type 0
Gateway = Process (Unit {0})

abbrev pub circuit : CircuitState → ℕ → CircuitBreakerState
circuit state failures = record {
  state = state;
  failure_count = failures;
  last_failure_time = 90;
  next_attempt_time = 30100;
}

-- A process with one circuit, at address 0.
abbrev pub process : String → ℕ → CircuitBreakerState → Gateway
process key now c = record {
  clock = now;
  draws = λ n. n;
  drawn = 0;
  circuits = (key, 0) ∷ [];
  cells = λ q. c;
  next_cell = 1;
  cache = [];
  health_cache = [];
  net = tt;
}

abbrev broken : Gateway
broken = process "users" 100 (circuit opened 5)

abbrev intact : Gateway
intact = process "users" 100 (circuit closed 3)

abbrev works : Action Gateway ℕ
works p = (ok 7, record p { clock = p.clock + 20 })

abbrev breaks : Action Gateway ℕ
breaks p = (err (plain "down"), record p { clock = p.clock + 20 })

-- An open circuit whose time has come: the probe that fails opens it again.
abbrev due : Gateway
due = process "users" 40000 (circuit opened 5)

call_decided_example :
    let outcome = execute_with_circuit_breaker breaks "users" (some works) default_options due in
    (((due.cells 0).state ≡ opened)
      × (due.clock < (due.cells 0).next_attempt_time)
      × (f : Action Gateway ℕ) × (some works ≡ some f)
      × (outcome ≡ f due))
    ⊎ (((due.cells 0).state ≡ opened)
        × (due.clock < (due.cells 0).next_attempt_time)
        × (some works ≡ none)
        × Ended "users" default_options due none 0 (breaks due) outcome)
    ⊎ (((due.cells 0).state ≡ opened)
        × ((due.cells 0).next_attempt_time ≤ due.clock)
        × Ended "users" default_options due
            (some works)
            0
            (breaks (set_cell 0 (circuit half_open 5) due))
            outcome)
    ⊎ (((due.cells 0).state ≢ opened)
        × Ended "users" default_options due (some works) 0 (breaks due) outcome)
unfolding get
call_decided_example = call_decided "users" default_options due breaks (some works) 0 refl

execute-Counts_example :
    Counts 5
      ((execute_with_circuit_breaker breaks "users" (some works) default_options intact).1.cells 0)
unfolding get
execute-Counts_example =
    execute-Counts breaks "users" (some works) default_options intact 0 (omega arith) refl
      (λ q h. h) (λ q h. h) (record { below = λ e. omega arith; reached = λ h. absurd (h refl) })

-- The first two attempts fail.
abbrev flaky : Action Gateway ℕ
flaky p = if leb 2 p.drawn then works p else breaks p

first_success_wins_example : (execute_with_retry flaky Retry.default_options intact).0.attempts ≡ 3
unfolding Retry.wait
first_success_wins_example =
    ap (λ x. x.0.attempts)
      (first_success_wins flaky Retry.default_options intact 2 7 (omega arith) early refl)
  where
    early : (i : ℕ) → i < 2 → FailsAt flaky Retry.default_options intact i
    early zero h = (plain "down", refl)
    early (suc zero) h = (plain "down", refl)
    early (suc (suc i)) h = absurd (omega arith)

execute_with_retry_time_example :
    (execute_with_retry breaks Retry.default_options intact).1.clock
    ≤ 100 + (3 + 1) * 20 + 3 * 30000
execute_with_retry_time_example =
    execute_with_retry_time breaks Retry.default_options 20 (λ q. omega arith) intact

-- Each of four attempts is late.
execute_with_timeout_time_example :
    (execute_with_timeout works (record Timeout.default_options { timeout = 10 }) intact).1.clock
    ≤ 100 + (3 + 1) * 10 + 3 * max 1000 30000
execute_with_timeout_time_example =
    execute_with_timeout_time works (record Timeout.default_options { timeout = 10 }) intact
