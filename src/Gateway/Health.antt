-- ===== src/Gateway/Health.antt =====
-- api-gateway/src/common/health/health-check.service.ts and api-gateway/src/controllers/health.*.ts. The
-- four checks of `checkAllServices` run together: each has its own start, and what happens during its
-- request holds what the others do meanwhile. Times are milliseconds; the uptime, memory and version of the
-- process are left out.
pub mod Laws
pub mod Together
use study_microsservices_nod.Base.{
  ℕ, ◌-◌, ◌==◌, String, Bool, true, false, Option, none, some, List, [], ◌∷◌, map, Map, get, insert,
  every, any, filter, length, Result, ok, err, ◌⊎◌, inl, inr, Error, plain, Action, raise, ◌+ₛ◌,
  if◌then◌else◌,
}
use study_microsservices_nod.Gateway.Process.{
  Process, HealthStatus, ServiceHealth, healthy, unhealthy, degraded,
}
use study_microsservices_nod.Gateway.Config.{
  ServiceName, ServiceUrls, name_of, service_config, users, checkout, products, payments,
}
use study_microsservices_nod.Gateway.CircuitBreaker
use study_microsservices_nod.Gateway.CircuitBreaker.{execute_with_circuit_breaker}

abbrev pub is_healthy : ServiceHealth → Bool
is_healthy s = elim s.status [ healthy ↦ true | unhealthy ↦ false | degraded ↦ false ]

abbrev pub is_unhealthy : ServiceHealth → Bool
is_unhealthy s = elim s.status [ healthy ↦ false | unhealthy ↦ true | degraded ↦ false ]

abbrev pub is_degraded : ServiceHealth → Bool
is_degraded s = elim s.status [ healthy ↦ false | unhealthy ↦ false | degraded ↦ true ]

abbrev pub checked_services : List ServiceName
checked_services = users ∷ checkout ∷ products ∷ payments ∷ []

module _ (env : ServiceUrls) where
  -- The record of a check that began at `start_time`, by how the call through the breaker settled.
  unfoldable pub health_of : ServiceName → ℕ → Result ℕ → ℕ → ServiceHealth
  health_of service start_time (ok status) now = record {
    name = name_of service;
    url = (service_config env service).url;
    status = healthy;
    response_time = now - start_time;
    last_check = now;
    error = none;
  }
  health_of service start_time (err e) now = record {
    name = name_of service;
    url = (service_config env service).url;
    status = unhealthy;
    response_time = now - start_time;
    last_check = now;
    error = some e;
  }

  -- What `checkAllServices` makes of a check, which may have been rejected.
  unfoldable pub settled_health : ServiceName → Result ServiceHealth → ℕ → ServiceHealth
  settled_health service (ok report) now = report
  settled_health service (err e) now = record {
    name = name_of service;
    url = (service_config env service).url;
    status = unhealthy;
    response_time = 0;
    last_check = now;
    error = some e;
  }

  unfoldable pub check_all_services : (ServiceName → Result ServiceHealth) → ℕ → List ServiceHealth
  unfolding settled_health
  check_all_services settles now =
      map (λ service. settled_health service (settles service) now) checked_services

module _ {N : Type 0} (env : ServiceUrls) where
  unfoldable pub service_unavailable : ServiceName → Action (Process N) ℕ
  service_unavailable service =
      raise (plain ("Fallback: " +ₛ name_of service +ₛ " service is unavailable."))

  -- `ping` is the HTTP client's `get`, with the url and the timeout; it answers the status.
  unfoldable pub guarded_ping :
      (String → ℕ → Action (Process N) ℕ) → ServiceName → Action (Process N) ℕ
  unfolding service_unavailable
  guarded_ping ping service =
      execute_with_circuit_breaker
        (ping ((service_config env service).url +ₛ "/health") (service_config env service).timeout)
        (name_of service) (some (service_unavailable service)) CircuitBreaker.default_options

  -- Every path of `checkServicehealth` ends in a record that is cached and returned.
  unfoldable pub check_service_health :
      (String → ℕ → Action (Process N) ℕ) → ServiceName → Process N → ServiceHealth × Process N
  unfolding guarded_ping health_of
  check_service_health ping service p =
      let (result, q) = guarded_ping ping service p in
      let report = health_of env service p.clock result q.clock in
      (report, record q { health_cache = insert (name_of service) report q.health_cache })

  -- What the check of each service settles with: it never throws.
  unfoldable pub settled_check :
      (ServiceName → String → ℕ → Action (Process N) ℕ)
      → (ServiceName → Process N)
      → ServiceName
      → Result ServiceHealth
  unfolding check_service_health
  settled_check ping start service =
      ok (check_service_health (ping service) service (start service)).0

-- `Array.from` of the values.
unfoldable pub get_all_cached_health : {N : Type 0} → Process N → List ServiceHealth
get_all_cached_health p = map (λ (name, report). report) p.health_cache

unfoldable pub get_cached_health : {N : Type 0} → String → Process N → Option ServiceHealth
get_cached_health service_name p = get service_name p.health_cache

-- `GET /health/services`.
pub record ServicesReport : Type 0 where
  pub overall_status : HealthStatus
  pub timestamp : ℕ
  pub services : List ServiceHealth
  pub total : ℕ
  pub healthy_count : ℕ
  pub unhealthy_count : ℕ
  pub degraded_count : ℕ

unfoldable pub overall : List ServiceHealth → HealthStatus
overall services =
    if every is_healthy services
    then healthy
    else if any is_healthy services
    then degraded
    else unhealthy

unfoldable pub get_services_health : List ServiceHealth → ℕ → ServicesReport
unfolding overall
get_services_health services now = record {
  overall_status = overall services;
  timestamp = now;
  services = services;
  total = length services;
  healthy_count = length (filter is_healthy services);
  unhealthy_count = length (filter is_unhealthy services);
  degraded_count = length (filter is_degraded services);
}

-- The entry of `results.services` for a service.
pub record ServiceEntry : Type 0 where
  pub status : HealthStatus
  pub response_time : ℕ
  pub last_check : ℕ
  pub url : String
  pub error : Option Error

pub record GatewayReport : Type 0 where
  pub status : HealthStatus
  pub timestamp : ℕ
  pub gateway_status : HealthStatus
  pub services : Map ServiceEntry

abbrev pub entry_of : ServiceHealth → ServiceEntry
entry_of s = record {
  status = s.status;
  response_time = s.response_time;
  last_check = s.last_check;
  url = s.url;
  error = s.error;
}

-- The `forEach` over the checks: the entries so far, and whether a service was unhealthy.
unfoldable pub collect : Map ServiceEntry → Bool → List ServiceHealth → Map ServiceEntry × Bool
collect entries has_unhealthy [] = (entries, has_unhealthy)
collect entries has_unhealthy (s ∷ ss) =
    collect (insert s.name (entry_of s) entries) (if is_unhealthy s then true else has_unhealthy) ss

unfoldable pub get_health_status : List ServiceHealth → ℕ → GatewayReport
unfolding collect
get_health_status services now =
    let (entries, has_unhealthy) = collect [] false services in
    record {
      status = if has_unhealthy then degraded else healthy;
      timestamp = now;
      gateway_status = healthy;
      services = entries;
    }

-- `status === HEALTHY ? 'ready' : 'not_ready'`
abbrev pub ready_word : HealthStatus → String
ready_word healthy = "ready"
ready_word unhealthy = "not_ready"
ready_word degraded = "not_ready"

unfoldable pub get_ready_status : List ServiceHealth → ℕ → String × ℕ
unfolding get_health_status
get_ready_status services now = (ready_word (get_health_status services now).status, now)

-- `GET /health/services/:serviceName`: the last report, or a status, a message and the time.
unfoldable pub get_service_health :
    {N : Type 0} → String → Process N → ServiceHealth ⊎ (String × String × ℕ)
unfolding get_cached_health
get_service_health service_name p = elim (get_cached_health service_name p) [
  | none ↦ inr ("unknown", "Service not found or never checked", p.clock)
  | some report ↦ inl report
]

unfoldable pub get_live_status : ℕ → String × ℕ
get_live_status now = ("alive", now)
