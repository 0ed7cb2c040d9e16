-- ===== src/Gateway/Process.antt =====
-- The memory of the gateway process (api-gateway/src/common/*/*.interface.ts): the fields of its
-- singleton services, the clock, and the rest of the world, `N`, of which the code sees only what
-- its HTTP client answers.
use study_microsservices_nod.Base.{ℕ, ◌+◌, String, Option, Map, Value, ◌==◌, if◌then◌else◌, Error}

-- `CircuitBreakerState['state']`
pub data CircuitState : Type 0 where
  closed opened half_open : CircuitState

pub record CircuitBreakerOptions : Type 0 where
  pub failure_threshold : ℕ
  pub timeout : ℕ
  pub reset_timeout : ℕ

pub record CircuitBreakerState : Type 0 where
  pub state : CircuitState
  pub failure_count : ℕ
  pub last_failure_time : ℕ
  pub next_attempt_time : ℕ

-- `{ data, timestamp }` of the fallback cache.
pub record CacheEntry : Type 0 where
  pub content : Value
  pub timestamp : ℕ

pub data HealthStatus : Type 0 where
  healthy unhealthy degraded : HealthStatus

pub record ServiceHealth : Type 0 where
  pub name : String
  pub url : String
  pub status : HealthStatus
  pub response_time : ℕ
  pub last_check : ℕ
  pub error : Option Error

-- A circuit is an object that the map and a running request may both point to: `circuits` holds
-- addresses, and `cells` what stands there.
pub record Process (N : Type 0) : Type 0 where
  pub clock : ℕ
  pub draws : ℕ → ℕ
  pub drawn : ℕ
  pub circuits : Map ℕ
  pub cells : ℕ → CircuitBreakerState
  pub next_cell : ℕ
  pub cache : Map CacheEntry
  pub health_cache : Map ServiceHealth
  pub net : N

-- Assignment to the object at an address.
abbrev pub write : (ℕ → CircuitBreakerState) → ℕ → CircuitBreakerState → ℕ → CircuitBreakerState
write cells r c q = if q == r then c else cells q

module _ {N : Type 0} where
  abbrev pub set_cell : ℕ → CircuitBreakerState → Process N → Process N
  set_cell r c p = record p { cells = write p.cells r c }

  -- `await new Promise((resolve) => setTimeout(resolve, ms))`
  abbrev pub delay : ℕ → Process N → Process N
  delay ms p = record p { clock = p.clock + ms }
