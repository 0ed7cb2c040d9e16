-- ===== src/Gateway/CircuitBreaker.antt =====
-- api-gateway/src/common/circuit-breaker/circuit-breaker.service.ts. An operation and a fallback are
-- actions on the process, so whatever other requests do to it while they are awaited is theirs too.
-- Between two awaits the clock stands still. Log lines are left out.
pub mod Laws
pub mod Ending
pub mod Counting
pub mod Tripping
use study_microsservices_nod.Base.{
  ℕ, suc, ◌+◌, String, Option, none, some, Bool, true, false, Map, Result, ok, err, Error, Action,
  get, insert, delete, ltb, leb, if◌then◌else◌,
}
use study_microsservices_nod.Gateway.Process.{
  Process, CircuitState, closed, opened, half_open, CircuitBreakerOptions, CircuitBreakerState,
  set_cell,
}

abbrev pub default_options : CircuitBreakerOptions
default_options = record { failure_threshold = 5; timeout = 10000; reset_timeout = 30000 }

abbrev is_opened : CircuitState → Bool
is_opened opened = true
is_opened _ = false

-- What the test at the head of `executeWithCircuitBreaker` decides.
pub data Admission : Type 0 where
  refused probing passing : Admission

unfoldable pub admit : CircuitBreakerState → ℕ → Admission
admit c now =
    if is_opened c.state
    then (if ltb now c.next_attempt_time then refused else probing)
    else passing

unfoldable pub new_circuit : CircuitBreakerOptions → ℕ → CircuitBreakerState
new_circuit options now = record {
  state = closed;
  failure_count = 0;
  last_failure_time = 0;
  next_attempt_time = now + options.timeout;
}

unfoldable pub failed : CircuitBreakerOptions → ℕ → CircuitBreakerState → CircuitBreakerState
failed options now c =
    let counted = record c { failure_count = suc c.failure_count; last_failure_time = now } in
    if leb options.failure_threshold (suc c.failure_count)
    then record counted { state = opened; next_attempt_time = now + options.reset_timeout }
    else counted

module _ {N : Type 0} where
  unfoldable pub get_or_create_circuit : String → CircuitBreakerOptions → Process N → ℕ × Process N
  unfolding new_circuit
  get_or_create_circuit key options p = elim (get key p.circuits) [
    | some r ↦ (r, p)
    | none ↦ (
      p.next_cell,
      set_cell p.next_cell (new_circuit options p.clock)
          (record p { circuits = insert key p.next_cell p.circuits; next_cell = suc p.next_cell }),
    )
  ]

  unfoldable pub on_success : ℕ → Process N → Process N
  on_success r p = set_cell r (record (p.cells r) { state = closed; failure_count = 0 }) p

  unfoldable pub on_failure : ℕ → CircuitBreakerOptions → Process N → Process N
  unfolding failed
  on_failure r options p = set_cell r (failed options p.clock (p.cells r)) p

  unfoldable pub get_circuit_state : String → Process N → Option CircuitBreakerState
  get_circuit_state key p = elim (get key p.circuits) [ none ↦ none | some r ↦ some (p.cells r) ]

  unfoldable pub reset_circuit : String → Process N → Process N
  reset_circuit key p = record p { circuits = delete key p.circuits }

module _ {N T : Type 0} where
  unfoldable pub fall_back : Option (Action (Process N) T) → Error → Action (Process N) T
  fall_back none e p = (err e, p)
  fall_back (some fallback) e p = fallback p

  -- The `try` and `catch` round the operation, by how it has settled.
  unfoldable pub settle :
      ℕ
      → CircuitBreakerOptions
      → Option (Action (Process N) T)
      → Result T × Process N
      → Result T × Process N
  unfolding fall_back on_success on_failure
  settle r options fallback (ok a, p) = (ok a, on_success r p)
  settle r options fallback (err e, p) = fall_back fallback e (on_failure r options p)

  unfoldable pub proceed :
      Admission
      → ℕ
      → CircuitBreakerOptions
      → Action (Process N) T
      → Option (Action (Process N) T)
      → Action (Process N) T
  unfolding settle
  proceed refused r options operation (some fallback) p = fallback p
  proceed refused r options operation none p = settle r options none (operation p)
  proceed probing r options operation fallback p =
      settle r options fallback
        (operation (set_cell r (record (p.cells r) { state = half_open }) p))
  proceed passing r options operation fallback p = settle r options fallback (operation p)

  unfoldable pub execute_with_circuit_breaker :
      Action (Process N) T
      → String
      → Option (Action (Process N) T)
      → CircuitBreakerOptions
      → Action (Process N) T
  unfolding get_or_create_circuit admit proceed
  execute_with_circuit_breaker operation key fallback options p =
      let (r, p') = get_or_create_circuit key options p in
      proceed (admit (p'.cells r) p'.clock) r options operation fallback p'
