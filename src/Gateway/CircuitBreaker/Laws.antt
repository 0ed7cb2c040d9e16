-- ===== src/Gateway/CircuitBreaker/Laws.antt =====
-- What one call through the breaker does, on each branch.
use study_microsservices_nod.Base.{
  ℕ, ◌≤◌, ◌<◌, ◌≡◌, ◌≢◌, String, Option, none, some, ok, err, Error, Action, get, arith,
  get-delete_self, Result, Bool-cases, inl, inr, ◌⊎◌,
}
use study_microsservices_nod.Gateway.Process.{
  Process, closed, opened, half_open, CircuitBreakerOptions, set_cell,
}
use study_microsservices_nod.Gateway.CircuitBreaker.{
  is_opened, get_or_create_circuit, on_failure, settle, execute_with_circuit_breaker, reset_circuit,
  get_circuit_state,
}

settle_ok :
    {N T : Type 0} (r : ℕ) (options : CircuitBreakerOptions)
    (fallback : Option (Action (Process N) T)) (a : T) (x : Result T × Process N)
    → x.0 ≡ ok a
    → let (result, q) = settle r options fallback x in
      (result ≡ ok a) × ((q.cells r).state ≡ closed) × ((q.cells r).failure_count ≡ 0)
unfolding settle
settle_ok r options fallback a (ok b, q) h = ground arith
settle_ok r options fallback a (err e, q) h = cc

module _ {N T : Type 0} (key : String) (options : CircuitBreakerOptions) (p : Process N) where
  -- While the circuit is open and its time has not come, a call with a fallback is the fallback's
  -- call, and the operation is not run.
  pub opened_falls_back :
      (operation fallback : Action (Process N) T) (r : ℕ)
      → get key p.circuits ≡ some r
      → (p.cells r).state ≡ opened
      → p.clock < (p.cells r).next_attempt_time
      → execute_with_circuit_breaker operation key (some fallback) options p ≡ fallback p
  unfolding execute_with_circuit_breaker
  opened_falls_back operation fallback r hit broken early = ground arith

  -- A first call under a key runs the operation.
  pub first_call :
      (operation : Action (Process N) T) (fallback : Option (Action (Process N) T))
      → get key p.circuits ≡ none
      → execute_with_circuit_breaker operation key fallback options p
        ≡ settle p.next_cell options fallback (operation (get_or_create_circuit key options p).1)
  unfolding execute_with_circuit_breaker
  first_call operation fallback miss = ground arith

  -- Without a fallback an open circuit stops nothing: the operation runs on the process as it is.
  pub opened_without_fallback :
      (operation : Action (Process N) T) (r : ℕ)
      → get key p.circuits ≡ some r
      → (p.cells r).state ≡ opened
      → p.clock < (p.cells r).next_attempt_time
      → execute_with_circuit_breaker operation key none options p
        ≡ settle r options none (operation p)
  unfolding execute_with_circuit_breaker
  opened_without_fallback operation r hit broken early = ground arith

  -- Once the time has come the call is a probe: the operation runs with the circuit half-open.
  pub expired_probes :
      (operation : Action (Process N) T) (fallback : Option (Action (Process N) T)) (r : ℕ)
      → get key p.circuits ≡ some r
      → (p.cells r).state ≡ opened
      → (p.cells r).next_attempt_time ≤ p.clock
      → execute_with_circuit_breaker operation key fallback options p
        ≡ settle r options fallback
            (operation (set_cell r (record (p.cells r) { state = half_open }) p))
  unfolding execute_with_circuit_breaker
  expired_probes operation fallback r hit broken late = ground arith

  -- A circuit that is not open runs the operation.
  pub unopened_runs :
      (operation : Action (Process N) T) (fallback : Option (Action (Process N) T)) (r : ℕ)
      → get key p.circuits ≡ some r
      → (p.cells r).state ≢ opened
      → execute_with_circuit_breaker operation key fallback options p
        ≡ settle r options fallback (operation p)
  unfolding execute_with_circuit_breaker
  unopened_runs operation fallback r hit intact = ground arith

  -- A call that runs its operation with success returns the value, and leaves the circuit closed
  -- with no failure counted, also when it was half-open.
  pub success_closes :
      (operation : Action (Process N) T) (fallback : Option (Action (Process N) T)) (r : ℕ) (a : T)
      → get key p.circuits ≡ some r
      → ((p.cells r).state ≢ opened) ⊎ ((p.cells r).next_attempt_time ≤ p.clock)
      → ((q : Process N) → (operation q).0 ≡ ok a)
      → let (result, q) = execute_with_circuit_breaker operation key fallback options p in
        (result ≡ ok a) × ((q.cells r).state ≡ closed) × ((q.cells r).failure_count ≡ 0)
  success_closes operation fallback r a hit may works =
      elim (Bool-cases (is_opened (p.cells r).state)) [
        | inl broken ↦
            let late : (p.cells r).next_attempt_time ≤ p.clock = ground arith in
            rw (expired_probes operation fallback r hit (ground arith) late)
              (settle_ok r options fallback a _ (works _))
        | inr intact ↦
            rw (unopened_runs operation fallback r hit (ground arith))
              (settle_ok r options fallback a _ (works _))
      ]

  -- A reset while an operation is in flight wins: the failure is counted in the forgotten object,
  -- and the key has no circuit afterwards.
  reset_wins :
      (operation : Action (Process N) T) (r : ℕ) (e : Error) (q : Process N)
      → get key p.circuits ≡ some r
      → (p.cells r).state ≢ opened
      → operation p ≡ (err e, reset_circuit key q)
      → get_circuit_state key (execute_with_circuit_breaker operation key none options p).1 ≡ none
  unfolding settle on_failure reset_circuit get_circuit_state
  reset_wins operation r e q hit intact fails =
      rw (unopened_runs operation none r hit intact, fails)
        (ground (arith, get-delete_self key q.circuits))
