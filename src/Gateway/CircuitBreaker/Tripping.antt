-- ===== src/Gateway/CircuitBreaker/Tripping.antt =====
-- A run of failing calls, one after the other.
use study_microsservices_nod.Base.{
  ℕ, zero, suc, ◌+◌, ◌≤◌, ◌<◌, ◌≡◌, ◌∙◌, ◌≢◌, String, some, ok, err, Error, Action, get, arith, leb,
  if◌then◌else◌, Result,
}
use study_microsservices_nod.Gateway.Process.{
  Process, closed, opened, CircuitBreakerOptions, CircuitBreakerState,
}
use study_microsservices_nod.Gateway.CircuitBreaker.{
  on_failure, failed, settle, execute_with_circuit_breaker,
}
use study_microsservices_nod.Gateway.CircuitBreaker.Laws.{unopened_runs}

module _ {N T : Type 0} where
  -- An action that leaves the circuits alone.
  abbrev pub IsCalm : Action (Process N) T → Type 0
  IsCalm action =
      (q : Process N) → ((action q).1.cells ≡ q.cells) × ((action q).1.circuits ≡ q.circuits)

  abbrev pub AlwaysFails : Action (Process N) T → Type 0
  AlwaysFails action = (q : Process N) → (e : Error) × ((action q).0 ≡ err e)

  -- The same call, `n` times.
  pub calls : ℕ → Action (Process N) T → Process N → Process N
  calls zero call p = p
  calls (suc n) call p = (call (calls n call p)).1

module _ {N T : Type 0} (operation fallback : Action (Process N) T) (key : String)
    (options : CircuitBreakerOptions) (r : ℕ) (fails : AlwaysFails operation)
    (calm : IsCalm operation) (calm_fallback : IsCalm fallback) where
  abbrev call : Action (Process N) T
  call = execute_with_circuit_breaker operation key (some fallback) options

  settle-failed :
      (p : Process N) (x : Result T × Process N) (e : Error)
      → x.0 ≡ err e
      → x.1.cells ≡ p.cells
      → x.1.circuits ≡ p.circuits
      → let q = (settle r options (some fallback) x).1 in
        (q.circuits ≡ p.circuits) × (q.cells r ≡ failed options x.1.clock (p.cells r))
  unfolding settle on_failure
  settle-failed p (ok a, q) e f c d = cc
  settle-failed p (err e', q) e f c d = ground (arith, calm_fallback (on_failure r options q))

  one_failure :
      (p : Process N)
      → get key p.circuits ≡ some r
      → (p.cells r).state ≢ opened
      → (now : ℕ) × ((call p).1.circuits ≡ p.circuits)
        × ((call p).1.cells r ≡ failed options now (p.cells r))
  one_failure p hit intact =
      let (c, d) = calm p in
      let (same, counted) = settle-failed p (operation p) (fails p).0 (fails p).1 c d in
      (
        (operation p).1.clock,
        rw (unopened_runs key options p operation (some fallback) r hit intact) same,
        rw (unopened_runs key options p operation (some fallback) r hit intact) counted,
      )

  failed_count :
      (now : ℕ) (c : CircuitBreakerState)
      → (failed options now c).failure_count ≡ suc c.failure_count
  unfolding failed
  failed_count now c = ground arith

  failed_state :
      (now : ℕ) (c : CircuitBreakerState)
      → c.state ≡ closed
      → (failed options now c).state
        ≡ (if leb options.failure_threshold (suc c.failure_count) then opened else closed)
  unfolding failed
  failed_state now c h = ground arith

  -- From a closed circuit each failing call adds one failure, and the circuit stays closed until the
  -- count reaches the threshold.
  pub counts_failures :
      (n : ℕ) (p : Process N)
      → get key p.circuits ≡ some r
      → (p.cells r).state ≡ closed
      → (p.cells r).failure_count < options.failure_threshold
      → (p.cells r).failure_count + n ≤ options.failure_threshold
      → let q = calls n call p in
        (q.circuits ≡ p.circuits)
        × ((q.cells r).failure_count ≡ (p.cells r).failure_count + n)
        × ((q.cells r).state ≡ (
            if leb options.failure_threshold ((p.cells r).failure_count + n)
            then opened
            else closed))
  unfolding calls
  counts_failures zero p hit intact room fits = ground arith
  counts_failures (suc n) p hit intact room fits =
      let (same, count, state) = counts_failures n p hit intact room (omega arith) in
      let q : Process N = calls n call p in
      let still : (q.cells r).state ≡ closed = ground arith in
      let (now, same', cell) = one_failure q (rw same hit) (rw still (λ h. cc)) in
      (
        same' ∙ same,
        rw (cell, failed_count now (q.cells r), count) (omega arith),
        rw (cell, failed_state now (q.cells r) still, count) (ground arith),
      )
