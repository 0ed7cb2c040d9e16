-- ===== src/Gateway/CircuitBreaker/Counting.antt =====
-- How failures add up to an open circuit.
use study_microsservices_nod.Base.{
  ℕ, ◌≤◌, ◌<◌, ◌≡◌, refl, ◌≢◌, String, Option, none, some, ok, err, Action, get, arith, Result,
}
use study_microsservices_nod.Gateway.Process.{
  Process, closed, opened, CircuitBreakerOptions, CircuitBreakerState,
}
use study_microsservices_nod.Gateway.CircuitBreaker.{
  refused, probing, passing, admit, get_or_create_circuit, on_failure, failed, settle, proceed,
  execute_with_circuit_breaker, Admission,
}

-- A closed circuit is below the threshold, and one that has been opened has reached it.
pub record Counts (limit : ℕ) (c : CircuitBreakerState) : Type 0 where
  pub below : c.state ≡ closed → c.failure_count < limit
  pub reached : c.state ≢ closed → limit ≤ c.failure_count

failed-Counts :
    (options : CircuitBreakerOptions) (now : ℕ) (c : CircuitBreakerState)
    → Counts options.failure_threshold c
    → Counts options.failure_threshold (failed options now c)
unfolding failed
failed-Counts options now c h = ground arith

admit-opened : (c : CircuitBreakerState) (now : ℕ) → admit c now ≡ probing → c.state ≡ opened
unfolding admit
admit-opened c now h = ground arith

module _ {N : Type 0} where
  on_failure-Counts :
      (r : ℕ) (options : CircuitBreakerOptions) (q : Process N)
      → Counts options.failure_threshold (q.cells r)
      → Counts options.failure_threshold ((on_failure r options q).cells r)
  unfolding on_failure
  on_failure-Counts r options q h = ground (arith, failed-Counts options q.clock (q.cells r) h)

module _ {N T : Type 0} where
  abbrev pub Keeps : ℕ → ℕ → Action (Process N) T → Type 0
  Keeps limit r action =
      (q : Process N) → Counts limit (q.cells r) → Counts limit ((action q).1.cells r)

  -- Also a missing fallback keeps the count.
  abbrev pub FallbackKeeps : ℕ → ℕ → Option (Action (Process N) T) → Type 0
  FallbackKeeps limit r none = Unit {0}
  FallbackKeeps limit r (some fallback) = Keeps limit r fallback

  settle-Counts :
      (r : ℕ) (options : CircuitBreakerOptions) (fallback : Option (Action (Process N) T))
      (x : Result T × Process N)
      → 0 < options.failure_threshold
      → FallbackKeeps options.failure_threshold r fallback
      → Counts options.failure_threshold (x.1.cells r)
      → Counts options.failure_threshold ((settle r options fallback x).1.cells r)
  unfolding settle
  settle-Counts r options fallback (ok a, q) pos keep h = ground arith
  settle-Counts r options none (err e, q) pos keep h = on_failure-Counts r options q h
  settle-Counts r options (some fallback) (err e, q) pos keep h =
      keep (on_failure r options q) (on_failure-Counts r options q h)

  proceed-Counts :
      (a : Admission) (r : ℕ) (options : CircuitBreakerOptions) (operation : Action (Process N) T)
      (fallback : Option (Action (Process N) T)) (q : Process N)
      → 0 < options.failure_threshold
      → Keeps options.failure_threshold r operation
      → FallbackKeeps options.failure_threshold r fallback
      → (a ≡ probing → (q.cells r).state ≡ opened)
      → Counts options.failure_threshold (q.cells r)
      → Counts options.failure_threshold ((proceed a r options operation fallback q).1.cells r)
  unfolding proceed
  proceed-Counts refused r options operation none q pos keep safe was h =
      settle-Counts r options none (operation q) pos tt (keep q h)
  proceed-Counts refused r options operation (some fallback) q pos keep safe was h = safe q h
  proceed-Counts probing r options operation fallback q pos keep safe was h =
      settle-Counts r options fallback _ pos safe
        (keep _ (record { below = ground arith; reached = ground (arith, was refl) }))
  proceed-Counts passing r options operation fallback q pos keep safe was h =
      settle-Counts r options fallback (operation q) pos safe (keep q h)

  -- A call keeps the count of its circuit, if the operation and the fallback do.
  pub execute-Counts :
      (operation : Action (Process N) T) (key : String) (fallback : Option (Action (Process N) T))
      (options : CircuitBreakerOptions) (p : Process N) (r : ℕ)
      → 0 < options.failure_threshold
      → get key p.circuits ≡ some r
      → Keeps options.failure_threshold r operation
      → FallbackKeeps options.failure_threshold r fallback
      → Counts options.failure_threshold (p.cells r)
      → Counts options.failure_threshold
          ((execute_with_circuit_breaker operation key fallback options p).1.cells r)
  unfolding execute_with_circuit_breaker
  execute-Counts operation key fallback options p r pos hit keep safe h =
      rw (hit, get_or_create_circuit)
        (proceed-Counts (admit (p.cells r) p.clock) r options operation fallback p pos keep safe
          (admit-opened (p.cells r) p.clock) h)
