-- ===== src/Gateway/Timeout/Laws.antt =====
-- How long a call may take, and what it may return.
use study_microsservices_nod.Base.{
  ℕ, zero, suc, ◌+◌, ◌*◌, ◌≤◌, ◌≡◌, ◌⊎◌, max, min, Result, ok, err, Error, timed_out, Action, ◌<◌,
  arith,
}
use study_microsservices_nod.Gateway.Process.{Process, delay}
use study_microsservices_nod.Gateway.Timeout.{
  TimeoutOptions, next_backoff, execute_with_custom_timeout, after_attempt, attempt_from,
  execute_with_timeout,
}

module _ {N T : Type 0} (operation : Action (Process N) T) where
  -- A call with a timeout settles no later than that, with the operation's own outcome or with the
  -- timer's error, and with the former exactly if the operation was in time.
  custom_timeout_bounds :
      (timeout : ℕ) (p : Process N)
      → let (result, q) = execute_with_custom_timeout operation timeout p in
        (q.clock ≤ p.clock + timeout)
        × (((operation p).1.clock ≤ p.clock + timeout) × ((result, q) ≡ operation p)
            ⊎ (p.clock + timeout < (operation p).1.clock) × (result ≡ err (timed_out timeout)))
  unfolding execute_with_custom_timeout
  custom_timeout_bounds timeout p = ground arith

  after_attempt-le :
      (bound : ℕ) (next : Error → Process N → Result T × Process N) (x : Result T × Process N)
      → x.1.clock ≤ bound
      → ((e : Error) → (next e x.1).1.clock ≤ bound)
      → (after_attempt next x).1.clock ≤ bound
  unfolding after_attempt
  after_attempt-le bound next (ok a, q) h k = h
  after_attempt-le bound next (err e, q) h k = k e

  custom-le :
      (timeout : ℕ) (q : Process N)
      → (execute_with_custom_timeout operation timeout q).1.clock ≤ q.clock + timeout
  custom-le timeout q = (custom_timeout_bounds timeout q).0

  attempt_from-le :
      (o : TimeoutOptions) (left ms cap : ℕ) (q : Process N)
      → ms ≤ cap
      → o.max_backoff ≤ cap
      → (attempt_from operation o left ms q).1.clock
        ≤ q.clock + o.timeout + left * (o.timeout + cap)
  unfolding attempt_from next_backoff
  attempt_from-le o zero ms cap q small large =
      after_attempt-le _ _ (execute_with_custom_timeout operation o.timeout q)
        (omega (arith, custom-le o.timeout q)) (λ e. omega (arith, custom-le o.timeout q))
  attempt_from-le o (suc left) ms cap q small large =
      let x : Result T × Process N = execute_with_custom_timeout operation o.timeout q in
      after_attempt-le _ _ x (omega (arith, custom-le o.timeout q)) λ e. omega (
        arith,
        custom-le o.timeout q,
        attempt_from-le o left (min (ms * o.backoff_multiplier) o.max_backoff) cap (delay ms x.1)
            (omega arith) large,
      )

  -- With retries the call settles within `retries + 1` timeouts and as many waits as retries, each
  -- at most a second or the maximal wait, whichever is longer.
  pub execute_with_timeout_time :
      (o : TimeoutOptions) (p : Process N)
      → (execute_with_timeout operation o p).1.clock
        ≤ p.clock + (o.retries + 1) * o.timeout + o.retries * max 1000 o.max_backoff
  unfolding execute_with_timeout
  execute_with_timeout_time o p = omega (
    arith,
    attempt_from-le o o.retries 1000 (max 1000 o.max_backoff) p (omega arith) (omega arith),
  )
