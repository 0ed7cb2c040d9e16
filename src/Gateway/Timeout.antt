-- ===== src/Gateway/Timeout.antt =====
-- api-gateway/src/common/timeout/timeout.service.ts. `Promise.race` with a timer: an operation that
-- settles within the time wins. Of one that settles later the caller sees the timer's error at the
-- timer's time, and what the operation goes on to change is kept, since nothing cancels it; it shows from
-- then on, also what the operation changes later.
pub mod Laws
use study_microsservices_nod.Base.{
  ℕ, zero, suc, ◌+◌, ◌*◌, min, Result, ok, err, Error, timed_out, Action, leb, if◌then◌else◌,
}
use study_microsservices_nod.Gateway.Process.{Process, delay}

pub record TimeoutOptions : Type 0 where
  pub timeout : ℕ
  pub retries : ℕ
  pub backoff_multiplier : ℕ
  pub max_backoff : ℕ

abbrev pub default_options : TimeoutOptions
default_options = record {
  timeout = 5000;
  retries = 3;
  backoff_multiplier = 2;
  max_backoff = 30000;
}

-- The wait after the one before.
unfoldable pub next_backoff : TimeoutOptions → ℕ → ℕ
next_backoff o ms = min (ms * o.backoff_multiplier) o.max_backoff

module _ {N T : Type 0} where
  -- `Promise.race([operation(), this.createTimeoutPromise(timeout)])`, by how the operation, begun at
  -- `start_time`, settles.
  unfoldable pub race : ℕ → ℕ → Result T × Process N → Result T × Process N
  race start_time timeout (result, q) =
      if leb q.clock (start_time + timeout)
      then (result, q)
      else (err (timed_out timeout), record q { clock = start_time + timeout })

  unfoldable pub execute_with_custom_timeout : Action (Process N) T → ℕ → Action (Process N) T
  unfolding race
  execute_with_custom_timeout operation timeout p = race p.clock timeout (operation p)

  unfoldable pub after_attempt :
      (Error → Process N → Result T × Process N) → Result T × Process N → Result T × Process N
  after_attempt next (ok a, p) = (ok a, p)
  after_attempt next (err e, p) = next e p

  -- The `for` loop, with the number of rounds that may follow and the wait before the next.
  unfoldable pub attempt_from : Action (Process N) T → TimeoutOptions → ℕ → ℕ → Action (Process N) T
  unfolding after_attempt execute_with_custom_timeout next_backoff
  attempt_from operation o zero ms p =
      after_attempt (λ e q. (err e, q)) (execute_with_custom_timeout operation o.timeout p)
  attempt_from operation o (suc left) ms p =
      after_attempt (λ e q. attempt_from operation o left (next_backoff o ms) (delay ms q))
        (execute_with_custom_timeout operation o.timeout p)

  unfoldable pub execute_with_timeout : Action (Process N) T → TimeoutOptions → Action (Process N) T
  unfolding attempt_from
  execute_with_timeout operation o p = attempt_from operation o o.retries 1000 p
