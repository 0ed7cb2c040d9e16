-- ===== src/Gateway/Retry.antt =====
-- api-gateway/src/common/retry/retry.service.ts. `Math.random()` is the next of the process's draws, a
-- multiple of 2⁻⁵³ below 1; a delay is the whole milliseconds for which `setTimeout` waits.
pub mod Laws
use study_microsservices_nod.Base.{
  ℕ, zero, suc, ◌+◌, ◌-◌, ◌*◌, ◌/◌, ◌%◌, ◌^◌, min, Bool, true, false, Option, none, some, Result,
  ok, err, Error, Action, if◌then◌else◌,
}
use study_microsservices_nod.Gateway.Process.{Process, delay}

pub record RetryOptions : Type 0 where
  pub max_retries : ℕ
  pub base_delay : ℕ
  pub max_delay : ℕ
  pub backoff_multiplies : ℕ
  pub jitters : Bool

-- `RetryResult<T>`: `success`, with `data` or `error`.
pub data Settled (T : Type 0) : Type 0 where
  success : T → Settled T
  failure : Error → Settled T

pub record RetryResult (T : Type 0) : Type 0 where
  pub settled : Settled T
  pub attempts : ℕ
  pub total_time : ℕ

abbrev pub default_options : RetryOptions
default_options = record {
  max_retries = 3;
  base_delay = 1000;
  max_delay = 30000;
  backoff_multiplies = 2;
  jitters = true;
}

-- The number of values of `Math.random()`.
abbrev pub resolution : ℕ
resolution = 2 ^ 53

unfoldable pub backoff : RetryOptions → ℕ → ℕ
backoff o attempt = o.base_delay * o.backoff_multiplies ^ attempt

-- `delay * (0.5 + draw * 0.5)`
unfoldable pub jitter : ℕ → ℕ → ℕ
jitter draw ms = ms * (resolution + draw) / (2 * resolution)

module _ {N : Type 0} where
  unfoldable pub math_random : Process N → ℕ × Process N
  math_random p = (p.draws p.drawn % resolution, record p { drawn = suc p.drawn })

  unfoldable pub calculate_delay : ℕ → RetryOptions → Process N → ℕ × Process N
  unfolding math_random backoff jitter
  calculate_delay attempt o p =
      let (draw, p') = math_random p in
      if o.jitters
      then (min (jitter draw (backoff o attempt)) o.max_delay, p')
      else (min (backoff o attempt) o.max_delay, p)

  -- The wait before the next attempt.
  unfoldable pub wait : ℕ → RetryOptions → Process N → Process N
  unfolding calculate_delay
  wait attempt o p = let (ms, p') = calculate_delay attempt o p in delay ms p'

-- What an attempt is followed by: the `return` of the `try`, or the rest of the loop.
unfoldable pub after_attempt :
    {N T : Type 0}
    → ℕ
    → ℕ
    → (Error → Process N → RetryResult T × Process N)
    → Result T × Process N
    → RetryResult T × Process N
after_attempt start_time attempt next (ok a, p) =
    (record { settled = success a; attempts = suc attempt; total_time = p.clock - start_time }, p)
after_attempt start_time attempt next (err e, p) = next e p

unfoldable pub give_up :
    {N T : Type 0} → ℕ → RetryOptions → Error → Process N → RetryResult T × Process N
give_up start_time o e p = (
  record { settled = failure e; attempts = o.max_retries + 1; total_time = p.clock - start_time },
  p,
)

-- The `for` loop from a given attempt, with the number of rounds that may still follow it.
unfoldable pub attempt_from :
    {N T : Type 0}
    → Action (Process N) T
    → RetryOptions
    → ℕ
    → ℕ
    → ℕ
    → Process N
    → RetryResult T × Process N
unfolding after_attempt give_up wait
attempt_from operation o start_time zero attempt p =
    after_attempt start_time attempt (give_up start_time o) (operation p)
attempt_from operation o start_time (suc left) attempt p =
    after_attempt start_time attempt
      (λ e q. attempt_from operation o start_time left (suc attempt) (wait attempt o q))
      (operation p)

unfoldable pub execute_with_retry :
    {N T : Type 0} → Action (Process N) T → RetryOptions → Process N → RetryResult T × Process N
unfolding attempt_from
execute_with_retry operation o p = attempt_from operation o p.clock o.max_retries 0 p

unfoldable pub unwrap : {N T : Type 0} → Settled T → Action (Process N) T
unwrap (success a) p = (ok a, p)
unwrap (failure e) p = (err e, p)

unfoldable pub execute_with_exponential_backoff :
    {N T : Type 0} → Action (Process N) T → ℕ → Action (Process N) T
unfolding execute_with_retry unwrap
execute_with_exponential_backoff operation max_retries p =
    let (result, q) =
      execute_with_retry operation (record default_options { max_retries = max_retries }) p in
    unwrap result.settled q
