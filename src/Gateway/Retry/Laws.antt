-- ===== src/Gateway/Retry/Laws.antt =====
-- The loop of attempts against its description: the first success counts, and the last failure.
use study_microsservices_nod.Base.{
  ℕ, zero, suc, ◌+◌, ◌-◌, ◌*◌, ◌/◌, ◌≤◌, ◌<◌, ◌≡◌, ap, ◌∙◌, Result, ok, err, Error, Action, arith,
}
use native.Mathlib.Nat.{mul-le-mul_left}
use study_microsservices_nod.Gateway.Process.{Process}
use study_microsservices_nod.Gateway.Retry.{
  RetryOptions, RetryResult, success, failure, resolution, jitter, calculate_delay, wait,
  after_attempt, give_up, attempt_from, execute_with_retry,
}

-- A wait is never longer than the maximum.
pub calculate_delay-le :
    {N : Type 0} (attempt : ℕ) (o : RetryOptions) (p : Process N)
    → (calculate_delay attempt o p).0 ≤ o.max_delay
unfolding calculate_delay
calculate_delay-le attempt o p = ground arith

-- Jitter keeps a wait between a half and the whole of it.
pub jitter_bounds :
    (draw ms : ℕ) → draw < resolution → (ms / 2 ≤ jitter draw ms) × (jitter draw ms ≤ ms)
unfolding jitter
jitter_bounds draw ms h =
    (omega arith, omega (arith, mul-le-mul_left {m = draw} {n = resolution} ms (omega arith)))

module _ {N T : Type 0} (operation : Action (Process N) T) (o : RetryOptions) (p : Process N) where
  -- The process before an attempt, if all earlier ones have failed.
  abbrev pub reached : ℕ → Process N
  reached zero = p
  reached (suc k) = wait k o (operation (reached k)).1

  abbrev pub FailsAt : ℕ → Type 0
  FailsAt k = (e : Error) × ((operation (reached k)).0 ≡ err e)

  after_failure :
      (start_time attempt : ℕ) (next : Error → Process N → RetryResult T × Process N)
      (x : Result T × Process N) (e : Error)
      → x.0 ≡ err e
      → after_attempt start_time attempt next x ≡ next e x.1
  unfolding after_attempt
  after_failure start_time attempt next (ok a, q) e h = cc
  after_failure start_time attempt next (err e', q) e h = ground arith

  skip :
      (start_time k left : ℕ)
      → k + left ≡ o.max_retries
      → ((i : ℕ) → i < k → FailsAt i)
      → attempt_from operation o start_time o.max_retries 0 p
        ≡ attempt_from operation o start_time left k (reached k)
  unfolding attempt_from
  skip start_time zero left fits fails =
      let none_left : o.max_retries ≡ left = omega arith in
      ap (λ l. attempt_from operation o start_time l 0 p) none_left
  skip start_time (suc k) left fits fails =
      let (e, h) = fails k (omega arith) in
      skip start_time k (suc left) (omega arith) (λ i lt. fails i (omega arith))
      ∙ after_failure start_time k _ (operation (reached k)) e h

  after_success :
      (start_time attempt : ℕ) (next : Error → Process N → RetryResult T × Process N)
      (x : Result T × Process N) (a : T)
      → x.0 ≡ ok a
      → after_attempt start_time attempt next x ≡ (
        record { settled = success a; attempts = suc attempt; total_time = x.1.clock - start_time },
        x.1,
      )
  unfolding after_attempt
  after_success start_time attempt next (ok b, q) a h = ground arith
  after_success start_time attempt next (err e, q) a h = cc

  last_success :
      (start_time left k : ℕ) (a : T)
      → (operation (reached k)).0 ≡ ok a
      → attempt_from operation o start_time left k (reached k) ≡ (
        record {
          settled = success a;
          attempts = suc k;
          total_time = (operation (reached k)).1.clock - start_time;
        },
        (operation (reached k)).1,
      )
  unfolding attempt_from
  last_success start_time zero k a h = after_success start_time k _ (operation (reached k)) a h
  last_success start_time (suc left) k a h =
      after_success start_time k _ (operation (reached k)) a h

  -- If attempt `k` is the first to succeed and at most `max_retries` failed before it, its value and
  -- its process are the result, after `k + 1` attempts.
  pub first_success_wins :
      (k : ℕ) (a : T)
      → k ≤ o.max_retries
      → ((i : ℕ) → i < k → FailsAt i)
      → (operation (reached k)).0 ≡ ok a
      → execute_with_retry operation o p ≡ (
        record {
          settled = success a;
          attempts = suc k;
          total_time = (operation (reached k)).1.clock - p.clock;
        },
        (operation (reached k)).1,
      )
  unfolding execute_with_retry
  first_success_wins k a fits fails works =
      skip p.clock k (o.max_retries - k) (omega arith) fails
      ∙ last_success p.clock (o.max_retries - k) k a works

  -- If all attempts fail, the first and `max_retries` more, the error of the last one is the result.
  all_failures_reported :
      (e : Error)
      → ((i : ℕ) → i < o.max_retries → FailsAt i)
      → (operation (reached o.max_retries)).0 ≡ err e
      → execute_with_retry operation o p ≡ (
        record {
          settled = failure e;
          attempts = o.max_retries + 1;
          total_time = (operation (reached o.max_retries)).1.clock - p.clock;
        },
        (operation (reached o.max_retries)).1,
      )
  unfolding execute_with_retry attempt_from give_up
  all_failures_reported e fails h =
      skip p.clock o.max_retries 0 (omega arith) fails
      ∙ after_failure p.clock o.max_retries _ (operation (reached o.max_retries)) e h

-- The time that a retried call takes.
module _ {N T : Type 0} (operation : Action (Process N) T) (o : RetryOptions) (limit : ℕ)
    (quick : (q : Process N) → (operation q).1.clock ≤ q.clock + limit) where
  wait-le : (attempt : ℕ) (q : Process N) → (wait attempt o q).clock ≤ q.clock + o.max_delay
  unfolding wait
  wait-le attempt q = ground (arith, calculate_delay-le attempt o q)

  after_attempt-le :
      (start_time attempt bound : ℕ) (next : Error → Process N → RetryResult T × Process N)
      (x : Result T × Process N)
      → x.1.clock ≤ bound
      → ((e : Error) → (next e x.1).1.clock ≤ bound)
      → (after_attempt start_time attempt next x).1.clock ≤ bound
  unfolding after_attempt
  after_attempt-le start_time attempt bound next (ok a, q) h k = h
  after_attempt-le start_time attempt bound next (err e, q) h k = k e

  attempt_from-le :
      (start_time left attempt : ℕ) (q : Process N)
      → (attempt_from operation o start_time left attempt q).1.clock
        ≤ q.clock + limit + left * (limit + o.max_delay)
  unfolding attempt_from give_up
  attempt_from-le start_time zero attempt q =
      after_attempt-le start_time attempt _ _ (operation q) (omega (arith, quick q))
        (λ e. omega (arith, quick q))
  attempt_from-le start_time (suc left) attempt q =
      after_attempt-le start_time attempt _ _ (operation q) (omega (arith, quick q)) λ e. omega (
        arith,
        quick q,
        wait-le attempt (operation q).1,
        attempt_from-le start_time left (suc attempt) (wait attempt o (operation q).1),
      )

  -- If an attempt takes at most `limit`, the call takes at most `max_retries + 1` times that and
  -- `max_retries` of the longest waits.
  pub execute_with_retry_time :
      (p : Process N)
      → (execute_with_retry operation o p).1.clock
        ≤ p.clock + (o.max_retries + 1) * limit + o.max_retries * o.max_delay
  unfolding execute_with_retry
  execute_with_retry_time p = omega (arith, attempt_from-le p.clock o.max_retries 0 p)
