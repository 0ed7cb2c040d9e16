-- ===== src/Payments/Reporting.antt =====
-- payments-service/src/events/metrics/metrics.controller.ts. `show` is how a number reads, and
-- `percent` is `toFixed`: the digits of so many hundredths of a whole, by the part and the whole.
pub mod Thresholds
use study_microsservices_nod.Base.{
  ℕ, zero, suc, ◌+◌, ◌-◌, ◌*◌, ◌/◌, ◌%◌, String, Bool, true, false, not, ◌&&◌, ◌||◌, Option, none,
  some, ltb, leb, ◌+ₛ◌, if◌then◌else◌,
}
use study_microsservices_nod.Payments.Consumer.{ConsumerMetrics, Consumer, reset_metrics}

pub data Health : Type 0 where
  healthy unhealthy degraded : Health

pub record HealthReport : Type 0 where
  pub status : Health
  pub is_processing : Bool
  pub has_good_success_rate : Bool
  pub has_low_failures : Bool
  pub message : String
  pub timestamp : ℕ

pub record MetricsReport : Type 0 where
  pub metrics : ConsumerMetrics
  pub success_rate : String
  pub uptime : String
  pub status : String

pub record Summary : Type 0 where
  pub processed : ℕ
  pub success : ℕ
  pub failed : ℕ
  pub rate : String
  pub avg_time : String

abbrev pub five_minutes_ms : ℕ
five_minutes_ms = 5 * 60 * 1000

-- `!lastProcessedAt || lastProcessedAt.getTime() > fiveMinutesAgo`, with the five minutes on the other
-- side.
unfoldable pub recently : Option ℕ → ℕ → Bool
recently none now = true
recently (some t) now = ltb now (t + five_minutes_ms)

-- `successRate >= 90`, multiplied out.
unfoldable pub good_rate : ConsumerMetrics → Bool
good_rate m =
    if ltb 0 m.total_processed then leb (90 * m.total_processed) (m.total_success * 100) else true

unfoldable pub low_failures : ConsumerMetrics → Bool
low_failures m = ltb m.total_failed 100

-- `calculateUptime`'s numbers: days, hours, minutes and seconds.
unfoldable pub uptime_parts : ℕ → ℕ × ℕ × ℕ × ℕ
uptime_parts diff =
    let seconds = diff / 1000 in
    let minutes = seconds / 60 in
    let hours = minutes / 60 in
    let days = hours / 24 in (days, hours % 24, minutes % 60, seconds % 60)

module _ (show : ℕ → String) (percent : ℕ → ℕ → ℕ → String) where
  unfoldable pub calculate_uptime : ℕ → ℕ → String
  unfolding uptime_parts
  calculate_uptime started_at now =
      let (days, hours, minutes, seconds) = uptime_parts (now - started_at) in
      if ltb 0 days
      then show days +ₛ "d " +ₛ show hours +ₛ "h " +ₛ show minutes +ₛ "m"
      else if ltb 0 hours
      then show hours +ₛ "h " +ₛ show minutes +ₛ "m " +ₛ show seconds +ₛ "s"
      else if ltb 0 minutes
      then show minutes +ₛ "m " +ₛ show seconds +ₛ "s"
      else show seconds +ₛ "s"

  abbrev pub rate_text : ConsumerMetrics → ℕ → String
  rate_text m digits =
      if ltb 0 m.total_processed
      then percent m.total_success m.total_processed digits +ₛ "%"
      else "0%"

  unfoldable pub get_metrics : {D : Type 0} → Consumer D → MetricsReport
  unfolding calculate_uptime
  get_metrics c = record {
    metrics = c.metrics;
    success_rate = rate_text c.metrics 2;
    uptime = calculate_uptime c.metrics.started_at c.process.clock;
    status = "active";
  }

  -- The status and the message.
  unfoldable pub diagnose : Bool → ConsumerMetrics → Health × String
  unfolding good_rate low_failures
  diagnose is_processing m =
      if not is_processing && ltb 0 m.total_processed
      then (unhealthy, "Consumer has not processed messages in the last 5 minutes")
      else if not (good_rate m)
      then (
        degraded,
        "Success rate is below 90% (" +ₛ percent m.total_success m.total_processed 2 +ₛ "%)",
      )
      else if not (low_failures m)
      then (degraded, "High number of failed messages")
      else (healthy, "Consumer is operating normally")

  unfoldable pub get_health : {D : Type 0} → Consumer D → HealthReport
  unfolding diagnose recently
  get_health c =
      let m = c.metrics in
      let is_processing = recently m.last_processed_at c.process.clock in
      let (status, message) = diagnose is_processing m in
      record {
        status = status;
        is_processing = is_processing;
        has_good_success_rate = good_rate m;
        has_low_failures = low_failures m;
        message = message;
        timestamp = c.process.clock;
      }

  unfoldable pub get_summary : {D : Type 0} → Consumer D → Summary
  get_summary c = record {
    processed = c.metrics.total_processed;
    success = c.metrics.total_success;
    failed = c.metrics.total_failed;
    rate = rate_text c.metrics 1;
    avg_time = show c.metrics.average_processing_time +ₛ "ms";
  }

unfoldable pub reset_route : {D : Type 0} → Consumer D → (Bool × String) × Consumer D
unfolding reset_metrics
reset_route c = ((true, "Metrics reset successfully"), reset_metrics c)
