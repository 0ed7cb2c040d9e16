-- ===== src/Payments/Reporting/Thresholds.antt =====
-- What the health route says, over the counts that the consumer keeps.
use mathlib.Core.Path.{subst}
use study_microsservices_nod.Base.{
  ℕ, ◌+◌, ◌*◌, ◌/◌, ◌≤◌, ◌<◌, ◌≡◌, ◌≢◌, ◌↔◌, ◌⊎◌, inl, inr, Bool, true, Option, some, ltb, String,
  arith, Option-cases,
}
use study_microsservices_nod.Payments.Consumer.{Consumer, ConsumerMetrics}
use study_microsservices_nod.Payments.Consumer.Metrics.{IsCounted}
use study_microsservices_nod.Payments.Reporting.{
  healthy, recently, good_rate, low_failures, diagnose, get_health, uptime_parts,
}

-- The numbers that are shown are below 24, 60 and 60, and add up to the whole seconds.
pub uptime_adds_up :
    (diff : ℕ)
    → let (days, hours, minutes, seconds) = uptime_parts diff in
      (((days * 24 + hours) * 60 + minutes) * 60 + seconds ≡ diff / 1000)
      × (hours < 24)
      × (minutes < 60)
      × (seconds < 60)
unfolding uptime_parts
uptime_adds_up diff = (omega arith, omega arith, omega arith, omega arith)

module _ (show : ℕ → String) (percent : ℕ → ℕ → ℕ → String) where
  diagnose-healthy :
      (r : Bool) (m : ConsumerMetrics)
      → ((diagnose show percent r m).0 ≡ healthy) ↔ (
          ((r ≡ true) ⊎ (m.total_processed ≡ 0))
          × (90 * m.total_processed ≤ m.total_success * 100)
          × (m.total_failed < 100))
  unfolding diagnose good_rate low_failures
  diagnose-healthy r m = ground arith

  get_health-healthy :
      {D : Type 0} (c : Consumer D)
      → ((get_health show percent c).status ≡ healthy) ↔ (
          ((recently c.metrics.last_processed_at c.process.clock ≡ true)
            ⊎ (c.metrics.total_processed ≡ 0))
          × (90 * c.metrics.total_processed ≤ c.metrics.total_success * 100)
          × (c.metrics.total_failed < 100))
  unfolding get_health
  get_health-healthy c =
      diagnose-healthy (recently c.metrics.last_processed_at c.process.clock) c.metrics

  -- Over counts that are right: the consumer is reported as healthy exactly if its last message, if
  -- there was one, is less than five minutes old, at most a tenth of its messages failed, and fewer
  -- than a hundred did.
  healthy_iff :
      {D : Type 0} (c : Consumer D)
      → IsCounted c
      → ((get_health show percent c).status ≡ healthy) ↔ (
          ((t : ℕ) → c.metrics.last_processed_at ≡ some t → c.process.clock < t + 300000)
          × (9 * c.metrics.total_failed ≤ c.metrics.total_success)
          × (c.metrics.total_failed < 100))
  unfolding recently
  healthy_iff c h =
      let (there, back) = get_health-healthy c in
      let sum = h.adds_up in
      elim (Option-cases c.metrics.last_processed_at) [
        | inl never ↦
            let zero_total = h.last_known.0 never in
            (
              (λ e. let (_, rate, low) = there e in ((λ t known. cc), omega arith, low)),
              (λ (_, rate, low). back (inr zero_total, omega arith, low)),
            )
        | inr (t, known) ↦
            let some_total : c.metrics.total_processed ≢ 0 =
              (λ z. let never = h.last_known.1 z in cc) in
            (
              (λ e.
                  let (live, rate, low) = there e in
                  (
                    (λ t' known'.
                        within t t' c.metrics.last_processed_at c.process.clock
                          c.metrics.total_processed known known' some_total live),
                    omega arith,
                    low,
                  )),
              (λ (live, rate, low).
                  back (inl (rw known (ltb_true _ _ (live t known))), omega arith, low)),
            )
      ]
    where
      ltb_true : (a b : ℕ) → a < b → ltb a b ≡ true
      ltb_true a b h = ground arith

      within :
          (t t' : ℕ) (last : Option ℕ) (now total : ℕ)
          → last ≡ some t
          → last ≡ some t'
          → total ≢ 0
          → ((recently last now ≡ true) ⊎ (total ≡ 0))
          → now < t' + 300000
      within t t' last now total known known' nonzero (inl live) =
          let live' : recently (some t') now ≡ true =
            subst (λ l. recently l now ≡ true) known' live in
          ground arith
      within t t' last now total known known' nonzero (inr z) = absurd (nonzero z)
