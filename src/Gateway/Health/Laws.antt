-- ===== src/Gateway/Health/Laws.antt =====
-- A check of a service always answers, and what the routes make of the answers.
use study_microsservices_nod.Base.{
  Action, length-filter-le, ℕ, ◌+◌, ◌<◌, ◌≡◌, ◌≢◌, ◌↔◌, ◌⊎◌, inl, inr, refl, String, Bool, true,
  false, not, ◌||◌, some, List, [], ◌∷◌, Map, get, get-insert_self, eq_iff, insert, every, any,
  filter, length, All, ok, plain, arith, Result-cases, Bool-cases, ◌+ₛ◌,
}
use study_microsservices_nod.Gateway.Process.{Process, ServiceHealth, healthy, unhealthy, opened}
use study_microsservices_nod.Gateway.Config.{ServiceName, ServiceUrls, name_of, service_config}
use study_microsservices_nod.Gateway.CircuitBreaker
use study_microsservices_nod.Gateway.CircuitBreaker.Laws.{opened_falls_back}
use study_microsservices_nod.Gateway.Health.{
  is_healthy, is_unhealthy, is_degraded, health_of, service_unavailable, guarded_ping,
  check_service_health, get_cached_health, overall, get_services_health, collect, get_health_status,
  get_ready_status, ServiceEntry, entry_of,
}

-- Every check was answered or not.
abbrev pub IsDecided : ServiceHealth → Type 0
IsDecided s = (s.status ≡ healthy) ⊎ (s.status ≡ unhealthy)

every_healthy :
    (services : List ServiceHealth) (entries : Map ServiceEntry) (before : Bool)
    → All IsDecided services
    → (collect entries before services).1 ≡ (before || not (every is_healthy services))
unfolding collect
every_healthy [] entries before h = ground arith
every_healthy (s ∷ ss) entries before (inl e, h) =
    let rest = every_healthy ss (insert s.name (entry_of s) entries) before h in ground arith
every_healthy (s ∷ ss) entries before (inr e, h) =
    let rest = every_healthy ss (insert s.name (entry_of s) entries) true h in ground arith

counts_add_up :
    (services : List ServiceHealth)
    → length (filter is_healthy services)
        + length (filter is_unhealthy services)
        + length (filter is_degraded services)
      ≡ length services
counts_add_up [] = refl
counts_add_up (s ∷ ss) = let rest = counts_add_up ss in ground arith

all_counted :
    (services : List ServiceHealth)
    → (every is_healthy services ≡ true) ↔ (length (filter is_healthy services) ≡ length services)
all_counted [] = ground arith
all_counted (s ∷ ss) = let rest = all_counted ss in ground (arith, length-filter-le is_healthy ss)

some_counted :
    (services : List ServiceHealth)
    → (any is_healthy services ≡ true) ↔ (length (filter is_healthy services) ≢ 0)
some_counted [] = ground arith
some_counted (s ∷ ss) = let rest = some_counted ss in ground arith

-- The counts add up to the total, all are healthy exactly if the overall status is, and it is unhealthy
-- exactly if none is, of at least one.
pub summary_adds_up :
    (services : List ServiceHealth) (now : ℕ)
    → let report = get_services_health services now in
      (report.healthy_count + report.unhealthy_count + report.degraded_count ≡ report.total)
      × ((report.overall_status ≡ healthy) ↔ (report.healthy_count ≡ report.total))
      × ((report.overall_status ≡ unhealthy) ↔ ((report.healthy_count ≡ 0) × (report.total ≢ 0)))
unfolding get_services_health overall
summary_adds_up services now =
    let all = all_counted services in
    let one = some_counted services in (counts_add_up services, ground arith, ground arith)

-- If every service is healthy or unhealthy, as the checks leave it: the gateway's status is healthy,
-- and the gateway is ready, exactly if the route that lists the services says healthy.
pub reports_agree :
    (services : List ServiceHealth) (now : ℕ)
    → All IsDecided services
    → (((get_health_status services now).status ≡ healthy)
        ↔ ((get_services_health services now).overall_status ≡ healthy))
      × (((get_ready_status services now).0 ≡ "ready")
          ↔ ((get_services_health services now).overall_status ≡ healthy))
unfolding get_health_status get_ready_status get_services_health overall
reports_agree services now h =
    let e = every_healthy services [] false h in
    elim (Bool-cases (every is_healthy services)) [
      | inl all ↦ rw (e, all) (((λ x. refl), (λ x. refl)), ((λ x. refl), (λ x. refl)))
      | inr not_all ↦ elim (Bool-cases (any is_healthy services)) [
        | inl one ↦
            rw (e, not_all, one) (((λ x. x), (λ x. x)), ((λ x. absurd (not_ready x)), (λ x. cc)))
        | inr no_one ↦
            rw (e, not_all, no_one)
              (((λ x. cc), (λ x. cc)), ((λ x. absurd (not_ready x)), (λ x. cc)))
      ]
    ]
  where
    not_ready : ◌≡◌ {A = String} "not_ready" "ready" → ⊥
    not_ready x = let same = (eq_iff "not_ready" "ready").1 x in ground arith

module _ {N : Type 0} (env : ServiceUrls) (ping : String → ℕ → Action (Process N) ℕ)
    (service : ServiceName) (p : Process N) where
  -- A check always answers: the record is healthy exactly if the call through the breaker succeeded,
  -- carries the service's name and the time of the answer, and is what the cache then holds.
  pub check_answers :
      let (report, q) = check_service_health env ping service p in
      (report.name ≡ name_of service)
      × (report.last_check ≡ q.clock)
      × (get_cached_health (name_of service) q ≡ some report)
      × ((report.status ≡ healthy)
          ↔ ((status : ℕ) × ((guarded_ping env ping service p).0 ≡ ok status)))
      × (IsDecided report)
  unfolding check_service_health health_of get_cached_health
  check_answers = elim (Result-cases (guarded_ping env ping service p).0) [
    | inl (status, e) ↦
        rw e ((refl, refl, get-insert_self _ _ _, ((λ h. (status, refl)), (λ h. refl)), inl refl))
    | inr (error, e) ↦ rw e (
        (
          refl,
          refl,
          get-insert_self _ _ _,
          ((λ h. let h' : unhealthy ≡ healthy = h in cc), (λ (status, h). cc)),
          inr refl,
        ))
  ]

  -- While the circuit of the checks is open and its time has not come, the service is reported as
  -- unhealthy at once, with the fallback's error, and no request is sent.
  pub open_check_unhealthy :
      (r : ℕ)
      → get (name_of service) p.circuits ≡ some r
      → (p.cells r).state ≡ opened
      → p.clock < (p.cells r).next_attempt_time
      → let (report, q) = check_service_health env ping service p in
        (report.status ≡ unhealthy)
        × (report.response_time ≡ 0)
        × (report.error
            ≡ some (plain ("Fallback: " +ₛ name_of service +ₛ " service is unavailable.")))
        × (q.net ≡ p.net)
  unfolding check_service_health guarded_ping service_unavailable health_of
  open_check_unhealthy r hit broken early =
      rw
        (opened_falls_back (name_of service) CircuitBreaker.default_options p
          (ping ((service_config env service).url +ₛ "/health")
            (service_config env service).timeout)
          (service_unavailable env service) r hit broken early)
        (refl, omega arith, refl, refl)
