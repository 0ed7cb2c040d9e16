-- ===== src/Gateway/Health/Together.antt =====
-- The four checks together, and what the routes say of them.
use study_microsservices_nod.Base.{
  ℕ, ◌≡◌, ◌↔◌, inl, inr, refl, String, Bool, true, false, ◌&&◌, List, every, any, All, Action, ok,
  arith, Bool-cases,
}
use study_microsservices_nod.Gateway.Process.{
  Process, HealthStatus, ServiceHealth, healthy, unhealthy, degraded,
}
use study_microsservices_nod.Gateway.Config.{
  ServiceName, ServiceUrls, users, checkout, products, payments,
}
use study_microsservices_nod.Gateway.Health.{
  is_healthy, guarded_ping, check_service_health, settled_check, check_all_services, settled_health,
  overall, get_services_health, get_health_status, get_ready_status,
}
use study_microsservices_nod.Gateway.Health.Laws.{IsDecided, check_answers, reports_agree}

iff_trans : {A B C : Type 0} → A ↔ B → B ↔ C → A ↔ C
iff_trans (f, g) (h, k) = ((λ a. h (f a)), (λ c. g (k c)))

four :
    (a b c d : Bool)
    → (a && (b && (c && (d && true)))) ≡ true
    → (a ≡ true) × (b ≡ true) × (c ≡ true) × (d ≡ true)
four a b c d h = ground arith

status_iff :
    (h : HealthStatus)
    → (elim h [ healthy ↦ true | unhealthy ↦ false | degraded ↦ false ] ≡ true) ↔ (h ≡ healthy)
status_iff healthy = ((λ x. refl), (λ x. refl))
status_iff unhealthy = ((λ x. cc), (λ x. cc))
status_iff degraded = ((λ x. cc), (λ x. cc))

is_healthy_iff : (s : ServiceHealth) → (is_healthy s ≡ true) ↔ (s.status ≡ healthy)
is_healthy_iff s = status_iff s.status

overall_iff :
    (services : List ServiceHealth) (now : ℕ)
    → ((get_services_health services now).overall_status ≡ healthy)
      ↔ (every is_healthy services ≡ true)
unfolding get_services_health overall
overall_iff services now = elim (Bool-cases (every is_healthy services)) [
  | inl all ↦ rw all ((λ x. refl), (λ x. refl))
  | inr not_all ↦ elim (Bool-cases (any is_healthy services)) [
    | inl one ↦ rw (not_all, one) ((λ x. cc), (λ x. cc))
    | inr no_one ↦ rw (not_all, no_one) ((λ x. cc), (λ x. cc))
  ]
]

each_service :
    (P : ServiceName → Type 0)
    → P users
    → P checkout
    → P products
    → P payments
    → (service : ServiceName) → P service
each_service P a b c d users = a
each_service P a b c d checkout = b
each_service P a b c d products = c
each_service P a b c d payments = d

module _ {N : Type 0} (env : ServiceUrls) (ping : ServiceName → String → ℕ → Action (Process N) ℕ)
    (start : ServiceName → Process N) where
  -- The request for a service's health was answered.
  abbrev pub IsAnswered : ServiceName → Type 0
  IsAnswered service =
      (status : ℕ) × ((guarded_ping env (ping service) service (start service)).0 ≡ ok status)

  abbrev pub reports : ℕ → List ServiceHealth
  reports now = check_all_services env (settled_check env ping start) now

  abbrev report : ServiceName → ServiceHealth
  report service = (check_service_health env (ping service) service (start service)).0

  report_iff : (service : ServiceName) → (is_healthy (report service) ≡ true) ↔ IsAnswered service
  report_iff service =
      let (name, time, cached, answered, decided) =
        check_answers env (ping service) service (start service) in
      let healthy_iff = is_healthy_iff (report service) in
      ((λ h. answered.0 (healthy_iff.0 h)), (λ h. healthy_iff.1 (answered.1 h)))

  report-IsDecided : (service : ServiceName) → IsDecided (report service)
  report-IsDecided service =
      let (name, time, cached, answered, decided) =
        check_answers env (ping service) service (start service) in
      decided

  reports-IsDecided : (now : ℕ) → All IsDecided (reports now)
  unfolding check_all_services settled_check settled_health
  reports-IsDecided now = (
    report-IsDecided users,
    (report-IsDecided checkout, (report-IsDecided products, (report-IsDecided payments, tt))),
  )

  all_healthy :
      (now : ℕ)
      → (every is_healthy (reports now) ≡ true) ↔ ((service : ServiceName) → IsAnswered service)
  unfolding check_all_services settled_check settled_health
  all_healthy now = (
    (λ h.
        let (a, b, c, d) = four _ _ _ _ h in
        each_service IsAnswered ((report_iff users).0 a) ((report_iff checkout).0 b)
          ((report_iff products).0 c) ((report_iff payments).0 d)),
    (λ all.
        rw
          (
            (report_iff users).1 (all users),
            (report_iff checkout).1 (all checkout),
            (report_iff products).1 (all products),
            (report_iff payments).1 (all payments),
          )
          refl),
  )

  four_reports : (now : ℕ) → (get_services_health (reports now) now).total ≡ 4
  unfolding get_services_health check_all_services
  four_reports now = refl

  -- However the checks run among each other and whatever else happens meanwhile, the gateway reports itself
  -- healthy, says that it is ready, and lists the services as healthy overall, each exactly if all four
  -- services have answered; and all four are in the list.
  pub services_reported :
      (now : ℕ)
      → let all = (service : ServiceName) → IsAnswered service in
        (((get_health_status (reports now) now).status ≡ healthy) ↔ all)
        × (((get_ready_status (reports now) now).0 ≡ "ready") ↔ all)
        × (((get_services_health (reports now) now).overall_status ≡ healthy) ↔ all)
        × ((get_services_health (reports now) now).total ≡ 4)
  services_reported now =
      let (gateway, ready) = reports_agree (reports now) now (reports-IsDecided now) in
      let everyone = iff_trans (overall_iff (reports now) now) (all_healthy now) in
      (iff_trans gateway everyone, iff_trans ready everyone, everyone, four_reports now)
