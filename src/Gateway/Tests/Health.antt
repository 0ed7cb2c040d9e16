-- ===== src/Gateway/Tests/Health.antt =====
-- Checks of the services on concrete processes.
use study_microsservices_nod.Base.{
  ℕ, ◌≡◌, ◌↔◌, String, none, Action, plain, ok, err, if◌then◌else◌, ◌=ₛ◌,
}
use study_microsservices_nod.Gateway.Process.{healthy, closed}
use study_microsservices_nod.Gateway.Config.{ServiceName, ServiceUrls, name_of}
use study_microsservices_nod.Gateway.Health.{
  get_services_health, get_health_status, get_ready_status,
}
use study_microsservices_nod.Gateway.Health.Together.{IsAnswered, reports, services_reported}
use study_microsservices_nod.Gateway.Tests.{Gateway, circuit, process}

abbrev urls : ServiceUrls
urls = record {
  users_service_url = none;
  products_service_url = none;
  checkout_service_url = none;
  payments_service_url = none;
}

-- All services but that for payments answer.
abbrev ping : ServiceName → String → ℕ → Action Gateway ℕ
ping service url timeout p =
    (if name_of service =ₛ "payments" then err (plain "down") else ok 200, p)

abbrev start : ServiceName → Gateway
start service = process (name_of service) 100 (circuit closed 0)

services_reported_example :
    let all = (service : ServiceName) → IsAnswered urls ping start service in
    let services = reports urls ping start 100 in
    (((get_health_status services 100).status ≡ healthy) ↔ all)
    × (((get_ready_status services 100).0 ≡ "ready") ↔ all)
    × (((get_services_health services 100).overall_status ≡ healthy) ↔ all)
    × ((get_services_health services 100).total ≡ 4)
services_reported_example = services_reported urls ping start 100
