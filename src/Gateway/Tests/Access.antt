-- ===== src/Gateway/Tests/Access.antt =====
-- Users and roles at the gateway's guards, on concrete requests.
use study_microsservices_nod.Base.{
  ℕ, ◌≡◌, String, not, ◌=ₛ◌, some, Value, Action, err, plain, arith,
}
use study_microsservices_nod.Base.Values.{str, object, member, no_members}
use study_microsservices_nod.Gateway.Proxy.{HttpRequest, HttpResponse, UserPayload}
use study_microsservices_nod.Gateway.Routes.{Authenticated, orders_one, call_of}
use study_microsservices_nod.Gateway.Routes.Identity.{IsFrom, sent_for, route-IsFrom}
use study_microsservices_nod.Gateway.Auth.{Texts, unauthorized, validate}
use study_microsservices_nod.Gateway.Auth.Checks.{outage_rejects}
use study_microsservices_nod.Gateway.Tests.{Gateway}
use study_microsservices_nod.Gateway.Tests.Proxied.{urls, down, down_reached}

abbrev show : ℕ → String
show n = "0"

abbrev texts : Texts
texts = record { is_uuid = λ s. not (s =ₛ ""); is_email = λ s. not (s =ₛ "") }

abbrev silent : HttpRequest → Action Gateway HttpResponse
silent x p = (err (plain "down"), p)

abbrev user : UserPayload
user = record { user_id = "user-1"; email = "ana@shop.com"; role = "seller" }

abbrev claims : Value
claims = object (
    member "sub" (str "user-1")
      (member "email" (str "ana@shop.com") (member "role" (str "seller") no_members)))

abbrev request : Authenticated
request = record { authorization = str "Bearer token"; user = user }

route-IsFrom_example : IsFrom request (sent_for urls (call_of (orders_one "order-1") request))
route-IsFrom_example = route-IsFrom urls (orders_one "order-1") request

outage_rejects_example :
    (message : String) × ((validate urls show silent texts (some "Bearer token") claims down).0
      ≡ err (unauthorized message))
outage_rejects_example =
    let (hit, is_open, early, held) = down_reached in
    outage_rejects urls show silent texts (some "Bearer token") claims down 0 held hit is_open
      (ground (arith, early))
