-- ===== src/Access/Tests.antt =====
-- A user logs in and sends a request with the token.
use study_microsservices_nod.Base.{
  ℕ, ◌/◌, ltb, String, Bool, true, false, not, ◌&&◌, ◌=ₛ◌, if◌then◌else◌, get, Option, none, some,
  List, [], ◌∷◌, find, ◌≡◌, ◌∙◌, refl, sym, ap, Error, plain, Value, Action, Result, ok, err,
  eq_iff, Bool-cases, inl, inr, arith,
}
use study_microsservices_nod.Base.Values.{str, num, object, member, no_members}
use study_microsservices_nod.Users.{User, UserRole, seller, buyer, active, to_public_user}
use study_microsservices_nod.Users.Auth.{
  JwtPayload, LoginInput, Crypto, IsCrypto, has_email, login, validate, handle_request,
  validate_token,
}
use study_microsservices_nod.Users.Tests.{table, table-IsRepository, crypto, crypto-IsCrypto, lower}
use study_microsservices_nod.Gateway.Auth.{Texts, validate_jwt_token}
use study_microsservices_nod.Gateway.Config.{ServiceUrls, service_config}
use study_microsservices_nod.Gateway.CircuitBreaker.{execute_with_circuit_breaker}
use study_microsservices_nod.Gateway.Retry.{execute_with_exponential_backoff}
use study_microsservices_nod.Gateway.Timeout.{execute_with_custom_timeout}
use study_microsservices_nod.Gateway.Fallback.{set_cached_data}
use study_microsservices_nod.Gateway.Process.{closed}
use study_microsservices_nod.Gateway.Proxy.{HttpRequest, HttpResponse}
use study_microsservices_nod.Gateway.Tests.{Gateway, circuit, process}
use study_microsservices_nod.Access.{
  Passport, IsPassport, role_name, claims_of, user_of_request, user_at_gateway,
  validate_token_route, jwt_payload_schema, identity_of,
}
use study_microsservices_nod.Access.Login.{IsSigned, login_recognised}

abbrev texts : Texts
texts = record { is_uuid = λ s. not (s =ₛ ""); is_email = λ s. not (s =ₛ "") }

abbrev ana : User
ana = record {
  id = "user-1";
  email = "ana@shop.com";
  password = "hashed secret";
  first_name = "Ana";
  last_name = "Lima";
  role = seller;
  status = active;
  created_at = 5;
  updated_at = 5;
}

abbrev credentials : LoginInput
credentials = record { email = "ana@shop.com"; password = "secret" }

abbrev is_seller : UserRole → Bool
is_seller seller = true
is_seller buyer = false

-- Tokens are signed for Ana alone.
abbrev signs : JwtPayload → Bool
signs p = (p.sub =ₛ "user-1") && (p.email =ₛ "ana@shop.com") && is_seller p.role

abbrev signing : Crypto (List User)
signing = record crypto {
  sign = λ p d. (if signs p then ok "ana's" else err (plain "not signed"), d);
}

signing-IsCrypto : IsCrypto table.rows signing
signing-IsCrypto = record {
  hash_rows = λ p n d. refl;
  compare_rows = λ p h d. refl;
  sign_rows = λ p d. refl;
  compare_hashed = λ p h n d e d'. crypto-IsCrypto.compare_hashed p h n d e d';
}

abbrev ana_claims : Value
ana_claims = object (
    member "sub" (str "user-1") (
      member "email" (str "ana@shop.com") (
        member "role" (str "seller")
          (member "iat" (num 13600) (member "exp" (num 100000) no_members)))))

-- The token was issued at 13600 seconds, for 24 hours.
abbrev fresh_claims : ℕ → Option Value
fresh_claims seconds = if ltb seconds 100000 then some ana_claims else none

abbrev claims_in : Option String → ℕ → Option Value
claims_in none time = none
claims_in (some header) time = if header =ₛ "Bearer ana's" then fresh_claims (time / 1000) else none

abbrev settled :
    {S A : Type 0} → (Option Error → Option A → Action S A) → Result A × S → Result A × S
settled handle (ok user, s) = handle none (some user) s
settled handle (err e, s) = handle (some e) none s

abbrev guarded :
    {S A : Type 0}
    → (Value → Action S A)
    → (Option Error → Option A → Action S A)
    → Option Value
    → Action S A
guarded strategy handle none s = handle none none s
guarded strategy handle (some claims) s = settled handle (strategy claims s)

abbrev passport : Passport
passport = record {
  verify = claims_in;
  auth_guard = λ strategy handle header time s. guarded strategy handle (claims_in header time) s;
}

passport-IsPassport : IsPassport passport
passport-IsPassport = record {
  known = λ strategy handle header time s claims user v e. rw (v, e) refl;
  thrown = λ strategy handle header time s claims error v e. rw (v, e) refl;
  refused = λ strategy handle header time s v. rw v refl;
}

seller_named : (role : UserRole) → is_seller role ≡ true → role_name role ≡ "seller"
seller_named seller h = refl
seller_named buyer h = cc

signed_claims :
    (p : JwtPayload)
    → (p.sub =ₛ "user-1") ≡ true
    → (p.email =ₛ "ana@shop.com") ≡ true
    → is_seller p.role ≡ true
    → ana_claims ≡ claims_of p 13600 100000
unfolding claims_of
signed_claims p h k l =
    let id = (eq_iff p.sub "user-1").0 h in
    let email = (eq_iff p.email "ana@shop.com").0 k in rw (id, email, seller_named p.role l) refl

text_of : {a b : String} → ok a ≡ ok b → a ≡ b
text_of h = cc

failed : {e : Error} {token : String} → err e ≡ ok token → ⊥
failed h = cc

signed_token :
    (p : JwtPayload) (token : String) (d : List User)
    → (signing.sign p d).0 ≡ ok token
    → (signs p ≡ true) × (token ≡ "ana's")
signed_token p token d h = elim (Bool-cases (signs p)) [
  | inl signed ↦ (signed, text_of (sym (rw signed at h)))
  | inr unsigned ↦ absurd (failed (rw unsigned at h))
]

signing-IsSigned : IsSigned signing passport (λ token. 100000)
signing-IsSigned = record {
  verified = λ p d token time made fresh.
      let (mine, same) = signed_token p token d made in
      let claims = signed_claims p (ground arith) (ground arith) (ground arith) in
      let soon : ltb (time / 1000) 100000 ≡ true = ground arith in
      (13600, rw (same, soon) (ap some claims));
}

abbrev urls : ServiceUrls
urls = record {
  users_service_url = none;
  products_service_url = none;
  checkout_service_url = none;
  payments_service_url = none;
}

abbrev show : ℕ → String
show n = "0"

-- The users service answers the identity of Ana.
abbrev identity : Value
identity = object (
    member "userId" (str "user-1")
      (member "email" (str "ana@shop.com") (member "role" (str "seller") no_members)))

abbrev answers : HttpRequest → Action Gateway HttpResponse
answers x p = (ok (record { status = 200; content = identity }), p)

abbrev state : String
state = "any state"

abbrev before : Gateway
before = process "proxy-users" 100 (circuit closed 0)

proxied : (validate_jwt_token urls show answers "Bearer ana's" before).0 ≡ ok identity
unfolding validate_jwt_token get service_config execute_with_circuit_breaker
    execute_with_exponential_backoff execute_with_custom_timeout set_cached_data
proxied = refl

checked : (validate_token_route texts passport (some "Bearer ana's") 50000000 state).0 ≡ ok identity
unfolding validate_token_route user_of_request validate handle_request jwt_payload_schema
    validate_token identity_of
checked = refl

login_recognised_example :
    (user : User) × (find (has_email table lower signing "ana@shop.com") (ana ∷ []) ≡ some user)
    × (to_public_user ana ≡ to_public_user user)
    × (user_of_request texts passport (some "Bearer ana's") 50000000 state
        ≡ (ok (record { id = user.id; email = user.email; role = user.role }), state))
    × ((user_at_gateway texts urls show answers passport (some "Bearer ana's") 50000000 before).0
        ≡ ok (record { user_id = user.id; email = user.email; role = role_name user.role }))
unfolding login
login_recognised_example =
    login_recognised table table-IsRepository lower signing signing-IsCrypto passport
      passport-IsPassport (λ token. 100000) signing-IsSigned texts urls show answers credentials
      (ana ∷ []) (record { user = to_public_user ana; token = "ana's" }) 50000000 state before
      ((refl, refl), tt) refl (omega arith) (proxied ∙ sym checked)
