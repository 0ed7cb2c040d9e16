-- ===== src/Access.antt =====
-- Who a request is from, in every service: auth/strategies/jwt.strategy.ts, auth/guards/jwt-auth.guard.ts and
-- auth/interfaces/jwt-payload.interface.ts, which users-service, products-service and checkout-service
-- have alike; the token's check of users-service/src/auth/controllers/auth.controller.ts; and the gateway's
-- guard round its strategy. passport is a parameter.
pub mod Sessions
pub mod Login
pub mod Tests
use study_microsservices_nod.Base.{
  ℕ, String, ◌&&◌, Option, none, some, Error, Value, Action, Result, ok, err, pure, ◌>>=◌, ◌≡◌,
  if◌then◌else◌,
}
use study_microsservices_nod.Base.Values.{str, num, object, member, no_members}
use study_microsservices_nod.Bodies.Services.{user_role}
use study_microsservices_nod.Users.{UserRole, seller, buyer}
use study_microsservices_nod.Users.Auth.{
  JwtPayload, AuthenticatedUser, TokenValidationResponse, validate, validate_token,
}
use study_microsservices_nod.Users.Auth as Users
use study_microsservices_nod.Gateway.Auth.{Texts, member_of}
use study_microsservices_nod.Gateway.Auth as Gateway
use study_microsservices_nod.Gateway.Config.{ServiceUrls}
use study_microsservices_nod.Gateway.Process.{Process}
use study_microsservices_nod.Gateway.Proxy.{HttpRequest, HttpResponse, UserPayload}

-- `passport-jwt` with its secret: the claims of the token of a header `Authorization` at a time, if it is
-- signed and has not expired; and `AuthGuard('jwt')` round a strategy and `handleRequest`.
pub record Passport : Type 1 where
  pub verify : Option String → ℕ → Option Value
  pub auth_guard :
      {S A : Type 0} (strategy : Value → Action S A) (handle : Option Error → Option A → Action S A)
      → Option String
      → ℕ
      → Action S A

-- The guard asks the strategy about verified claims, and `handleRequest` about what came of it.
pub record IsPassport (passport : Passport) : Type 1 where
  pub known :
      {S A : Type 0} (strategy : Value → Action S A) (handle : Option Error → Option A → Action S A)
      (header : Option String) (time : ℕ) (s : S) (claims : Value) (user : A)
      → passport.verify header time ≡ some claims
      → (strategy claims s).0 ≡ ok user
      → passport.auth_guard strategy handle header time s
        ≡ handle none (some user) (strategy claims s).1
  pub thrown :
      {S A : Type 0} (strategy : Value → Action S A) (handle : Option Error → Option A → Action S A)
      (header : Option String) (time : ℕ) (s : S) (claims : Value) (e : Error)
      → passport.verify header time ≡ some claims
      → (strategy claims s).0 ≡ err e
      → passport.auth_guard strategy handle header time s
        ≡ handle (some e) none (strategy claims s).1
  pub refused :
      {S A : Type 0} (strategy : Value → Action S A) (handle : Option Error → Option A → Action S A)
      (header : Option String) (time : ℕ) (s : S)
      → passport.verify header time ≡ none
      → passport.auth_guard strategy handle header time s ≡ handle none none s

abbrev pub role_name : UserRole → String
role_name seller = "seller"
role_name buyer = "buyer"

-- The claims in a token that `signAsync` has made, for an option `expiresIn`: the payload's, and the seconds
-- at which it was issued and at which it expires.
unfoldable pub claims_of : JwtPayload → ℕ → ℕ → Value
claims_of payload iat exp = object (
    member "sub" (str payload.sub) (
      member "email" (str payload.email) (
        member "role" (str (role_name payload.role))
          (member "iat" (num iat) (member "exp" (num exp) no_members)))))

-- The JSON of an answer of `validateToken`.
unfoldable pub identity_of : TokenValidationResponse → Value
identity_of answer = object (
    member "userId" (str answer.user_id)
      (member "email" (str answer.email) (member "role" (str (role_name answer.role)) no_members)))

module _ (texts : Texts) where
  abbrev pub payload_from : Value → Value → Value → Option JwtPayload
  payload_from (str sub) (str email) (str role) =
      if texts.is_uuid sub && texts.is_email email
      then elim (user_role role) [
        | none ↦ none
        | some r ↦ some (record { sub = sub; email = email; role = r })
      ]
      else none
  payload_from _ _ _ = none

  -- `jwtPayloadSchema.safeParse`
  unfoldable pub jwt_payload_schema : Value → Option JwtPayload
  jwt_payload_schema (object fields) =
      payload_from (member_of "sub" fields) (member_of "email" fields) (member_of "role" fields)
  jwt_payload_schema _ = none

  -- The user of a request to a guarded route of a service.
  unfoldable pub user_of_request :
      {S : Type 0} → Passport → Option String → ℕ → Action S AuthenticatedUser
  user_of_request passport header time =
      passport.auth_guard (validate jwt_payload_schema) Users.handle_request header time

  -- `GET /auth/validate-token` of the users service.
  unfoldable pub validate_token_route : {S : Type 0} → Passport → Option String → ℕ → Action S Value
  validate_token_route passport header time = do
    user ← user_of_request passport header time
    pure (identity_of (validate_token user))

  -- The user of a request to a guarded route of the gateway.
  unfoldable pub user_at_gateway :
      {N : Type 0} (env : ServiceUrls) (show : ℕ → String)
      (request : HttpRequest → Action (Process N) HttpResponse)
      → Passport
      → Option String
      → ℕ
      → Action (Process N) UserPayload
  user_at_gateway env show request passport header time =
      passport.auth_guard (Gateway.validate env show request texts header) Gateway.handle_request
        header time
