-- ===== src/Gateway/Auth.antt =====
-- api-gateway/src/auth: services/auth.service.ts, strategies/jwt.strategy.ts and the guards. zod's tests
-- of texts, passport's check of a token and the HTTP client are parameters.
pub mod Checks
use study_microsservices_nod.Base.{
  ℕ, String, Bool, true, false, not, ◌&&◌, ◌||◌, ◌=ₛ◌, ◌+ₛ◌, any, Option, none, some, List, [], ◌∷◌,
  Map, Value, Action, Error, http, pure, raise, raise_if, or_raise, try_catch, ◌>>=◌, ◌>>◌,
  if◌then◌else◌,
}
use study_microsservices_nod.Base.Values.{
  undefined, null, bool, num, str, array, object, Members, no_members, member, is_truthy,
}
use study_microsservices_nod.Gateway.Process.{Process}
use study_microsservices_nod.Gateway.Config.{ServiceUrls, users}
use study_microsservices_nod.Gateway.Proxy.{
  HttpMethod, get, post, HttpRequest, HttpResponse, UserPayload, proxy_request,
}

abbrev pub unauthorized : String → Error
unauthorized message = http 401 (str message)

abbrev pub forbidden : String → Error
forbidden message = http 403 (str message)

-- `value.name`, of an object.
abbrev pub member_of : String → Members → Value
member_of name no_members = undefined
member_of name (member this v rest) = if this =ₛ name then v else member_of name rest

-- `z.uuid()` and `z.email()`.
pub record Texts : Type 0 where
  pub is_uuid : String → Bool
  pub is_email : String → Bool

abbrev pub is_role : String → Bool
is_role s = (s =ₛ "seller") || (s =ₛ "buyer")

module _ (texts : Texts) where
  -- The three fields of a payload and of an identity.
  abbrev pub payload_of : Value → Value → Value → Option UserPayload
  payload_of (str id) (str email) (str role) =
      if texts.is_uuid id && texts.is_email email && is_role role
      then some (record { user_id = id; email = email; role = role })
      else none
  payload_of _ _ _ = none

  -- `jwtPayloadSchema.safeParse`, its `sub` as the user's id.
  unfoldable pub jwt_payload_schema : Value → Option UserPayload
  jwt_payload_schema (object fields) =
      payload_of (member_of "sub" fields) (member_of "email" fields) (member_of "role" fields)
  jwt_payload_schema _ = none

  -- `userPayloadSchema.safeParse`
  unfoldable pub user_payload_schema : Value → Option UserPayload
  user_payload_schema (object fields) =
      payload_of (member_of "userId" fields) (member_of "email" fields) (member_of "role" fields)
  user_payload_schema _ = none

module _ {N : Type 0} (env : ServiceUrls) (show : ℕ → String)
    (request : HttpRequest → Action (Process N) HttpResponse) where
  unfoldable pub validate_jwt_token : String → Action (Process N) Value
  unfolding proxy_request
  validate_jwt_token authorization =
      proxy_request env show request users get "/auth/validate-token" undefined
        (("Authorization", str authorization) ∷ []) none

  unfoldable pub login : Value → Action (Process N) Value
  unfolding proxy_request
  login login_dto = proxy_request env show request users post "/auth/login" login_dto [] none

  unfoldable pub register : Value → Action (Process N) Value
  unfolding proxy_request
  register register_dto =
      proxy_request env show request users post "/auth/register" register_dto [] none

  -- `JwtStrategy.validate`, with the header `Authorization` if it is there and not empty.
  unfoldable pub validate : Texts → Option String → Value → Action (Process N) UserPayload
  unfolding jwt_payload_schema user_payload_schema validate_jwt_token
  validate texts authorization payload = do
    parsed_payload ←
        or_raise (jwt_payload_schema texts payload) (unauthorized "Invalid token payload")
    token ← or_raise authorization (unauthorized "Invalid token payload")
    identity ← validate_jwt_token token
    or_raise (user_payload_schema texts identity) (unauthorized "User not found")

abbrev pub join_roles : List String → String
join_roles [] = ""
join_roles (role ∷ []) = role
join_roles (role ∷ more ∷ roles) = role +ₛ ", " +ₛ join_roles (more ∷ roles)

-- `user?.role`, if it is truthy.
abbrev pub role_of : Option UserPayload → Option String
role_of none = none
role_of (some user) = if user.role =ₛ "" then none else some user.role

module _ {S : Type 0} where
  -- `JwtAuthGuard.canActivate`, with the check of passport's guard.
  unfoldable pub can_activate_jwt : Bool → Action S Bool → Action S Bool
  can_activate_jwt true passport = pure true
  can_activate_jwt false passport = passport

  -- `JwtAuthGuard.handleRequest`
  unfoldable pub handle_request : {U : Type 0} → Option Error → Option U → Action S U
  handle_request (some error) user = raise error
  handle_request none user = or_raise user (unauthorized "Unauthorized access")

  -- `RoleGuard.canActivate`, with the roles that the handler asks for and the user of the request.
  unfoldable pub can_activate_role : Option (List String) → Option UserPayload → Action S Bool
  can_activate_role none user = pure true
  can_activate_role (some required_roles) user = do
    role ← or_raise (role_of user) (forbidden "User role not found")
    raise_if (not (any (λ required. required =ₛ role) required_roles))
          (forbidden ("Access denied. Required role(s): " +ₛ join_roles required_roles))
        >> pure true

-- The answer about a session: whether it is valid, and its user, of some type.
pub record UserSession (U : Type 0) : Type 0 where
  pub valid : Bool
  pub user : Option U

module _ {S U : Type 0} (url : String) (http_get : String → Action S (UserSession U)) where
  -- `AuthService.validateSessionToken`
  unfoldable pub validate_session_token : String → Action S (UserSession U)
  validate_session_token token =
      try_catch (http_get (url +ₛ "/sessions/validate/" +ₛ token))
        (λ e. raise (unauthorized "Invalid session token"))

  abbrev pub session_user : UserSession U → Option U
  session_user session = if session.valid then session.user else none

  -- `SessionGuard.canActivate`, with the header `x-session-token` if it is there and not empty; it
  -- answers the user that it gives the request.
  unfoldable pub can_activate_session : Option String → Action S U
  unfolding validate_session_token
  can_activate_session header = do
    token ← or_raise header (unauthorized "Session token is missing")
    try_catch
        (do
          session ← validate_session_token token
          or_raise (session_user session) (unauthorized "Invalid session token"))
        (λ e. raise (unauthorized "Invalid session token"))
