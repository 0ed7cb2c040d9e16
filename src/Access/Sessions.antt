-- ===== src/Access/Sessions.antt =====
-- From a login to the user of a later request, in every service.
use study_microsservices_nod.Base.{
  ℕ, String, true, Option, none, some, ◌≡◌, refl, ap, ◌∙◌, ◌⊎◌, inl, inr, Value, ok, err,
  Option-cases,
}
use study_microsservices_nod.Base.Values.{str}
use study_microsservices_nod.Users.{User, UserRole, seller, buyer}
use study_microsservices_nod.Users.Auth.{
  JwtPayload, LoginInput, LoginResponse, Crypto, IsCrypto, AuthenticatedUser, payload_of, has_email,
  login, validate, unauthorized, validate_token,
}
use study_microsservices_nod.Users.Auth as Users
use study_microsservices_nod.Gateway.Auth.{Texts, validate_jwt_token}
use study_microsservices_nod.Gateway.Auth as Gateway
use study_microsservices_nod.Gateway.Proxy.{UserPayload}
use study_microsservices_nod.Access.{
  Passport, IsPassport, role_name, claims_of, identity_of, payload_from, jwt_payload_schema,
  user_of_request,
}

abbrev pub user_of : JwtPayload → AuthenticatedUser
user_of payload = record { id = payload.sub; email = payload.email; role = payload.role }

module _ (texts : Texts) (passport : Passport) (laws : IsPassport passport) where
  abbrev pub parsed : Option Value → Option JwtPayload
  parsed none = none
  parsed (some claims) = jwt_payload_schema texts claims

  -- The claims of a verified token, if they have their form.
  abbrev pub parsed_claims : Option String → ℕ → Option JwtPayload
  parsed_claims header time = parsed (passport.verify header time)

  -- A guarded route of a service has the user that verified claims of their form name, and is 401 for every
  -- other request.
  pub user_of_request_decided :
      {S : Type 0} (header : Option String) (time : ℕ) (s : S)
      → ((payload : JwtPayload) × (parsed_claims header time ≡ some payload)
          × (user_of_request texts passport header time s ≡ (ok (user_of payload), s)))
        ⊎ ((parsed_claims header time ≡ none)
            × (user_of_request texts passport header time s ≡ (err unauthorized, s)))
  unfolding user_of_request Users.handle_request validate
  user_of_request_decided header time s =
      let strategy = validate (jwt_payload_schema texts) in
      elim (Option-cases (passport.verify header time)) [
        | inl unverified ↦ inr (
          ap parsed unverified,
          laws.refused strategy Users.handle_request header time s unverified,
        )
        | inr (claims, verified) ↦ elim (Option-cases (jwt_payload_schema texts claims)) [
          | inl bad ↦ inr (
            ap parsed verified ∙ bad,
            laws.thrown strategy Users.handle_request header time s claims unauthorized verified
                  (rw bad refl)
                ∙ rw bad refl,
          )
          | inr (payload, parses) ↦ inl (
            payload,
            ap parsed verified ∙ parses,
            laws.known strategy Users.handle_request header time s claims (user_of payload) verified
                  (rw parses refl)
                ∙ rw parses refl,
          )
        ]
      ]

-- The ids and emails of users have their forms.
abbrev pub IsIdentified : Texts → User → Type 0
IsIdentified texts user = (texts.is_uuid user.id ≡ true) × (texts.is_email user.email ≡ true)

role_parses :
    (texts : Texts) (sub email : String) (role : UserRole)
    → texts.is_uuid sub ≡ true
    → texts.is_email email ≡ true
    → payload_from texts (str sub) (str email) (str (role_name role))
      ≡ some (record { sub = sub; email = email; role = role })
role_parses texts sub email seller h k = rw (h, k) refl
role_parses texts sub email buyer h k = rw (h, k) refl

pub claims_parse :
    (texts : Texts) (payload : JwtPayload) (iat exp : ℕ)
    → texts.is_uuid payload.sub ≡ true
    → texts.is_email payload.email ≡ true
    → jwt_payload_schema texts (claims_of payload iat exp) ≡ some payload
unfolding jwt_payload_schema claims_of
claims_parse texts payload iat exp h k =
    role_parses texts payload.sub payload.email payload.role h k

-- The gateway's payload of a user.
abbrev pub gateway_user_of : JwtPayload → UserPayload
gateway_user_of payload = record {
  user_id = payload.sub;
  email = payload.email;
  role = role_name payload.role;
}

gateway_parses :
    (texts : Texts) (sub email : String) (role : UserRole)
    → texts.is_uuid sub ≡ true
    → texts.is_email email ≡ true
    → Gateway.payload_of texts (str sub) (str email) (str (role_name role))
      ≡ some (record { user_id = sub; email = email; role = role_name role })
gateway_parses texts sub email seller h k = rw (h, k) refl
gateway_parses texts sub email buyer h k = rw (h, k) refl

pub gateway_claims_parse :
    (texts : Texts) (payload : JwtPayload) (iat exp : ℕ)
    → texts.is_uuid payload.sub ≡ true
    → texts.is_email payload.email ≡ true
    → Gateway.jwt_payload_schema texts (claims_of payload iat exp) ≡ some (gateway_user_of payload)
unfolding Gateway.jwt_payload_schema claims_of
gateway_claims_parse texts payload iat exp h k =
    gateway_parses texts payload.sub payload.email payload.role h k

pub identity_parses :
    (texts : Texts) (payload : JwtPayload)
    → texts.is_uuid payload.sub ≡ true
    → texts.is_email payload.email ≡ true
    → Gateway.user_payload_schema texts (identity_of (validate_token (user_of payload)))
      ≡ some (gateway_user_of payload)
unfolding Gateway.user_payload_schema identity_of validate_token
identity_parses texts payload h k = gateway_parses texts payload.sub payload.email payload.role h k
