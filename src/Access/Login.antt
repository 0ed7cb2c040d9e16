-- ===== src/Access/Login.antt =====
-- A login, and the requests that carry its token.
use mathlib.Core.Path.{subst}
use study_microsservices_nod.Base.{
  ℕ, ◌<◌, ◌/◌, String, Bool, true, ◌+ₛ◌, Option, none, some, List, [], ◌∷◌, find, All, ◌≡◌, refl,
  ap, sym, ◌∙◌, inl, inr, Action, ok, Bool-cases,
}
use study_microsservices_nod.Users.{User, to_public_user, UsersRepository, IsRepository}
use study_microsservices_nod.Users.Auth.{
  JwtPayload, LoginInput, LoginResponse, Crypto, IsCrypto, payload_of, has_email, login,
  validate_token,
}
use study_microsservices_nod.Users.Auth.Effects.{login_effect}
use study_microsservices_nod.Gateway.Auth.{Texts, validate, validate_jwt_token}
use study_microsservices_nod.Gateway.Auth as Gateway
use study_microsservices_nod.Gateway.Auth.Checks.{validate_iff}
use study_microsservices_nod.Gateway.Config.{ServiceUrls}
use study_microsservices_nod.Gateway.Process.{Process}
use study_microsservices_nod.Gateway.Proxy.{HttpRequest, HttpResponse}
use study_microsservices_nod.Access.{
  Passport, IsPassport, role_name, claims_of, identity_of, user_of_request, validate_token_route,
  user_at_gateway,
}
use study_microsservices_nod.Access.Sessions.{
  user_of, gateway_user_of, parsed, IsIdentified, user_of_request_decided, claims_parse,
  gateway_claims_parse, identity_parses,
}

abbrev pub bearer : String → String
bearer token = "Bearer " +ₛ token

same_value : {A : Type 0} {x : Option A} {a b : A} → x ≡ some a → x ≡ some b → a ≡ b
same_value h k = cc

no_value : {A : Type 0} {x : Option A} {a : A} → x ≡ some a → x ≡ none → ⊥
no_value h k = cc

find-All :
    (P : User → Type 0) (test : User → Bool) (rows : List User) (user : User)
    → All P rows
    → find test rows ≡ some user
    → P user
find-All P test [] user h hit = cc
find-All P test (row ∷ rows) user (h, hs) hit = elim (Bool-cases (test row)) [
  | inl here ↦ subst P (same_value refl (rw here at hit)) h
  | inr not_here ↦ find-All P test rows user hs (rw not_here at hit)
]

same_response : {a b : LoginResponse} → ok a ≡ ok b → a ≡ b
same_response h = cc

-- The secret of the users service is that of every service: a token that it has signed is verified until the
-- second at which it expires, and holds the payload, when it was issued and that second.
pub record IsSigned {D : Type 0} (crypto : Crypto D) (passport : Passport) (expires : String → ℕ)
    : Type 0 where
  pub verified :
      (payload : JwtPayload) (d : D) (token : String) (time : ℕ)
      → (crypto.sign payload d).0 ≡ ok token
      → time / 1000 < expires token
      → (iat : ℕ) × (passport.verify (some (bearer token)) time
          ≡ some (claims_of payload iat (expires token)))

module _ (texts : Texts) (passport : Passport) (laws : IsPassport passport) where
  service_knows :
      {S : Type 0} (payload : JwtPayload) (iat exp : ℕ) (header : Option String) (time : ℕ) (s : S)
      → texts.is_uuid payload.sub ≡ true
      → texts.is_email payload.email ≡ true
      → passport.verify header time ≡ some (claims_of payload iat exp)
      → user_of_request texts passport header time s ≡ (ok (user_of payload), s)
  service_knows payload iat exp header time s uuid email verified =
      let parses =
        ap (parsed texts passport laws) verified ∙ claims_parse texts payload iat exp uuid email in
      elim (user_of_request_decided texts passport laws header time s) [
        | inl (other, parses', e) ↦ e ∙ ap (λ p. (ok (user_of p), s)) (same_value parses' parses)
        | inr (bad, e) ↦ absurd (no_value parses bad)
      ]

  module _ {N : Type 0} (env : ServiceUrls) (show : ℕ → String)
      (request : HttpRequest → Action (Process N) HttpResponse) where
    gateway_knows :
        (payload : JwtPayload) (iat exp : ℕ) (token : String) (time : ℕ) (p : Process N)
        → texts.is_uuid payload.sub ≡ true
        → texts.is_email payload.email ≡ true
        → passport.verify (some (bearer token)) time ≡ some (claims_of payload iat exp)
        → (validate_jwt_token env show request (bearer token) p).0
          ≡ ok (identity_of (validate_token (user_of payload)))
        → (user_at_gateway texts env show request passport (some (bearer token)) time p).0
          ≡ ok (gateway_user_of payload)
    unfolding user_at_gateway Gateway.handle_request
    gateway_knows payload iat exp token time p uuid email verified answered =
        let strategy = validate env show request texts (some (bearer token)) in
        let user = gateway_user_of payload in
        let accepts : (strategy (claims_of payload iat exp) p).0 ≡ ok user =
          (validate_iff env show request texts (some (bearer token)) (claims_of payload iat exp) p
              user).1
            (
              user,
              bearer token,
              identity_of (validate_token (user_of payload)),
              gateway_claims_parse texts payload iat exp uuid email,
              refl,
              answered,
              identity_parses texts payload uuid email,
            ) in
        ap (λ x. x.0)
          (laws.known strategy Gateway.handle_request (some (bearer token)) time p
            (claims_of payload iat exp) user verified accepts)

module _ {D : Type 0} (repository : UsersRepository D) (repository_laws : IsRepository repository)
    (lower : String → String) (crypto : Crypto D) (crypto_laws : IsCrypto repository.rows crypto)
    (passport : Passport) (laws : IsPassport passport) (expires : String → ℕ)
    (signed : IsSigned crypto passport expires) where
  -- A token that was signed for a user whose account is active.
  abbrev pub IsSession : LoginInput → D → LoginResponse → User → Type 0
  IsSession input d answer user =
      (find (has_email repository lower crypto input.email) (repository.rows d) ≡ some user)
      × (answer.user ≡ to_public_user user)
      × ((d' : D) × ((crypto.sign (payload_of user) d').0 ≡ ok answer.token))

  logged_in-IsSession :
      (input : LoginInput) (d : D) (answer : LoginResponse)
      → (login repository lower crypto input d).0 ≡ ok answer
      → (user : User) × IsSession input d answer user
  logged_in-IsSession input d answer done =
      elim (login_effect repository repository_laws lower crypto crypto_laws input d).1 [
        | inl (missing, e) ↦ cc
        | inr (inr (code, e)) ↦ cc
        | inr (inl (user, hit, inl (token, e, compared, still, (d', made)))) ↦
            let same = same_response (sym e ∙ done) in
            (user, (hit, ap (λ r. r.user) (sym same), (d', made ∙ ap (λ r. ok r.token) same)))
        | inr (inl (user, hit, inr (inl (e, differs)))) ↦ cc
        | inr (inl (user, hit, inr (inr (inl (e, agrees, no_longer))))) ↦ cc
        | inr (inl (user, hit, inr (inr (inr (x, e, outage))))) ↦ cc
      ]

  module _ {N S : Type 0} (texts : Texts) (env : ServiceUrls) (show : ℕ → String)
      (request : HttpRequest → Action (Process N) HttpResponse) where
    -- Where the ids and emails of users have their forms and the services share a secret: a login that
    -- succeeds is that of a row with the email, and until its token expires a request that carries it is
    -- that row's user, with the same id, email and role, in every service; and at the gateway too, if the
    -- proxy answers what the users service's check of the token answers.
    pub login_recognised :
        (input : LoginInput) (d : D) (answer : LoginResponse) (time : ℕ) (s : S) (p : Process N)
        → All (IsIdentified texts) (repository.rows d)
        → (login repository lower crypto input d).0 ≡ ok answer
        → time / 1000 < expires answer.token
        → (validate_jwt_token env show request (bearer answer.token) p).0
          ≡ (validate_token_route texts passport (some (bearer answer.token)) time s).0
        → (user : User) × (find (has_email repository lower crypto input.email) (repository.rows d)
            ≡ some user)
          × (answer.user ≡ to_public_user user)
          × (user_of_request texts passport (some (bearer answer.token)) time s
              ≡ (ok (record { id = user.id; email = user.email; role = user.role }), s))
          × ((user_at_gateway texts env show request passport (some (bearer answer.token)) time p).0
              ≡ ok (record { user_id = user.id; email = user.email; role = role_name user.role }))
    unfolding payload_of validate_token_route
    login_recognised input d answer time s p identified done fresh proxied =
        let (user, (hit, shown, (d', made))) = logged_in-IsSession input d answer done in
        let (uuid, email) =
          find-All (IsIdentified texts) _ (repository.rows d) user identified hit in
        let (iat, verified) = signed.verified (payload_of user) d' answer.token time made fresh in
        let exp = expires answer.token in
        let header = some (bearer answer.token) in
        let known =
          service_knows texts passport laws (payload_of user) iat exp header time s uuid email
            verified in
        (
          user,
          hit,
          shown,
          known,
          gateway_knows texts passport laws env show request (payload_of user) iat exp answer.token
              time p uuid email verified (proxied ∙ rw known refl),
        )
