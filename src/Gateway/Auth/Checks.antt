-- ===== src/Gateway/Auth/Checks.antt =====
-- Who is let in.
use study_microsservices_nod.Base.{
  bind_ok, bind_err, ℕ, ◌<◌, String, Bool, true, false, not, ◌=ₛ◌, any, Option, none, some, List,
  [], ◌∷◌, Map, Value, Action, Error, http, Result, ok, err, or_raise, raise_if, pure, ◌>>=◌, ◌>>◌,
  ◌≡◌, ◌↔◌, ◌⊎◌, inl, inr, refl, ap, sym, ◌∙◌, ◌+ₛ◌, Option-cases, Bool-cases, Result-cases,
}
use study_microsservices_nod.Base
use study_microsservices_nod.Base.Values.{str, undefined}
use study_microsservices_nod.Gateway.Process.{Process, opened}
use study_microsservices_nod.Gateway.Config.{ServiceUrls, users, name_of}
use study_microsservices_nod.Gateway.Proxy
use study_microsservices_nod.Gateway.Proxy.{HttpRequest, HttpResponse, UserPayload}
use study_microsservices_nod.Gateway.Proxy.Fallbacks.{
  no_service, HoldsNoUser, users_outage_succeeds,
}
use study_microsservices_nod.Gateway.Auth.{
  Texts, unauthorized, jwt_payload_schema, user_payload_schema, validate_jwt_token, validate,
  can_activate_role, role_of,
}

apart : {A : Type 0} {a : A} {e : Error} → err e ≡ ok a → ⊥
apart h = cc

same : {A : Type 0} {a b : A} → ok a ≡ ok b → a ≡ b
same h = cc

asked_same : {a b : List String} → some a ≡ some b → a ≡ b
asked_same h = cc

module _ {N : Type 0} (env : ServiceUrls) (show : ℕ → String)
    (request : HttpRequest → Action (Process N) HttpResponse) (texts : Texts) where
  -- The proxy has answered the token with the user.
  abbrev pub IsConfirmed : Option String → Value → Process N → UserPayload → Type 0
  IsConfirmed authorization payload p user =
      (claims : UserPayload) × (token : String) × (identity : Value) × (jwt_payload_schema texts
          payload
        ≡ some claims)
      × (authorization ≡ some token)
      × ((validate_jwt_token env show request token p).0 ≡ ok identity)
      × (user_payload_schema texts identity ≡ some user)

  abbrev identify : Value → Action (Process N) UserPayload
  identify identity = or_raise (user_payload_schema texts identity) (unauthorized "User not found")

  validate-IsConfirmed :
      (authorization : Option String) (payload : Value) (p : Process N) (user : UserPayload)
      → (validate env show request texts authorization payload p).0 ≡ ok user
      → IsConfirmed authorization payload p user
  unfolding validate
  validate-IsConfirmed authorization payload p user h =
      elim (Option-cases (jwt_payload_schema texts payload)) [
        | inl bad ↦ absurd (apart (rw bad at h))
        | inr (claims, parsed) ↦ elim (Option-cases authorization) [
          | inl missing ↦ absurd (apart (rw (parsed, missing) at h))
          | inr (token, given) ↦
              elim (Result-cases (validate_jwt_token env show request token p).0) [
                | inr (e, failed) ↦
                    let h' = rw (parsed, given) at h in
                    absurd (
                      apart (
                        ap (λ x. x.0)
                          (sym (
                            bind_err (validate_jwt_token env show request token) identify p e
                              failed))
                        ∙ h'))
                | inl (identity, answered) ↦
                    let h' = rw (parsed, given) at h in
                    let end : (identify identity (validate_jwt_token env show request token p).1).0
                        ≡ ok user =
                      ap (λ x. x.0)
                        (sym (
                          bind_ok (validate_jwt_token env show request token) identify p identity
                            answered))
                      ∙ h' in
                    elim (Option-cases (user_payload_schema texts identity)) [
                      | inl unknown ↦ absurd (apart (rw unknown at end))
                      | inr (found, known) ↦ (
                        claims,
                        token,
                        identity,
                        parsed,
                        given,
                        answered,
                        known ∙ ap some (same (rw known at end)),
                      )
                    ]
              ]
        ]
      ]

  IsConfirmed-validate :
      (authorization : Option String) (payload : Value) (p : Process N) (user : UserPayload)
      → IsConfirmed authorization payload p user
      → (validate env show request texts authorization payload p).0 ≡ ok user
  unfolding validate
  IsConfirmed-validate authorization payload p user
        (claims, token, identity, parsed, given, answered, known) =
      rw
        (
          parsed,
          given,
          bind_ok (validate_jwt_token env show request token) identify p identity answered,
          known,
        )
        refl

  -- A request is that of a user exactly if the claims of its token have their form, it has an
  -- `Authorization` header, and the proxy, asked with that header, answers that user.
  pub validate_iff :
      (authorization : Option String) (payload : Value) (p : Process N) (user : UserPayload)
      → ((validate env show request texts authorization payload p).0 ≡ ok user)
        ↔ IsConfirmed authorization payload p user
  validate_iff authorization payload p user = (
    validate-IsConfirmed authorization payload p user,
    IsConfirmed-validate authorization payload p user,
  )

  -- While the circuit to the users service is open and its time has not come nobody is let in, although
  -- the proxy answers its calls: each request ends in a 401, if the cache holds at most the text of the
  -- fallback under the name of that service.
  pub outage_rejects :
      (authorization : Option String) (payload : Value) (p : Process N) (r : ℕ)
      → HoldsNoUser p
      → Base.get ("proxy-" +ₛ name_of users) p.circuits ≡ some r
      → (p.cells r).state ≡ opened
      → p.clock < (p.cells r).next_attempt_time
      → (message : String) × ((validate env show request texts authorization payload p).0
          ≡ err (unauthorized message))
  unfolding validate validate_jwt_token user_payload_schema
  outage_rejects authorization payload p r uncached hit broken early =
      elim (Option-cases (jwt_payload_schema texts payload)) [
        | inl bad ↦ ("Invalid token payload", rw bad refl)
        | inr (claims, parsed) ↦ elim (Option-cases authorization) [
          | inl missing ↦ ("Invalid token payload", rw (parsed, missing) refl)
          | inr (token, given) ↦
              let answered : (validate_jwt_token env show request token p).0 ≡ ok no_service =
                (users_outage_succeeds env show request Proxy.get "/auth/validate-token" undefined
                  (("Authorization", str token) ∷ []) none p r uncached hit broken early).0 in
              (
                "User not found",
                rw
                    (
                      parsed,
                      given,
                      bind_ok (validate_jwt_token env show request token) identify p no_service
                          answered,
                    )
                    refl,
              )
        ]
      ]

-- The user's role is one of those that are asked for.
abbrev pub HasRole : Option (List String) → Option UserPayload → Type 0
HasRole required user =
    (roles : List String) × (role : String) × (required ≡ some roles)
    × (role_of user ≡ some role)
    × (any (λ one. one =ₛ role) roles ≡ true)

role_asked :
    {S : Type 0} (roles : List String) (user : Option UserPayload) (s : S)
    → (can_activate_role (some roles) user s).0 ≡ ok true
    → (some roles ≡ none) ⊎ HasRole (some roles) user
unfolding can_activate_role
role_asked roles user s h = elim (Option-cases (role_of user)) [
  | inl missing ↦ absurd (apart (rw missing at h))
  | inr (role, known) ↦ elim (Bool-cases (any (λ one. one =ₛ role) roles)) [
    | inl among ↦ inr (roles, role, refl, known, among)
    | inr other ↦ absurd (apart (rw (known, other) at h))
  ]
]

role_given :
    {S : Type 0} (roles : List String) (user : Option UserPayload) (s : S)
    → (some roles ≡ none) ⊎ HasRole (some roles) user
    → (can_activate_role (some roles) user s).0 ≡ ok true
unfolding can_activate_role
role_given roles user s (inl h) = cc
role_given roles user s (inr (roles', role, e, known, among)) =
    let mine : any (λ one. one =ₛ role) roles ≡ true =
      ap (any (λ one. one =ₛ role)) (asked_same e) ∙ among in
    rw (known, mine) refl

-- A handler is open to a user exactly if it asks for no roles, or the user's role is one of them.
pub role_iff :
    {S : Type 0} (required : Option (List String)) (user : Option UserPayload) (s : S)
    → ((can_activate_role required user s).0 ≡ ok true)
      ↔ ((required ≡ none) ⊎ HasRole required user)
unfolding can_activate_role
role_iff none user s = ((λ h. inl refl), (λ h. refl))
role_iff (some roles) user s = (role_asked roles user s, role_given roles user s)
