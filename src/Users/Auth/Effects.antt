-- ===== src/Users/Auth/Effects.antt =====
-- What registration and login do, on every branch.
use study_microsservices_nod.Base.{
  bind_ok, bind_err, String, Bool, true, false, not, Option, none, some, find, ◌≡◌, refl, ap, ◌∙◌,
  ◌⊎◌, inl, inr, Error, query_failed, Action, Result, ok, err, pure, raise_if, or_raise, ◌>>=◌,
  ◌>>◌, Option-cases, Bool-cases, Result-cases,
}
use study_microsservices_nod.Users.{User, to_public_user, UsersRepository, IsRepository}
use study_microsservices_nod.Users.Auth.{
  JwtPayload, LoginInput, LoginResponse, Crypto, IsCrypto, invalid_credentials, inactive_account,
  is_active, payload_of, has_email, find_user_by_email, open_session, login,
}

module _ {D : Type 0} (repository : UsersRepository D) (laws : IsRepository repository)
    (lower : String → String) (crypto : Crypto D)
    (crypto_laws : IsCrypto repository.rows crypto) where
  open repository use {rows}

  -- The database, bcrypt or the signing of tokens failed.
  abbrev pub IsOutage : Error → Type 0
  IsOutage e =
      ((code : String) × (e ≡ query_failed code))
      ⊎ ((p : String) × (h : String) × (d : D) × ((crypto.compare p h d).0 ≡ err e))
      ⊎ ((p : JwtPayload) × (d : D) × ((crypto.sign p d).0 ≡ err e))

  -- bcrypt has compared the password with the user's.
  abbrev pub Compared : String → User → Bool → Type 0
  Compared password user matches =
      (d : D) × ((crypto.compare password user.password d).0 ≡ ok matches)

  -- How `login` ends for a user who was found.
  abbrev pub Checked : LoginInput → User → Result LoginResponse → Type 0
  Checked input user r =
      ((token : String) × (r ≡ ok (record { user = to_public_user user; token = token }))
        × Compared input.password user true
        × (is_active user.status ≡ true)
        × ((d : D) × ((crypto.sign (payload_of user) d).0 ≡ ok token)))
      ⊎ ((r ≡ err invalid_credentials) × Compared input.password user false)
      ⊎ ((r ≡ err inactive_account)
          × Compared input.password user true
          × (is_active user.status ≡ false))
      ⊎ ((e : Error) × (r ≡ err e) × IsOutage e)

  abbrev check : LoginInput → User → Action D LoginResponse
  check input user = do
    password_matches ← crypto.compare input.password user.password
    raise_if (not password_matches) invalid_credentials
        >> (raise_if (not (is_active user.status)) inactive_account
            >> open_session repository lower crypto user)

  open_session_ends :
      (user : User) (d : D)
      → let x = open_session repository lower crypto user d in
        (rows x.1 ≡ rows d)
        × (((token : String) × (x.0 ≡ ok (record { user = to_public_user user; token = token }))
              × ((d : D) × ((crypto.sign (payload_of user) d).0 ≡ ok token)))
            ⊎ ((e : Error) × (x.0 ≡ err e) × IsOutage e))
  unfolding open_session
  open_session_ends user d =
      let next : String → Action D LoginResponse =
        (λ token. pure (record { user = to_public_user user; token = token })) in
      let same = crypto_laws.sign_rows (payload_of user) d in
      elim (Result-cases (crypto.sign (payload_of user) d).0) [
        | inl (token, h) ↦
            rw (bind_ok (crypto.sign (payload_of user)) next d token h)
              (same, inl (token, refl, (d, h)))
        | inr (e, h) ↦
            rw (bind_err (crypto.sign (payload_of user)) next d e h)
              (same, inr (e, refl, inr (inr (payload_of user, d, h))))
      ]

  allowed :
      (input : LoginInput) (user : User) (d : D)
      → Compared input.password user true
      → let x =
          (raise_if (not (is_active user.status)) inactive_account
              >> open_session repository lower crypto user)
            d in
        (rows x.1 ≡ rows d) × Checked input user x.0
  allowed input user d compared = elim (Bool-cases (is_active user.status)) [
    | inr no_longer ↦ rw no_longer (refl, inr (inr (inl (refl, compared, refl))))
    | inl still ↦ rw still (
        let (same, ends) = open_session_ends user d in
        elim ends [
          | inl (token, e, signed) ↦ (same, inl (token, e, compared, refl, signed))
          | inr (e, h, outage) ↦ (same, inr (inr (inr (e, h, outage))))
        ])
  ]

  pub check_ends :
      (input : LoginInput) (user : User) (d : D)
      → (rows (check input user d).1 ≡ rows d) × Checked input user (check input user d).0
  check_ends input user d =
      let next : Bool → Action D LoginResponse = (λ password_matches.
        raise_if (not password_matches) invalid_credentials
        >> (raise_if (not (is_active user.status)) inactive_account
            >> open_session repository lower crypto user)) in
      let same = crypto_laws.compare_rows input.password user.password d in
      elim (Result-cases (crypto.compare input.password user.password d).0) [
        | inr (e, h) ↦
            rw (bind_err (crypto.compare input.password user.password) next d e h)
              (same, inr (inr (inr (e, refl, inr (inl (input.password, user.password, d, h))))))
        | inl (matches, h) ↦
            rw (bind_ok (crypto.compare input.password user.password) next d matches h)
              (elim (Bool-cases matches) [
                | inr differs ↦ rw differs (same, inr (inl (refl, (d, h ∙ ap ok differs))))
                | inl agrees ↦ rw agrees (
                    let (kept, ends) =
                      allowed input user (crypto.compare input.password user.password d).1
                        (d, h ∙ ap ok agrees) in
                    (kept ∙ same, ends))
              ])
      ]

  -- Login changes no row. Without a row of the email it is 401, and with one it is the same 401 when the
  -- password does not match; that an account is inactive is told, as another 401, only to one who knows
  -- its password. Otherwise the answer shows the row's public part and a token that was signed for it,
  -- of an active account whose password matched; or the database, bcrypt or the signing failed.
  pub login_effect :
      (input : LoginInput) (d : D)
      → let x = login repository lower crypto input d in
        (rows x.1 ≡ rows d)
        × (((find (has_email repository lower crypto input.email) (rows d) ≡ none)
              × (x.0 ≡ err invalid_credentials))
            ⊎ ((user : User) × (find (has_email repository lower crypto input.email) (rows d)
                  ≡ some user)
                × Checked input user x.0)
            ⊎ ((code : String) × (x.0 ≡ err (query_failed code))))
  unfolding login find_user_by_email
  login_effect input d =
      let test = has_email repository lower crypto input.email in
      let next : Option User → Action D LoginResponse =
        (λ found. or_raise found invalid_credentials >>= check input) in
      let (same, answer) = laws.finds test d in
      elim answer [
        | inr (code, e) ↦
            rw (bind_err (repository.find_one test) next d (query_failed code) e)
              (same, inr (inr (code, refl)))
        | inl e ↦
            rw (bind_ok (repository.find_one test) next d (find test (rows d)) e)
              (elim (Option-cases (find test (rows d))) [
                | inl missing ↦ rw missing (same, inl (refl, refl))
                | inr (user, hit) ↦ rw hit (
                    let (kept, ends) = check_ends input user (repository.find_one test d).1 in
                    (kept ∙ same, inr (inl (user, refl, ends))))
              ])
      ]
