-- ===== src/Users/Auth/RoundTrip.antt =====
-- From registration to login.
use mathlib.Core.Path.{subst}
use text.Mathlib.TextPositions.{eq_refl}
use study_microsservices_nod.Base.{
  ℕ, String, Bool, true, false, ◌=ₛ◌, Option, none, some, [], ◌∷◌, find, find-append_none, ◌≡◌,
  refl, sym, ap, ◌∙◌, ◌⊎◌, inl, inr, Error, query_failed, Result, ok, err,
}
use study_microsservices_nod.Users.{User, PublicUser, to_public_user, UsersRepository, IsRepository}
use study_microsservices_nod.Users.Auth.{
  RegisterInput, LoginResponse, Crypto, IsCrypto, bcrypt_salt_rounds, new_user, has_email, register,
  login,
}
use study_microsservices_nod.Users.Auth.Effects.{IsOutage, Checked, login_effect}
use study_microsservices_nod.Users.Auth.Joining.{register_effect}

ok_apart : ok true ≡ ok false → ⊥
ok_apart h = cc

ok_same : {a b : PublicUser} → ok a ≡ ok b → a ≡ b
ok_same h = cc

same_found : {x : Option User} (a b : User) → x ≡ some a → x ≡ some b → a ≡ b
same_found a b h k = cc

found_apart : {x : Option User} {a : User} → x ≡ some a → x ≡ none → ⊥
found_apart h k = cc

first_found :
    (test : User → Bool) (user : User) → test user ≡ true → find test (user ∷ []) ≡ some user
first_found test user h = rw h refl

module _ {D : Type 0} (repository : UsersRepository D) (laws : IsRepository repository)
    (lower : String → String) (crypto : Crypto D)
    (crypto_laws : IsCrypto repository.rows crypto) where
  open repository use {rows}

  logs_in :
      (input : RegisterInput) (id password_hash : String) (now : ℕ) (r : Result LoginResponse)
      → ((d : D) × ((crypto.hash input.password bcrypt_salt_rounds d).0 ≡ ok password_hash))
      → Checked repository laws lower crypto crypto_laws
          (record { email = input.email; password = input.password })
          (new_user id now input password_hash)
          r
      → ((token : String) × (r
            ≡ ok (record {
              user = to_public_user (new_user id now input password_hash);
              token = token;
            })))
        ⊎ ((e : Error) × (r ≡ err e) × IsOutage repository laws lower crypto crypto_laws e)
  unfolding new_user
  logs_in input id password_hash now r (d, hashed) (inl (token, e, compared, still, signed)) =
      inl (token, e)
  logs_in input id password_hash now r (d, hashed) (inr (inl (e, (d', differs)))) =
      let agrees =
        crypto_laws.compare_hashed input.password password_hash bcrypt_salt_rounds d hashed d' in
      absurd (ok_apart (sym agrees ∙ differs))
  logs_in input id password_hash now r (d, hashed) (inr (inr (inl (e, compared, no_longer)))) = cc
  logs_in input id password_hash now r (d, hashed) (inr (inr (inr bad))) = inr bad

  -- A user who has registered can log in with the email and the password of the registration, and is
  -- answered the same public data: unless the database, bcrypt or the signing of the token fails.
  pub login_after_register :
      (input : RegisterInput) (d : D) (answer : PublicUser)
      → lower input.email ≡ input.email
      → (register repository lower crypto input d).0 ≡ ok answer
      → let x =
          login repository lower crypto
            (record { email = input.email; password = input.password })
            (register repository lower crypto input d).1 in
        ((token : String) × (x.0 ≡ ok (record { user = answer; token = token })))
        ⊎ ((e : Error) × (x.0 ≡ err e) × IsOutage repository laws lower crypto crypto_laws e)
  unfolding new_user
  login_after_register input d answer is_lower done =
      elim (register_effect repository laws lower crypto crypto_laws input d) [
        | inr (e, h, kind, same) ↦ cc
        | inl (answer', e, joined) ↦
            let new = new_user joined.id joined.now input joined.password_hash in
            let test = has_email repository lower crypto input.email in
            let same_answer : to_public_user new ≡ answer =
              sym joined.answered ∙ ok_same (sym e ∙ done) in
            let found : find test (rows (register repository lower crypto input d).1) ≡ some new =
              rw (joined.added, find-append_none test (rows d) (new ∷ []) joined.was_free)
                (first_found test new
                  (ap (λ s. s =ₛ input.email) is_lower ∙ eq_refl input.email)) in
            elim (login_effect repository laws lower crypto crypto_laws
              (record { email = input.email; password = input.password })
              (register repository lower crypto input d).1).1 [
                | inl (missing, _) ↦ absurd (found_apart found missing)
                | inr (inl (user, hit, checked)) ↦
                    let same_user : user ≡ new = same_found user new hit found in
                    rw⁻¹ same_answer (
                      logs_in input joined.id joined.password_hash joined.now _ joined.hashed (
                        subst
                          (λ u.
                            Checked repository laws lower crypto crypto_laws
                              (record { email = input.email; password = input.password }) u
                              ((login repository lower crypto
                                record { email = input.email; password = input.password }
                                (register repository lower crypto input d).1).0))
                          same_user checked))
                | inr (inr (code, h)) ↦ inr (query_failed code, h, inl (code, refl))
              ]
      ]
