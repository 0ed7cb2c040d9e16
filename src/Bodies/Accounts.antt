-- ===== src/Bodies/Accounts.antt =====
-- The routes of users-service/src/auth/controllers/auth.controller.ts, from the body of a request to the
-- table of users. nestjs-zod's pipe throws `invalid` for a body that its schema refuses; `sql_lower` is
-- SQL's LOWER.
use Prim.Native.String.{len}
use study_microsservices_nod.Base.{
  arith, String, true, leb, some, Error, ok, err, ◌≡◌, refl, sym, ◌∙◌, ap, ◌⊎◌, inl, inr,
  Option-cases,
}
use study_microsservices_nod.Bodies.Routes as Routes
use study_microsservices_nod.Bodies.{
  Body, Texts, ◌>>=◌, >>=-eq-some, guard, guard_passed, has_only, text_of,
}
use study_microsservices_nod.Bodies.Services.{
  login_keys, login_schema, register_of, register_schema,
}
use study_microsservices_nod.Users.{PublicUser, UsersRepository, IsRepository}
use study_microsservices_nod.Users.Auth.{RegisterInput, Crypto, IsCrypto}
use study_microsservices_nod.Users.Auth.Effects.{IsOutage}
use study_microsservices_nod.Users.Auth.Joining.{IsUnique, register-IsUnique}
use study_microsservices_nod.Users.Auth.RoundTrip.{login_after_register}

-- What a body that was accepted holds.
pub record Accepted (texts : Texts) (body : Body) (input : RegisterInput) : Type 0 where
  pub email : String
  pub email_read : text_of "email" body ≡ some email
  pub password_read : text_of "password" body ≡ some input.password
  pub email_lowered : input.email ≡ texts.lower (texts.trim email)
  pub is_email : texts.is_email input.email ≡ true
  pub long_enough : leb 6 (len input.password) ≡ true

same_input : {a b : RegisterInput} → some a ≡ some b → a ≡ b
same_input h = cc

same_string : {a b : String} → some a ≡ some b → a ≡ b
same_string h = cc

refused_not_ok : {e : Error} {a : PublicUser} → err e ≡ ok a → ⊥
refused_not_ok h = cc

module _ (texts : Texts) where
  register_of-Accepted :
      (body : Body) (email password first_name last_name role : String) (input : RegisterInput)
      → text_of "email" body ≡ some email
      → text_of "password" body ≡ some password
      → register_of texts email password first_name last_name role ≡ some input
      → Accepted texts body input
  unfolding register_of
  register_of-Accepted body email password first_name last_name role_name input e p h =
      let (role, known, rest) = >>=-eq-some _ _ h in
      let (u, passed, made) = >>=-eq-some _ _ rest in
      let fits = guard_passed _ passed in
      let input_made = same_input made in
      let same_email : texts.lower (texts.trim email) ≡ input.email =
        ap (λ i. i.email) input_made in
      let same_password : password ≡ input.password = ap (λ i. i.password) input_made in
      let checked : (texts.is_email (texts.lower (texts.trim email)) ≡ true)
          × (leb 6 (len password) ≡ true) =
        ground (arith, fits) in
      record {
        email = email;
        email_read = e;
        password_read = p ∙ ap some same_password;
        email_lowered = sym same_email;
        is_email = rw⁻¹ same_email checked.0;
        long_enough = rw⁻¹ same_password checked.1;
      }

  register_schema-Accepted :
      (body : Body) (input : RegisterInput)
      → register_schema texts body ≡ some input
      → Accepted texts body input
  unfolding register_schema
  register_schema-Accepted body input h =
      let (u, known, h₁) = >>=-eq-some _ _ h in
      let (email, e, h₂) = >>=-eq-some _ _ h₁ in
      let (password, p, h₃) = >>=-eq-some _ _ h₂ in
      let (first_name, f, h₄) = >>=-eq-some _ _ h₃ in
      let (last_name, l, h₅) = >>=-eq-some _ _ h₄ in
      let (role, r, h₆) = >>=-eq-some _ _ h₅ in
      register_of-Accepted body email password first_name last_name role input e p h₆

  -- A login with the address of a registration, and its password.
  login_schema_reads :
      (body : Body) (email email' password : String)
      → has_only login_keys body ≡ true
      → text_of "email" body ≡ some email'
      → text_of "password" body ≡ some password
      → texts.lower (texts.trim email') ≡ email
      → texts.is_email email ≡ true
      → leb 6 (len password) ≡ true
      → login_schema texts body ≡ some (record { email = email; password = password })
  unfolding login_schema ◌>>=◌ guard
  login_schema_reads body email email' password known e p same address long =
      rw (known, e, p, same, address, long) refl

-- What the routes make of a table: the laws of the table and of bcrypt; LOWER leaves a text alone that
-- `toLowerCase` has made.
module _ {D : Type 0} (texts : Texts) (invalid : Error) (repository : UsersRepository D)
    (laws : IsRepository repository) (sql_lower : String → String)
    (lowered : (s : String) → sql_lower (texts.lower s) ≡ texts.lower s) (crypto : Crypto D)
    (crypto_laws : IsCrypto repository.rows crypto) where
  open repository use {rows}

  lower_input :
      (body : Body) (input : RegisterInput)
      → register_schema texts body ≡ some input
      → sql_lower input.email ≡ input.email
  lower_input body input h =
      let a = register_schema-Accepted texts body input h in rw a.email_lowered (lowered _)

  -- Whatever body is posted to register, the emails of users stay unique whatever the case of their
  -- letters.
  pub route-IsUnique :
      (body : Body) (d : D)
      → IsUnique sql_lower (rows d)
      → IsUnique sql_lower
          (rows (Routes.register texts invalid repository sql_lower crypto body d).1)
  unfolding Routes.register
  route-IsUnique body d unique = elim (Option-cases (register_schema texts body)) [
    | inl refused ↦ rw refused unique
    | inr (input, h) ↦ rw h (
        register-IsUnique repository laws sql_lower crypto crypto_laws input d
          (lower_input body input h) unique)
  ]

  -- A user who has registered can log in with the password of the registration and its email, in
  -- whatever case of letters and with blanks round it, and is answered the same public data: unless the
  -- database, bcrypt or the signing of the token fails.
  pub registered_logs_in :
      (body credentials : Body) (d : D) (answer : PublicUser) (email email' : String)
      → (Routes.register texts invalid repository sql_lower crypto body d).0 ≡ ok answer
      → has_only login_keys credentials ≡ true
      → text_of "email" body ≡ some email
      → text_of "email" credentials ≡ some email'
      → texts.lower (texts.trim email') ≡ texts.lower (texts.trim email)
      → text_of "password" credentials ≡ text_of "password" body
      → let x =
          Routes.login texts invalid repository sql_lower crypto credentials
            (Routes.register texts invalid repository sql_lower crypto body d).1 in
        ((token : String) × (x.0 ≡ ok (record { user = answer; token = token })))
        ⊎ ((e : Error) × (x.0 ≡ err e) × IsOutage repository laws sql_lower crypto crypto_laws e)
  unfolding Routes.register Routes.login
  registered_logs_in body credentials d answer email email' done known e e' same password =
      elim (Option-cases (register_schema texts body)) [
        | inl refused ↦ absurd (refused_not_ok (rw refused at done))
        | inr (input, h) ↦
            let a = register_schema-Accepted texts body input h in
            let same_text : a.email ≡ email = same_string (sym a.email_read ∙ e) in
            let address : texts.lower (texts.trim email') ≡ input.email =
              same ∙ ap (λ s. texts.lower (texts.trim s)) (sym same_text) ∙ sym a.email_lowered in
            let reads =
              login_schema_reads texts credentials input.email email' input.password known e'
                (password ∙ a.password_read) address a.is_email a.long_enough in
            rw (h, reads)
              (login_after_register repository laws sql_lower crypto crypto_laws input d answer
                (lower_input body input h) (rw h at done))
      ]
