-- ===== src/Users/Auth/Joining.antt =====
-- Registration, against the table of users.
use study_microsservices_nod.Base.{
  bind_ok, bind_err, ℕ, String, false, ◌=ₛ◌, Option, none, some, is_some, List, [], ◌∷◌, ◌++◌, find,
  All, All-append, arith, eq_iff, ◌≡◌, refl, ap, ◌∙◌, ◌⊎◌, inl, inr, Error, query_failed, Action,
  ok, err, raise_if, try_catch, ◌>>=◌, ◌>>◌, Option-cases, Bool-cases, Result-cases,
}
use study_microsservices_nod.Users.{User, PublicUser, to_public_user, UsersRepository, IsRepository}
use study_microsservices_nod.Users.Auth.{
  RegisterInput, Crypto, IsCrypto, bcrypt_salt_rounds, postgres_unique_violation,
  is_unique_violation, email_taken, new_user, has_email, find_user_by_email, not_saved, save_user,
  register,
}

-- No two users have the same email, whatever the case of its letters.
abbrev pub IsUnique : (String → String) → List User → Type 0
IsUnique lower [] = Unit
IsUnique lower (user ∷ users) =
    All (λ other. (lower other.email =ₛ lower user.email) ≡ false) users × IsUnique lower users

append-IsUnique :
    (lower : String → String) (email : String) (users : List User) (new : User)
    → lower new.email ≡ email
    → find (λ user. lower user.email =ₛ email) users ≡ none
    → IsUnique lower users
    → IsUnique lower (users ++ new ∷ [])
append-IsUnique lower email [] new e h k = (tt, tt)
append-IsUnique lower email (user ∷ users) new e h (others, k) =
    let differs : (lower user.email =ₛ email) ≡ false = ground arith in
    let rest : find (λ user. lower user.email =ₛ email) users ≡ none = ground arith in
    (
      All-append _ users (new ∷ []) others (
        rw e (ground (arith, eq_iff (lower user.email) email, eq_iff email (lower user.email))),
        tt,
      ),
      append-IsUnique lower email users new e rest k,
    )

module _ {D : Type 0} (repository : UsersRepository D) (laws : IsRepository repository)
    (lower : String → String) (crypto : Crypto D)
    (crypto_laws : IsCrypto repository.rows crypto) where
  open repository use {rows}

  -- The user was added to the table.
  pub record Joined (input : RegisterInput) (before : List User) (answer : PublicUser)
      (after : List User) : Type 0 where
    pub id : String
    pub now : ℕ
    pub password_hash : String
    pub answered : answer ≡ to_public_user (new_user id now input password_hash)
    pub was_free : find (has_email repository lower crypto input.email) before ≡ none
    pub added : after ≡ before ++ new_user id now input password_hash ∷ []
    pub hashed : (d : D) × ((crypto.hash input.password bcrypt_salt_rounds d).0 ≡ ok password_hash)

  -- Why `register` fails.
  abbrev pub IsRegisterError : RegisterInput → List User → Error → Type 0
  IsRegisterError input before e =
      ((e ≡ email_taken)
        × ((user : User) × (find (has_email repository lower crypto input.email) before
              ≡ some user)))
      ⊎ ((e ≡ email_taken) × (find (has_email repository lower crypto input.email) before ≡ none))
      ⊎ ((code : String) × (e ≡ query_failed code))
      ⊎ ((d : D) × ((crypto.hash input.password bcrypt_salt_rounds d).0 ≡ err e))

  refused :
      (code : String) (s : D)
      → (not_saved repository lower crypto (query_failed code) s ≡ (err email_taken, s))
        ⊎ (not_saved repository lower crypto (query_failed code) s ≡ (err (query_failed code), s))
  unfolding not_saved is_unique_violation
  refused code s = elim (Bool-cases (code =ₛ postgres_unique_violation)) [
    | inl taken ↦ inl (rw (not_saved, taken) refl)
    | inr unknown ↦ inr (rw (not_saved, unknown) refl)
  ]

  saves :
      (input : RegisterInput) (password_hash : String) (d : D)
      → let x =
          try_catch
            (save_user repository lower crypto input password_hash)
            (not_saved repository lower crypto)
            d in
        ((id : String) × (now : ℕ) × (x.0
            ≡ ok (to_public_user (new_user id now input password_hash)))
          × (rows x.1 ≡ rows d ++ new_user id now input password_hash ∷ []))
        ⊎ ((rows x.1 ≡ rows d)
            × ((x.0 ≡ err email_taken) ⊎ ((code : String) × (x.0 ≡ err (query_failed code)))))
  unfolding save_user
  saves input password_hash d =
      elim (laws.inserts (λ id now. new_user id now input password_hash) d) [
        | inl (id, now, free, e, added) ↦ rw e (inl (id, now, refl, added))
        | inr (code, e, same) ↦
            rw e
              (elim (refused code
                (repository.insert_one (λ id now. new_user id now input password_hash) d).1) [
                  | inl taken ↦ rw taken (inr (same, inl refl))
                  | inr unknown ↦ rw unknown (inr (same, inr (code, refl)))
                ])
      ]

  abbrev then_hash : RegisterInput → String → Action D PublicUser
  then_hash input password_hash =
      try_catch (save_user repository lower crypto input password_hash)
        (not_saved repository lower crypto)

  abbrev then_register : RegisterInput → Option User → Action D PublicUser
  then_register input existing_user =
      raise_if (is_some existing_user) email_taken
      >> (crypto.hash input.password bcrypt_salt_rounds >>= then_hash input)

  registers :
      (input : RegisterInput) (before : List User) (d : D)
      → rows d ≡ before
      → find (has_email repository lower crypto input.email) before ≡ none
      → let x = (crypto.hash input.password bcrypt_salt_rounds >>= then_hash input) d in
        ((answer : PublicUser) × (x.0 ≡ ok answer) × Joined input before answer (rows x.1))
        ⊎ ((e : Error) × (x.0 ≡ err e) × IsRegisterError input before e × (rows x.1 ≡ before))
  registers input before d start free =
      let hashing = crypto.hash input.password bcrypt_salt_rounds in
      let same = crypto_laws.hash_rows input.password bcrypt_salt_rounds d ∙ start in
      elim (Result-cases (hashing d).0) [
        | inr (e, h) ↦
            rw (bind_err hashing (then_hash input) d e h)
              (inr (e, refl, inr (inr (inr (d, h))), same))
        | inl (password_hash, h) ↦
            rw (bind_ok hashing (then_hash input) d password_hash h)
              (elim (saves input password_hash (hashing d).1) [
                | inl (id, now, e, added) ↦ inl (
                  to_public_user (new_user id now input password_hash),
                  e,
                  record {
                    id = id;
                    now = now;
                    password_hash = password_hash;
                    answered = refl;
                    was_free = free;
                    added =
                        added
                        ∙ ap (λ users. users ++ new_user id now input password_hash ∷ []) same;
                    hashed = (d, h);
                  },
                )
                | inr (kept, inl e) ↦ inr (email_taken, e, inr (inl (refl, free)), kept ∙ same)
                | inr (kept, inr (code, e)) ↦
                    inr (query_failed code, e, inr (inr (inl (code, refl))), kept ∙ same)
              ])
      ]

  -- Either the email was free, and then the table has gained one active user of that email, with a hash
  -- of the password, and the answer is the public part of that row. Or an error is thrown and the table
  -- is as before: 409 when the email has a user, or when the database finds that it has; the database's
  -- refusal; or that of bcrypt.
  pub register_effect :
      (input : RegisterInput) (d : D)
      → let x = register repository lower crypto input d in
        ((answer : PublicUser) × (x.0 ≡ ok answer) × Joined input (rows d) answer (rows x.1))
        ⊎ ((e : Error) × (x.0 ≡ err e) × IsRegisterError input (rows d) e × (rows x.1 ≡ rows d))
  unfolding register find_user_by_email
  register_effect input d =
      let test = has_email repository lower crypto input.email in
      let (same, answer) = laws.finds test d in
      elim answer [
        | inr (code, e) ↦
            rw (bind_err (repository.find_one test) (then_register input) d (query_failed code) e)
              (inr (query_failed code, refl, inr (inr (inl (code, refl))), same))
        | inl e ↦
            rw (bind_ok (repository.find_one test) (then_register input) d (find test (rows d)) e)
              (elim (Option-cases (find test (rows d))) [
                | inr (user, hit) ↦ rw hit (inr (email_taken, refl, inl (refl, (user, refl)), same))
                | inl free ↦
                    rw (ap (λ found. then_register input found (repository.find_one test d).1) free)
                      (registers input (rows d) (repository.find_one test d).1 same free)
              ])
      ]

  -- Registering keeps emails unique whatever the case of their letters, where the email of the input is
  -- in lower case, as its schema leaves it.
  pub register-IsUnique :
      (input : RegisterInput) (d : D)
      → lower input.email ≡ input.email
      → IsUnique lower (rows d)
      → IsUnique lower (rows (register repository lower crypto input d).1)
  unfolding new_user
  register-IsUnique input d is_lower unique = elim (register_effect input d) [
    | inl (answer, e, joined) ↦
        rw joined.added
          (append-IsUnique lower input.email (rows d) _ is_lower joined.was_free unique)
    | inr (e, h, kind, same) ↦ rw same unique
  ]
