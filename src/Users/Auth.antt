-- ===== src/Users/Auth.antt =====
-- users-service/src/auth: services/auth.service.ts, strategies/jwt.strategy.ts,
-- guards/jwt-auth.guard.ts and the answer of `validateToken` in controllers/auth.controller.ts.
-- `lower` is SQL's LOWER.

pub mod Effects
pub mod Joining
pub mod RoundTrip
use study_microsservices_nod.Base.{
  ℕ, String, Bool, true, false, not, ◌=ₛ◌, Option, none, some, Error, plain, timed_out, http,
  query_failed, product_not_found, products_service_unavailable, Action, Result, ok, err, pure,
  raise, raise_if, or_raise, try_catch, is_some, ◌>>=◌, ◌>>◌, ◌≡◌,
}
use study_microsservices_nod.Base.Values.{str}
use study_microsservices_nod.Users.{
  User, UserRole, UserStatus, active, inactive, PublicUser, to_public_user, UsersRepository,
}

pub record JwtPayload : Type 0 where
  pub sub : String
  pub email : String
  pub role : UserRole

pub record LoginInput : Type 0 where
  pub email : String
  pub password : String

pub record RegisterInput : Type 0 where
  pub email : String
  pub password : String
  pub first_name : String
  pub last_name : String
  pub role : UserRole

pub record LoginResponse : Type 0 where
  pub user : PublicUser
  pub token : String

-- bcrypt, with the salt rounds that are given, and `JwtService.signAsync`.
pub record Crypto (D : Type 0) : Type 0 where
  pub hash : String → ℕ → Action D String
  pub compare : String → String → Action D Bool
  pub sign : JwtPayload → Action D String

-- They leave the rows alone, and a password is one that its hash was made from.
pub record IsCrypto {D : Type 0} {R : Type 0} (rows : D → R) (crypto : Crypto D) : Type 0 where
  pub hash_rows : (p : String) (n : ℕ) (d : D) → rows (crypto.hash p n d).1 ≡ rows d
  pub compare_rows : (p h : String) (d : D) → rows (crypto.compare p h d).1 ≡ rows d
  pub sign_rows : (p : JwtPayload) (d : D) → rows (crypto.sign p d).1 ≡ rows d
  pub compare_hashed :
      (p h : String) (n : ℕ) (d : D)
      → (crypto.hash p n d).0 ≡ ok h
      → (d' : D) → (crypto.compare p h d').0 ≡ ok true

abbrev pub bcrypt_salt_rounds : ℕ
bcrypt_salt_rounds = 10

abbrev pub postgres_unique_violation : String
postgres_unique_violation = "23505"

abbrev pub invalid_credentials : Error
invalid_credentials = http 401 (str "Credenciais inválidas")

abbrev pub inactive_account : Error
inactive_account = http 401 (str "Conta inativa")

abbrev pub email_taken : Error
email_taken = http 409 (str "Email already registered")

abbrev pub is_active : UserStatus → Bool
is_active active = true
is_active inactive = false

unfoldable pub is_unique_violation : Error → Bool
is_unique_violation (query_failed code) = code =ₛ postgres_unique_violation
is_unique_violation (plain s) = false
is_unique_violation (timed_out n) = false
is_unique_violation (http n v) = false
is_unique_violation (product_not_found s) = false
is_unique_violation products_service_unavailable = false

-- The row that `register` creates.
unfoldable pub new_user : String → ℕ → RegisterInput → String → User
new_user id now input password_hash = record {
  id = id;
  email = input.email;
  password = password_hash;
  first_name = input.first_name;
  last_name = input.last_name;
  role = input.role;
  status = active;
  created_at = now;
  updated_at = now;
}

-- The payload of a user's token.
unfoldable pub payload_of : User → JwtPayload
payload_of user = record { sub = user.id; email = user.email; role = user.role }

module _ {D : Type 0} (repository : UsersRepository D) (lower : String → String)
    (crypto : Crypto D) where
  abbrev pub has_email : String → User → Bool
  has_email email user = lower user.email =ₛ email

  unfoldable pub find_user_by_email : String → Action D (Option User)
  find_user_by_email email = repository.find_one (has_email email)

  -- The end of `login`.
  unfoldable pub open_session : User → Action D LoginResponse
  unfolding payload_of to_public_user
  open_session user = do
    token ← crypto.sign (payload_of user)
    pure (record { user = to_public_user user; token = token })

  unfoldable pub login : LoginInput → Action D LoginResponse
  unfolding find_user_by_email open_session
  login input = do
    found ← find_user_by_email input.email
    user ← or_raise found invalid_credentials
    password_matches ← crypto.compare input.password user.password
    raise_if (not password_matches) invalid_credentials
        >> (raise_if (not (is_active user.status)) inactive_account >> open_session user)

  -- The `catch` of `register`.
  unfoldable pub not_saved : Error → Action D PublicUser
  unfolding is_unique_violation
  not_saved e s = elim (is_unique_violation e) [ true ↦ (err email_taken, s) | false ↦ (err e, s) ]

  -- The `try` of `register`.
  unfoldable pub save_user : RegisterInput → String → Action D PublicUser
  unfolding new_user to_public_user
  save_user input password_hash = do
    saved_user ← repository.insert_one (λ id now. new_user id now input password_hash)
    pure (to_public_user saved_user)

  unfoldable pub register : RegisterInput → Action D PublicUser
  unfolding find_user_by_email save_user not_saved
  register input = do
    existing_user ← find_user_by_email input.email
    raise_if (is_some existing_user) email_taken
        >> (crypto.hash input.password bcrypt_salt_rounds >>= λ password_hash.
            try_catch (save_user input password_hash) not_saved)

pub record AuthenticatedUser : Type 0 where
  pub id : String
  pub email : String
  pub role : UserRole

abbrev pub unauthorized : Error
unauthorized = http 401 (str "Unauthorized")

-- `JwtStrategy.validate`, with what the schema of a payload parses.
unfoldable pub validate :
    {S P : Type 0} (safe_parse : P → Option JwtPayload) → P → Action S AuthenticatedUser
validate safe_parse payload = do
  parsed ← or_raise (safe_parse payload) unauthorized
  pure (record { id = parsed.sub; email = parsed.email; role = parsed.role })

-- `JwtAuthGuard.handleRequest`; an error, and no user, are `none`.
unfoldable pub handle_request : {S U : Type 0} → Option Error → Option U → Action S U
handle_request (some error) user = raise unauthorized
handle_request none user = or_raise user unauthorized

-- `JwtAuthGuard.canActivate`, with the check of passport's guard.
unfoldable pub can_activate : {S : Type 0} → Bool → Action S Bool → Action S Bool
can_activate is_public passport s = elim is_public [ true ↦ (ok true, s) | false ↦ passport s ]

pub record TokenValidationResponse : Type 0 where
  pub user_id : String
  pub email : String
  pub role : UserRole

unfoldable pub validate_token : AuthenticatedUser → TokenValidationResponse
validate_token user = record { user_id = user.id; email = user.email; role = user.role }
