-- ===== src/Users.antt =====
-- users-service/src: accounts, registration and login. The table of users, bcrypt and the signing of
-- tokens are parameters.
pub mod Auth
pub mod Accounts
pub mod Tests
use study_microsservices_nod.Base.{
  ℕ, String, Bool, true, false, ◌=ₛ◌, Option, some, List, [], ◌∷◌, ◌++◌, filter, find, All, Action,
  ok, err, query_failed, ◌≡◌, ◌⊎◌,
}

pub data UserRole : Type 0 where
  seller buyer : UserRole

pub data UserStatus : Type 0 where
  active inactive : UserStatus

pub record User : Type 0 where
  pub id : String
  pub email : String
  pub password : String
  pub first_name : String
  pub last_name : String
  pub role : UserRole
  pub status : UserStatus
  pub created_at : ℕ
  pub updated_at : ℕ

pub record PublicUser : Type 0 where
  pub id : String
  pub email : String
  pub first_name : String
  pub last_name : String
  pub role : UserRole
  pub status : UserStatus
  pub created_at : ℕ
  pub updated_at : ℕ

unfoldable pub to_public_user : User → PublicUser
to_public_user user = record {
  id = user.id;
  email = user.email;
  first_name = user.first_name;
  last_name = user.last_name;
  role = user.role;
  status = user.status;
  created_at = user.created_at;
  updated_at = user.updated_at;
}

-- TypeORM's repository of users. A `where` is a test of rows; a row that is inserted is a function of
-- the id and the time that the database gives it.
pub record UsersRepository (D : Type 0) : Type 0 where
  pub rows : D → List User
  pub find_one : (User → Bool) → Action D (Option User)
  pub find_by : (User → Bool) → Action D (List User)
  pub insert_one : (String → ℕ → User) → Action D User

pub record IsRepository {D : Type 0} (repository : UsersRepository D) : Type 0 where
  pub finds :
      (test : User → Bool) (d : D)
      → (repository.rows (repository.find_one test d).1 ≡ repository.rows d)
        × (((repository.find_one test d).0 ≡ ok (find test (repository.rows d)))
            ⊎ ((code : String) × ((repository.find_one test d).0 ≡ err (query_failed code))))
  pub finds_by :
      (test : User → Bool) (d : D)
      → (repository.rows (repository.find_by test d).1 ≡ repository.rows d)
        × (((repository.find_by test d).0 ≡ ok (filter test (repository.rows d)))
            ⊎ ((code : String) × ((repository.find_by test d).0 ≡ err (query_failed code))))
  -- The email of a row is unique.
  pub inserts :
      (row : String → ℕ → User) (d : D)
      → ((id : String) × (now : ℕ) × All
            (λ user. (user.email =ₛ (row id now).email) ≡ false)
            (repository.rows d)
          × ((repository.insert_one row d).0 ≡ ok (row id now))
          × (repository.rows (repository.insert_one row d).1
              ≡ repository.rows d ++ row id now ∷ []))
        ⊎ ((code : String) × ((repository.insert_one row d).0 ≡ err (query_failed code))
            × (repository.rows (repository.insert_one row d).1 ≡ repository.rows d))
