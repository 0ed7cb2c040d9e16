-- ===== src/Users/Accounts.antt =====
-- users-service/src/users/users.service.ts.
use study_microsservices_nod.Base.{
  String, Bool, true, false, ◌&&◌, ◌=ₛ◌, List, map, Error, http, Action, pure, or_raise, ◌>>=◌,
}
use study_microsservices_nod.Base.Values.{str}
use study_microsservices_nod.Users.{
  User, UserRole, seller, buyer, PublicUser, to_public_user, UsersRepository,
}
use study_microsservices_nod.Users.Auth.{is_active, unauthorized}

abbrev pub user_not_found : Error
user_not_found = http 404 (str "Usuário não encontrado")

abbrev pub is_seller : UserRole → Bool
is_seller seller = true
is_seller buyer = false

-- `{ role: UserRole.SELLER, status: UserStatus.ACTIVE }`
abbrev pub is_active_seller : User → Bool
is_active_seller user = is_seller user.role && is_active user.status

module _ {D : Type 0} (repository : UsersRepository D) where
  unfoldable pub get_profile : String → Action D PublicUser
  unfolding to_public_user
  get_profile user_id = do
    found ← repository.find_one (λ user. user.id =ₛ user_id)
    user ← or_raise found unauthorized
    pure (to_public_user user)

  unfoldable pub get_active_sellers : Action D (List PublicUser)
  unfolding to_public_user
  get_active_sellers = do
    sellers ← repository.find_by is_active_seller
    pure (map to_public_user sellers)

  unfoldable pub get_by_id : String → Action D PublicUser
  unfolding to_public_user
  get_by_id user_id = do
    found ← repository.find_one (λ user. user.id =ₛ user_id)
    user ← or_raise found user_not_found
    pure (to_public_user user)
