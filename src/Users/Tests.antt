-- ===== src/Users/Tests.antt =====
-- A user who registers and logs in, over a table that is a list.
use text.Mathlib.TextPositions.{eq_refl}
use study_microsservices_nod.Base.{
  String, Bool, true, false, ◌=ₛ◌, ◌+ₛ◌, none, some, List, [], ◌∷◌, ◌++◌, find, filter, any, All,
  ◌≡◌, refl, ap, ◌⊎◌, inl, inr, Error, query_failed, Result, ok, err, Bool-cases, arith,
}
use study_microsservices_nod.Users.{User, seller, PublicUser, UsersRepository, IsRepository}
use study_microsservices_nod.Users.Auth.{
  LoginInput, RegisterInput, Crypto, IsCrypto, invalid_credentials, has_email, register, login,
}
use study_microsservices_nod.Users.Auth.Effects.{Checked, login_effect}
use study_microsservices_nod.Users.Auth.Joining.{Joined, IsRegisterError, register_effect}

-- A row is added if its email is free.
abbrev add : User → List User → Bool → Result User × List User
add row rows true = (err (query_failed "23505"), rows)
add row rows false = (ok row, rows ++ row ∷ [])

abbrev taken : User → List User → Bool
taken row rows = any (λ user. user.email =ₛ row.email) rows

abbrev pub table : UsersRepository (List User)
table = record {
  rows = λ d. d;
  find_one = λ test d. (ok (find test d), d);
  find_by = λ test d. (ok (filter test d), d);
  insert_one = λ row d. add (row "user-1" 5) d (taken (row "user-1" 5) d);
}

any_not :
    (test : User → Bool) (rows : List User)
    → any test rows ≡ false
    → All (λ row. test row ≡ false) rows
any_not test [] h = tt
any_not test (row ∷ rows) h = (ground arith, any_not test rows (ground arith))

pub table-IsRepository : IsRepository table
table-IsRepository = record {
  finds = λ test d. (refl, inl refl);
  finds_by = λ test d. (refl, inl refl);
  inserts = λ row d. elim (Bool-cases (taken (row "user-1" 5) d)) [
    | inl used ↦ rw used (inr ("23505", refl, refl))
    | inr free ↦ rw free (inl ("user-1", 5, any_not _ d free, refl, refl))
  ];
}

abbrev pub crypto : Crypto (List User)
crypto = record {
  hash = λ p n d. (ok ("hashed " +ₛ p), d);
  compare = λ p h d. (ok (("hashed " +ₛ p) =ₛ h), d);
  sign = λ p d. (ok ("token of " +ₛ p.sub), d);
}

ok_text : {a b : String} → ok a ≡ ok b → a ≡ b
ok_text h = cc

pub crypto-IsCrypto : IsCrypto table.rows crypto
crypto-IsCrypto = record {
  hash_rows = λ p n d. refl;
  compare_rows = λ p h d. refl;
  sign_rows = λ p d. refl;
  compare_hashed = λ p h n d e d'. ap ok (rw⁻¹ (ok_text e) (eq_refl ("hashed " +ₛ p)));
}

abbrev pub lower : String → String
lower s = s

abbrev pub input : RegisterInput
input = record {
  email = "ana@shop.com";
  password = "secret";
  first_name = "Ana";
  last_name = "Lima";
  role = seller;
}

abbrev credentials : LoginInput
credentials = record { email = "ana@shop.com"; password = "secret" }

unknown_email : (login table lower crypto credentials []).0 ≡ err invalid_credentials
unfolding login
unknown_email = refl

login_effect_example :
    let x = login table lower crypto credentials [] in
    (x.1 ≡ [])
    × (((find (has_email table lower crypto "ana@shop.com") [] ≡ none)
          × (x.0 ≡ err invalid_credentials))
        ⊎ ((user : User) × (find (has_email table lower crypto "ana@shop.com") [] ≡ some user)
            × Checked table table-IsRepository lower crypto crypto-IsCrypto credentials user x.0)
        ⊎ ((code : String) × (x.0 ≡ err (query_failed code))))
login_effect_example =
    login_effect table table-IsRepository lower crypto crypto-IsCrypto credentials []

register_effect_example :
    let x = register table lower crypto input [] in
    ((answer : PublicUser) × (x.0 ≡ ok answer)
      × Joined table table-IsRepository lower crypto crypto-IsCrypto input [] answer x.1)
    ⊎ ((e : Error) × (x.0 ≡ err e)
        × IsRegisterError table table-IsRepository lower crypto crypto-IsCrypto input [] e
        × (x.1 ≡ []))
register_effect_example =
    register_effect table table-IsRepository lower crypto crypto-IsCrypto input []
