-- ===== src/Bodies/Tests.antt =====
-- Bodies of requests, through the gateway and the services.
use study_microsservices_nod.Base.{
  ◌*◌, ◌≡◌, ◌⊎◌, refl, String, false, not, ◌=ₛ◌, none, [], ◌∷◌, All, Error, http, ok, err, arith,
  get, Bool-cases, inl, inr, if◌then◌else◌,
}
use study_microsservices_nod.Base.Values.{str}
use study_microsservices_nod.Payments.Money.{cent}
use study_microsservices_nod.Bodies.{
  string, other, natural, Body, Texts, IsTexts, ◌>>=◌, guard, text_of, one,
}
use study_microsservices_nod.Bodies.Services
use study_microsservices_nod.Bodies.Gateway
use study_microsservices_nod.Bodies.Agreement.{trimmed_checkout, checked_twice}
use study_microsservices_nod.Bodies.Routes as Routes
use study_microsservices_nod.Bodies.Accounts.{route-IsUnique, registered_logs_in}
use study_microsservices_nod.Bodies.Prices.{IsOffered, route-IsOffered}
use study_microsservices_nod.Users.{to_public_user}
use study_microsservices_nod.Users.Auth.{new_user, register}
use study_microsservices_nod.Users.Auth.Effects.{IsOutage}
use study_microsservices_nod.Users.Auth.Joining.{IsUnique}
use study_microsservices_nod.Users.Tests as Accounts
use study_microsservices_nod.Products.Tests as Catalog
use study_microsservices_nod.Products.{new_product}

-- Texts without blanks, of which one has capitals.
abbrev texts : Texts
texts = record {
  is_uuid = λ s. not (s =ₛ "");
  is_email = λ s. not (s =ₛ "");
  trim = λ s. s;
  lower = λ s. if s =ₛ "Ana@Shop.com" then "ana@shop.com" else s;
}

lower_again : (s : String) → texts.lower (texts.lower s) ≡ texts.lower s
lower_again s = elim (Bool-cases (s =ₛ "Ana@Shop.com")) [
  | inl capitals ↦ rw capitals refl
  | inr others ↦ rw (others, others) refl
]

texts-IsTexts : IsTexts texts
texts-IsTexts = record { trim_again = λ s. refl; lower_again = lower_again; trim_lower = λ s. refl }

abbrev invalid : Error
invalid = http 400 (str "Validation failed")

abbrev registration : Body
registration =
    ("email", string "ana@shop.com")
    ∷ ("password", string "secret")
    ∷ ("firstName", string "Ana")
    ∷ ("lastName", string "Lima")
    ∷ ("role", string "seller")
    ∷ []

abbrev credentials : Body
credentials = ("password", string "secret") ∷ ("email", string "Ana@Shop.com") ∷ []

abbrev product : Body
product =
    ("name", string "Notebook")
    ∷ ("description", string "15 inches")
    ∷ ("price", natural (199999 * cent))
    ∷ ("stock", natural (3 * one))
    ∷ []

-- A key that the schema does not know, and a price with half a cent.
strange_key : Services.login_schema texts (("admin", other) ∷ credentials) ≡ none
unfolding Services.login_schema ◌>>=◌ guard
strange_key = refl

half_a_cent :
    Services.create_product_of texts "Notebook" "15 inches"
      (record { negative = false; units = 150 })
      (record { negative = false; units = 0 })
    ≡ none
unfolding Services.create_product_of ◌>>=◌ guard
half_a_cent = refl

checked_twice_example :
    ((Gateway.login_schema texts credentials >>= Services.login_schema texts)
      ≡ Services.login_schema texts credentials)
    × ((Gateway.register_schema texts credentials >>= Services.register_schema texts)
        ≡ Services.register_schema texts credentials)
    × ((Gateway.create_product_schema texts credentials >>= Services.create_product_schema texts)
        ≡ Services.create_product_schema texts credentials)
    × ((Gateway.add_cart_item_schema texts credentials >>= Services.add_cart_item_schema texts)
        ≡ Services.add_cart_item_schema texts credentials)
    × ((Gateway.checkout_schema texts credentials >>= Services.checkout_schema texts)
        ≡ trimmed_checkout texts texts-IsTexts credentials)
checked_twice_example = checked_twice texts texts-IsTexts credentials

route-IsUnique_example :
    IsUnique Accounts.lower
      (Routes.register texts invalid Accounts.table Accounts.lower Accounts.crypto registration
        []).1
route-IsUnique_example =
    route-IsUnique texts invalid Accounts.table Accounts.table-IsRepository Accounts.lower
      (λ s. refl) Accounts.crypto Accounts.crypto-IsCrypto registration [] tt

registered_logs_in_example :
    let x =
      Routes.login texts invalid Accounts.table Accounts.lower Accounts.crypto credentials
        (Routes.register texts invalid Accounts.table Accounts.lower Accounts.crypto registration
          []).1 in
    ((token : String) × (x.0
        ≡ ok (record {
          user = to_public_user (new_user "user-1" 5 Accounts.input "hashed secret");
          token = token;
        })))
    ⊎ ((e : Error) × (x.0 ≡ err e)
        × IsOutage Accounts.table Accounts.table-IsRepository Accounts.lower Accounts.crypto
            Accounts.crypto-IsCrypto e)
unfolding Routes.register Services.register_schema Services.register_of text_of ◌>>=◌ guard get
    register
registered_logs_in_example =
    registered_logs_in texts invalid Accounts.table Accounts.table-IsRepository Accounts.lower
      (λ s. refl) Accounts.crypto Accounts.crypto-IsCrypto registration credentials []
      (to_public_user (new_user "user-1" 5 Accounts.input "hashed secret")) "ana@shop.com"
      "Ana@Shop.com" refl refl refl refl refl refl

route-IsOffered_example :
    All IsOffered
      (Routes.create_product texts invalid Catalog.table Catalog.ana product
        (new_product "product-0" 1 Catalog.input "user-1" ∷ [])).1
unfolding new_product
route-IsOffered_example =
    route-IsOffered texts invalid Catalog.table Catalog.table-IsRepository product Catalog.ana
      (new_product "product-0" 1 Catalog.input "user-1" ∷ []) ((omega arith, refl, refl), tt)
