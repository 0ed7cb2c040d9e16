-- ===== src/Bodies/Services.antt =====
-- The schemas of the services: users-service/src/auth/controllers/dtos, products-service/src/products/dtos,
-- checkout-service/src/cart/dtos and orders/dtos.
use Prim.Native.String.{len}
use study_microsservices_nod.Base.{
  ℕ, ◌/◌, ◌%◌, String, Bool, ◌&&◌, leb, ◌==◌, ◌=ₛ◌, Option, none, some, List, [], ◌∷◌, any,
  if◌then◌else◌,
}
use study_microsservices_nod.Bodies.{
  Numeral, Body, Texts, ◌>>=◌, ◌>>◌, guard, has_only, text_of, number_of, one, is_int, is_at_least,
  has_length,
}
use study_microsservices_nod.Users.{UserRole, seller, buyer}
use study_microsservices_nod.Users.Auth.{LoginInput, RegisterInput}
use study_microsservices_nod.Products.{CreateProductInput}

abbrev pub login_keys : List String
login_keys = "email" ∷ "password" ∷ []

abbrev pub register_keys : List String
register_keys = "email" ∷ "password" ∷ "firstName" ∷ "lastName" ∷ "role" ∷ []

abbrev pub create_product_keys : List String
create_product_keys = "name" ∷ "description" ∷ "price" ∷ "stock" ∷ []

abbrev pub add_cart_item_keys : List String
add_cart_item_keys = "productId" ∷ "quantity" ∷ []

abbrev pub checkout_keys : List String
checkout_keys = "paymentMethod" ∷ []

-- `z.enum(UserRole)`
abbrev pub user_role : String → Option UserRole
user_role s = if s =ₛ "seller" then some seller else if s =ₛ "buyer" then some buyer else none

pub record AddCartItemInput : Type 0 where
  pub product_id : String
  pub quantity : ℕ

abbrev pub payment_methods : List String
payment_methods = "credit_card" ∷ "debit_card" ∷ "pix" ∷ "boleto" ∷ []

-- `z.enum(PAYMENT_METHODS)`
abbrev pub is_payment_method : String → Bool
is_payment_method method = any (λ known. known =ₛ method) payment_methods

module _ (texts : Texts) where
  unfoldable pub login_schema : Body → Option LoginInput
  login_schema body = do
    guard (has_only login_keys body)
    email ← text_of "email" body
    password ← text_of "password" body
    guard (texts.is_email (texts.lower (texts.trim email)) && leb 6 (len password))
    some (record { email = texts.lower (texts.trim email); password = password })

  -- The tests of the fields, all of them texts.
  unfoldable pub register_of : String → String → String → String → String → Option RegisterInput
  register_of email password first_name last_name role_name = do
    role ← user_role role_name
    guard (
        texts.is_email (texts.lower (texts.trim email))
        && leb 6 (len password)
        && has_length 100 (texts.trim first_name)
        && has_length 100 (texts.trim last_name))
    some (record {
      email = texts.lower (texts.trim email);
      password = password;
      first_name = texts.trim first_name;
      last_name = texts.trim last_name;
      role = role;
    })

  unfoldable pub register_schema : Body → Option RegisterInput
  register_schema body = do
    guard (has_only register_keys body)
    email ← text_of "email" body
    password ← text_of "password" body
    first_name ← text_of "firstName" body
    last_name ← text_of "lastName" body
    role ← text_of "role" body
    register_of email password first_name last_name role

  unfoldable pub create_product_of : String → String → Numeral → Numeral → Option CreateProductInput
  create_product_of name description price stock =
      guard (
        has_length 255 (texts.trim name)
        && leb 1 (len (texts.trim description))
        && (is_at_least 100 price && (price.units % 100 == 0))
        && (is_int stock && is_at_least 0 stock))
      >> some (record {
        name = texts.trim name;
        description = texts.trim description;
        price = price.units;
        stock = stock.units / one;
      })

  unfoldable pub create_product_schema : Body → Option CreateProductInput
  create_product_schema body = do
    guard (has_only create_product_keys body)
    name ← text_of "name" body
    description ← text_of "description" body
    price ← number_of "price" body
    stock ← number_of "stock" body
    create_product_of name description price stock

  unfoldable pub add_cart_item_schema : Body → Option AddCartItemInput
  add_cart_item_schema body = do
    guard (has_only add_cart_item_keys body)
    product_id ← text_of "productId" body
    quantity ← number_of "quantity" body
    guard (texts.is_uuid product_id && (is_int quantity && is_at_least one quantity))
    some (record { product_id = product_id; quantity = quantity.units / one })

  unfoldable pub checkout_schema : Body → Option String
  checkout_schema body = do
    guard (has_only checkout_keys body)
    payment_method ← text_of "paymentMethod" body
    guard (is_payment_method payment_method)
    some payment_method
