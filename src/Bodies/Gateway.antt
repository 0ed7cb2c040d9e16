-- ===== src/Bodies/Gateway.antt =====
-- The gateway's schemas: api-gateway/src/auth/controllers/dtos, products/dtos and checkout/dtos; and
-- pipes/zod-validation.pipe.ts. What a schema makes of a body is sent on as a body.
use Prim.Native.String.{len}
use study_microsservices_nod.Base.{
  String, Bool, ◌&&◌, ◌||◌, leb, ◌=ₛ◌, Option, some, [], ◌∷◌, Action, Error, http, or_raise, Value,
}
use study_microsservices_nod.Base.Values.{num, str, object, member, no_members}
use study_microsservices_nod.Bodies.{
  string, number, Body, Texts, ◌>>=◌, ◌>>◌, guard, has_only, text_of, number_of, one, is_int,
  is_at_least, has_length,
}
use study_microsservices_nod.Bodies.Services.{
  login_keys, register_keys, create_product_keys, add_cart_item_keys, checkout_keys,
}

-- `z.enum(['buyer', 'seller'])`
abbrev is_role : String → Bool
is_role s = (s =ₛ "buyer") || (s =ₛ "seller")

module _ (texts : Texts) where
  unfoldable pub login_schema : Body → Option Body
  login_schema body = do
    guard (has_only login_keys body)
    email ← text_of "email" body
    password ← text_of "password" body
    guard (texts.is_email (texts.lower (texts.trim email)) && leb 6 (len password))
    some (("email", string (texts.lower (texts.trim email))) ∷ ("password", string password) ∷ [])

  unfoldable pub register_schema : Body → Option Body
  register_schema body = do
    guard (has_only register_keys body)
    email ← text_of "email" body
    password ← text_of "password" body
    first_name ← text_of "firstName" body
    last_name ← text_of "lastName" body
    role ← text_of "role" body
    guard (
        texts.is_email (texts.lower (texts.trim email))
        && leb 6 (len password)
        && has_length 100 (texts.trim first_name)
        && has_length 100 (texts.trim last_name)
        && is_role role)
    some (
        ("email", string (texts.lower (texts.trim email)))
        ∷ ("password", string password)
        ∷ ("firstName", string (texts.trim first_name))
        ∷ ("lastName", string (texts.trim last_name))
        ∷ ("role", string role)
        ∷ [])

  -- Without the test for whole cents.
  unfoldable pub create_product_schema : Body → Option Body
  create_product_schema body = do
    guard (has_only create_product_keys body)
    name ← text_of "name" body
    description ← text_of "description" body
    price ← number_of "price" body
    stock ← number_of "stock" body
    guard (
        has_length 255 (texts.trim name)
        && leb 1 (len (texts.trim description))
        && is_at_least 100 price
        && (is_int stock && is_at_least 0 stock))
    some (
        ("name", string (texts.trim name))
        ∷ ("description", string (texts.trim description))
        ∷ ("price", number price)
        ∷ ("stock", number stock)
        ∷ [])

  unfoldable pub add_cart_item_schema : Body → Option Body
  add_cart_item_schema body = do
    guard (has_only add_cart_item_keys body)
    product_id ← text_of "productId" body
    quantity ← number_of "quantity" body
    guard (texts.is_uuid product_id && (is_int quantity && is_at_least one quantity))
    some (("productId", string product_id) ∷ ("quantity", number quantity) ∷ [])

  -- Any method that is not blank.
  unfoldable pub checkout_schema : Body → Option Body
  checkout_schema body = do
    guard (has_only checkout_keys body)
    payment_method ← text_of "paymentMethod" body
    guard (leb 1 (len (texts.trim payment_method)))
    some (("paymentMethod", string (texts.trim payment_method)) ∷ [])

-- What the pipe throws, with zod's account of what is wrong.
abbrev pub validation_failed : Value → Error
validation_failed flattened = http 400 (
    object (
      member "message" (str "Data validation failed")
        (member "error" flattened (member "statusCode" (num 400) no_members))))

-- `ZodValidationPipe.transform`; `flatten` is `result.error.flatten()`.
unfoldable pub transform :
    {S A : Type 0} (schema : Body → Option A) (flatten : Body → Value) → Body → Action S A
transform schema flatten body = or_raise (schema body) (validation_failed (flatten body))
