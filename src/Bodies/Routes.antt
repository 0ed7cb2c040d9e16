-- ===== src/Bodies/Routes.antt =====
-- The handlers of the services' controllers, with what the pipes make of a body or of an id:
-- users-service/src/auth/controllers/auth.controller.ts, users/users.controller.ts; products-service/src/products/products.controller.ts;
-- checkout-service/src/cart/cart.controller.ts, orders/checkout.controller.ts, orders/orders.controller.ts;
-- payments-service/src/payments/payments.controller.ts. nestjs-zod's pipe throws `invalid` for a body that
-- its schema refuses; `ParseUUIDPipe` has its own test of an id.
use study_microsservices_nod.Base.{
  String, Bool, not, Option, List, Error, http, Action, or_raise, raise_if, ◌>>=◌, ◌>>◌,
}
use study_microsservices_nod.Base.Values.{str}
use study_microsservices_nod.Bodies.{Body, Texts}
use study_microsservices_nod.Bodies.Services.{
  login_schema, register_schema, create_product_schema, add_cart_item_schema, checkout_schema,
}
use study_microsservices_nod.Users.{PublicUser, UsersRepository}
use study_microsservices_nod.Users.Auth.{LoginResponse, Crypto, AuthenticatedUser}
use study_microsservices_nod.Users.Auth as Auth
use study_microsservices_nod.Users.Accounts as Accounts
use study_microsservices_nod.Products.{Product, ProductsRepository, create_as}
use study_microsservices_nod.Products as Products
use study_microsservices_nod.Checkout.Orders.{ExternalProduct, PaymentOrderMessage}
use study_microsservices_nod.Checkout.Store.{Manager}
use study_microsservices_nod.Checkout.Responses.{CartResponse, OrderResponse}
use study_microsservices_nod.Checkout.Cart as Cart
use study_microsservices_nod.Checkout.Ordering as Ordering
use study_microsservices_nod.Payments.Entity.{PaymentsRepository}
use study_microsservices_nod.Payments.Charge.{Process}
use study_microsservices_nod.Payments.Service.{PaymentResponse, find_by_order_id}

abbrev pub not_a_uuid : Error
not_a_uuid = http 400 (str "Validation failed (uuid is expected)")

-- `new ParseUUIDPipe()`, before a handler.
abbrev pub with_uuid :
    {S A : Type 0} → (String → Bool) → (String → Action S A) → String → Action S A
with_uuid parses handler id = raise_if (not (parses id)) not_a_uuid >> handler id

module _ (texts : Texts) (invalid : Error) where
  -- The pipe, before a handler.
  abbrev pub with_body : {S I A : Type 0} → (Body → Option I) → (I → Action S A) → Body → Action S A
  with_body schema handler body = or_raise (schema body) invalid >>= handler

  module _ {D : Type 0} (repository : UsersRepository D) (lower : String → String)
      (crypto : Crypto D) where
    unfoldable pub register : Body → Action D PublicUser
    register = with_body (register_schema texts) (Auth.register repository lower crypto)

    unfoldable pub login : Body → Action D LoginResponse
    login = with_body (login_schema texts) (Auth.login repository lower crypto)

  module _ {D : Type 0} (repository : ProductsRepository D) where
    unfoldable pub create_product : AuthenticatedUser → Body → Action D Product
    create_product user =
        with_body (create_product_schema texts) (λ input. create_as repository input user)

  module _ {D : Type 0} (m : Manager D) where
    unfoldable pub add_item :
        (String → Action D ExternalProduct) → AuthenticatedUser → Body → Action D CartResponse
    add_item fetch user =
        with_body (add_cart_item_schema texts)
          (λ input. Cart.add_item m fetch user.id input.product_id input.quantity)

    unfoldable pub checkout :
        (PaymentOrderMessage → Action D (Unit {0}))
        → AuthenticatedUser
        → Body
        → Action D OrderResponse
    checkout publish user =
        with_body (checkout_schema texts) (λ method. Ordering.checkout m publish user.id method)

module _ {D : Type 0} (repository : UsersRepository D) where
  unfoldable pub get_profile : AuthenticatedUser → Action D PublicUser
  get_profile user = Accounts.get_profile repository user.id

module _ {D : Type 0} (m : Manager D) where
  unfoldable pub get_cart : AuthenticatedUser → Action D CartResponse
  get_cart user = Cart.get_cart m user.id

  unfoldable pub find_orders : AuthenticatedUser → Action D (List OrderResponse)
  find_orders user = Ordering.find_all_by_user m user.id

module _ (parses : String → Bool) where
  module _ {D : Type 0} (repository : UsersRepository D) where
    unfoldable pub get_by_id : String → Action D PublicUser
    get_by_id = with_uuid parses (Accounts.get_by_id repository)

  module _ {D : Type 0} (repository : ProductsRepository D) where
    unfoldable pub find_active_by_seller : String → Action D (List Product)
    find_active_by_seller = with_uuid parses (Products.find_active_by_seller repository)

    unfoldable pub find_product : String → Action D Product
    find_product = with_uuid parses (Products.find_by_id repository)

  module _ {D : Type 0} (m : Manager D) where
    unfoldable pub remove_item : AuthenticatedUser → String → Action D CartResponse
    remove_item user = with_uuid parses (Cart.remove_item_of m user.id)

    unfoldable pub find_order : AuthenticatedUser → String → Action D OrderResponse
    find_order user = with_uuid parses (Ordering.find_by_id_for_user m user.id)

  module _ {D : Type 0} (repository : PaymentsRepository D) where
    unfoldable pub find_payment : String → Action (Process D) PaymentResponse
    find_payment = with_uuid parses (find_by_order_id repository)
