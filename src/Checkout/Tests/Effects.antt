-- ===== src/Checkout/Tests/Effects.antt =====
-- Carts and orders in a database with one user's cart in it.
use study_microsservices_nod.Base.{
  ◌≡◌, ◌⊎◌, refl, String, true, false, ◌=ₛ◌, ◌&&◌, none, [], ◌∷◌, find, Error, http, ok, err,
  Action,
}
use study_microsservices_nod.Base.Values.{str}
use study_microsservices_nod.Checkout.Money.{of_cents}
use study_microsservices_nod.Checkout.Orders.{
  Cart, CartItem, ExternalProduct, active, new_item, increased_item, Order, PaymentOrderMessage,
  to_payment_order_message,
}
use study_microsservices_nod.Checkout.Store.{CartRow}
use study_microsservices_nod.Checkout.Store.Settling.{IsRefusal}
use study_microsservices_nod.Checkout.Responses.{CartResponse, to_order_response}
use study_microsservices_nod.Checkout.Cart.{add_item, remove_item_of}
use study_microsservices_nod.Checkout.Cart.Tables.{bag}
use study_microsservices_nod.Checkout.Cart.Adding.{Added}
use study_microsservices_nod.Checkout.Cart.Removing.{IsIn, Removed, IsRemovalError}
use study_microsservices_nod.Checkout.Cart.Effects.{
  unavailable_product, add_item_effect, remove_item_effect,
}
use study_microsservices_nod.Checkout.Ordering.{
  checkout, create_order_from_active_cart, find_by_id_for_user, order_not_found,
}
use study_microsservices_nod.Checkout.Ordering.Placing.{Placed, IsCheckoutError}
use study_microsservices_nod.Checkout.Ordering.Effects.{checkout_effect, find_by_id_effect}
use study_microsservices_nod.Checkout.Tests.Database.{Database, database, database-IsManager}

abbrev product : ExternalProduct
product = record { id = "product-1"; name = "Notebook"; price = of_cents 199999; is_active = true }

abbrev pub cart_row : CartRow
cart_row = record {
  id = "cart-1";
  user_id = "user-1";
  status = active;
  total = of_cents 399998;
  created_at = 5;
  updated_at = 6;
}

abbrev pub shop : Database
unfolding new_item
shop = record {
  tables = record {
    carts = cart_row ∷ [];
    items = new_item "item-1" 5 "cart-1" product 2 ∷ [];
    orders = [];
  };
  ids = "id-1" ∷ "id-2" ∷ "id-3" ∷ [];
  keyed = refl;
}

abbrev pub fetch : String → Action Database ExternalProduct
fetch product_id d = (ok product, d)

abbrev pub publish : PaymentOrderMessage → Action Database (Unit {0})
publish message d = (ok tt, d)

-- The cart has the product already: its quantity grows.
more_of_it :
    bag "user-1" (add_item database fetch "user-1" "product-1" 3 shop).1.tables "product-1" ≡ 5
unfolding add_item new_item increased_item
more_of_it = refl

-- Another user's first item opens a cart.
first_of_it :
    bag "user-2" (add_item database fetch "user-2" "product-1" 3 shop).1.tables "product-1" ≡ 3
unfolding add_item new_item increased_item
first_of_it = refl

none_left : bag "user-1" (remove_item_of database "user-1" "item-1" shop).1.tables "product-1" ≡ 0
unfolding remove_item_of new_item
none_left = refl

-- A second checkout finds no active cart.
no_second_order :
    (checkout database publish "user-1" "pix" (checkout database publish "user-1" "pix" shop).1).0
    ≡ err (http 422 (str "Não é possível finalizar um carrinho vazio"))
unfolding checkout new_item
no_second_order = refl

add_item_effect_example :
    let x = add_item database fetch "user-1" "product-1" 3 shop in
    ((answer : CartResponse) × (found : ExternalProduct) × (ok product ≡ ok found)
      × (found.is_active ≡ true)
      × (x.0 ≡ ok answer)
      × Added "user-1" found.id 3 shop.tables answer x.1.tables)
    ⊎ ((e : Error) × (x.0 ≡ err e)
        × (x.1.tables ≡ shop.tables)
        × ((ok product ≡ err e)
            ⊎ ((found : ExternalProduct) × (ok product ≡ ok found)
                × (found.is_active ≡ false)
                × (e ≡ unavailable_product))
            ⊎ IsRefusal e))
add_item_effect_example =
    add_item_effect database database-IsManager fetch (λ product_id d. refl) "user-1" "product-1" 3
      shop

remove_item_effect_example :
    let x = remove_item_of database "user-1" "item-1" shop in
    ((answer : CartResponse) × (x.0 ≡ ok answer)
      × ((item : CartItem) × IsIn "user-1" "item-1" item shop.tables
          × Removed "user-1" item shop.tables answer x.1.tables))
    ⊎ ((e : Error) × IsRemovalError "user-1" "item-1" shop.tables e
        × (x.0 ≡ err e)
        × (x.1.tables ≡ shop.tables))
remove_item_effect_example = remove_item_effect database database-IsManager "user-1" "item-1" shop

checkout_effect_example :
    let placing = create_order_from_active_cart database "user-1" "pix" shop in
    let x = checkout database publish "user-1" "pix" shop in
    ((order : Order) × (cart : Cart) × Placed "user-1" "pix" shop.tables order cart placing.1.tables
      × (x ≡ (
        ok (to_order_response order),
        (publish (to_payment_order_message order cart) placing.1).1,
      )))
    ⊎ ((e : Error) × IsCheckoutError "user-1" shop.tables e
        × (placing.1.tables ≡ shop.tables)
        × (x ≡ (err e, placing.1)))
checkout_effect_example = checkout_effect database database-IsManager publish "user-1" "pix" shop

find_by_id_effect_example :
    let x = find_by_id_for_user database "user-2" "id-1" shop in
    (x.1.tables ≡ shop.tables)
    × (((order : Order) × (x.0 ≡ ok (to_order_response order))
          × (order.id ≡ "id-1")
          × (order.user_id ≡ "user-2"))
        ⊎ ((x.0 ≡ err order_not_found)
            × (find (λ o. (o.id =ₛ "id-1") && (o.user_id =ₛ "user-2")) shop.tables.orders ≡ none))
        ⊎ ((e : Error) × IsRefusal e × (x.0 ≡ err e)))
find_by_id_effect_example = find_by_id_effect database database-IsManager "user-2" "id-1" shop
