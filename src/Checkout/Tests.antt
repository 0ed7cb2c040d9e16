-- ===== src/Checkout/Tests.antt =====
-- An order of two products.
pub mod Database
pub mod Effects
mod Concurrent
mod Sound
use study_microsservices_nod.Base.{true, ◌≡◌, refl, [], ◌∷◌}
use study_microsservices_nod.Checkout.Money.{of_cents}
use study_microsservices_nod.Checkout.Orders.{
  Cart, ExternalProduct, active, new_item, increased_item, recalculated_total, new_order,
  to_payment_order_message,
}
use study_microsservices_nod.Checkout.Orders.Amounts.{cents_of, message_amount}

abbrev product : ExternalProduct
product = record { id = "product-1"; name = "Notebook"; price = of_cents 199999; is_active = true }

abbrev cart : Cart
unfolding new_item increased_item recalculated_total
cart = record {
  id = "cart-1";
  user_id = "user-1";
  status = active;
  total = of_cents 799996;
  items =
      new_item "item-1" 5 "cart-1" product 1
      ∷ increased_item (new_item "item-2" 6 "cart-1" product 1) 2
      ∷ [];
  created_at = 5;
  updated_at = 6;
}
