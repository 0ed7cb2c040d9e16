-- ===== src/Checkout/Orders/Amounts.antt =====
-- The amount that is asked for is that of the items.
use study_microsservices_nod.Base.{
  ℕ, ◌+◌, ◌*◌, ◌≡◌, refl, ap, String, List, [], ◌∷◌, map, All, arith,
}
use study_microsservices_nod.Checkout.Money.{
  to_cents, of_cents, to_money, multiply_money, add_cents, sum_money,
}
use study_microsservices_nod.Checkout.Orders.{
  CartItem, Cart, ExternalProduct, new_item, increased_item, recalculated_total, new_order,
  MessageItem, message_item, to_payment_order_message,
}

abbrev pub IsPriced : CartItem → Type 0
IsPriced item = item.subtotal ≡ multiply_money item.price item.quantity

-- Price in cents times quantity, over the items of a message.
abbrev pub cents_of : List MessageItem → ℕ
cents_of [] = 0
cents_of (item ∷ items) = to_cents item.price * item.quantity + cents_of items

whole_cents : (n : ℕ) → to_cents (of_cents n) ≡ n
unfolding to_cents
whole_cents n = omega arith

add_cents-items :
    (total : ℕ) (items : List CartItem)
    → All IsPriced items
    → add_cents total (map (λ item. item.subtotal) items)
      ≡ total + cents_of (map message_item items)
unfolding add_cents multiply_money
add_cents-items total [] h = omega arith
add_cents-items total (item ∷ items) (priced, h) =
    let rest = add_cents-items (total + to_cents item.price * item.quantity) items h in
    rw (priced, whole_cents (to_cents item.price * item.quantity)) (omega (arith, rest))

-- If every item has its subtotal and the cart's total was recalculated, then the amount of the message
-- for the order of that cart is, over the items of the message, the sum of price in cents times
-- quantity.
pub message_amount :
    (id user_id payment_method : String) (now : ℕ) (cart : Cart)
    → All IsPriced cart.items
    → cart.total ≡ recalculated_total cart.items
    → let message = to_payment_order_message (new_order id now user_id cart payment_method) cart in
      message.amount ≡ of_cents (cents_of message.items)
unfolding to_payment_order_message new_order to_money recalculated_total sum_money
message_amount id user_id payment_method now cart priced totalled =
    rw (totalled, whole_cents, add_cents-items 0 cart.items priced) (ap of_cents (omega arith))

-- The items that are added or increased have their subtotal.
pub new_item-IsPriced :
    (id : String) (now : ℕ) (cart_id : String) (product : ExternalProduct) (quantity : ℕ)
    → IsPriced (new_item id now cart_id product quantity)
unfolding new_item
new_item-IsPriced id now cart_id product quantity = refl

pub increased_item-IsPriced : (item : CartItem) (added : ℕ) → IsPriced (increased_item item added)
unfolding increased_item
increased_item-IsPriced item added = refl
