-- ===== src/Contract/Payable.antt =====
-- Which orders can be published: the message of an order of a cart, against its schema.
use study_microsservices_nod.Base.{
  ℕ, zero, suc, ◌*◌, ◌≤◌, ◌≡◌, ◌≢◌, refl, ap, ◌∙◌, String, Bool, true, false, ◌&&◌, leb, none, some,
  is_some, List, [], ◌∷◌, map, every, All, arith, if◌then◌else◌,
}
use study_microsservices_nod.Payments.Money.{Number, finite, not_finite}
use study_microsservices_nod.Checkout.Money.{to_cents, of_cents}
use study_microsservices_nod.Checkout.Orders.{
  Cart, CartItem, new_order, recalculated_total, message_item, to_payment_order_message,
}
use study_microsservices_nod.Checkout.Orders.Amounts.{IsPriced, cents_of, message_amount}
use study_microsservices_nod.Contract.{Texts, IsTexts, has_length}
use study_microsservices_nod.Contract.Publisher.{
  money_schema, payment_item_schema, order_fields_schema, message_metadata_schema,
  payment_order_message_schema, sent_message, has_items,
}

positive_product : (a b : ℕ) → 1 ≤ a → 1 ≤ b → 1 ≤ a * b
positive_product zero b h k = omega arith
positive_product (suc a) zero h k = omega arith
positive_product (suc a) (suc b) h k = omega arith

positive_cents : (price : Number) → money_schema price ≡ true → 1 ≤ to_cents price
unfolding money_schema to_cents
positive_cents (finite v) h = ground arith
positive_cents not_finite h = cc

-- An item that may be sent.
abbrev pub IsSendable : Texts → CartItem → Type 0
IsSendable texts item = IsPriced item × (payment_item_schema texts (message_item item) ≡ true)

module _ (texts : Texts) where
  items_pass :
      (items : List CartItem)
      → All (IsSendable texts) items
      → every (payment_item_schema texts) (map message_item items) ≡ true
  items_pass [] h = refl
  items_pass (item ∷ items) ((priced, passes), h) = rw (passes, items_pass items h) refl

  pub All-IsPriced : (items : List CartItem) → All (IsSendable texts) items → All IsPriced items
  All-IsPriced [] h = tt
  All-IsPriced (item ∷ items) ((priced, passes), h) = (priced, All-IsPriced items h)

  positive_sum :
      (items : List CartItem)
      → items ≢ []
      → All (IsSendable texts) items
      → 1 ≤ cents_of (map message_item items)
  unfolding payment_item_schema
  positive_sum [] h k = absurd (h refl)
  positive_sum (item ∷ items) h ((priced, passes), k) =
      let price = positive_cents item.price (ground arith) in
      let quantity : 1 ≤ item.quantity = ground arith in
      omega (arith, positive_product (to_cents item.price) item.quantity price quantity)

whole_money : (n : ℕ) → 1 ≤ n → money_schema (of_cents n) ≡ leb n 9999999999
unfolding money_schema
whole_money n h = ground arith

is_some-if :
    {A : Type 0} (b : Bool) (a : A) → is_some (if b && true && true then some a else none) ≡ b
is_some-if true a = refl
is_some-if false a = refl

has_items-map :
    (texts : Texts) (items : List CartItem)
    → items ≢ []
    → has_items texts (map message_item items) ≡ true
has_items-map texts [] h = absurd (h refl)
has_items-map texts (item ∷ items) h = refl

and_true : (b : Bool) → (b && true && true && true) ≡ b
and_true true = refl
and_true false = refl

-- What is asked of a cart and of the order's texts.
abbrev pub IsOrderable : Texts → String → String → String → Cart → Type 0
IsOrderable texts id user_id method cart =
    (cart.items ≢ [])
    × All (IsSendable texts) cart.items
    × (cart.total ≡ recalculated_total cart.items)
    × (texts.is_uuid id ≡ true)
    × (texts.is_uuid user_id ≡ true)
    × (has_length 50 (texts.trim method) ≡ true)

fields_are :
    (texts : Texts) (id user_id method : String) (now : ℕ) (cart : Cart)
    → IsOrderable texts id user_id method cart
    → order_fields_schema texts (sent_message texts (new_order id now user_id cart method) cart)
      ≡ leb (cents_of (map message_item cart.items)) 9999999999
unfolding order_fields_schema sent_message to_payment_order_message new_order
fields_are texts id user_id method now cart (full, sendable, totalled, is_id, is_user, is_method) =
    let n = cents_of (map message_item cart.items) in
    let amount =
      message_amount id user_id method now cart (All-IsPriced texts cart.items sendable) totalled in
    let price = whole_money n (positive_sum texts cart.items full sendable) in
    let money : money_schema (sent_message texts (new_order id now user_id cart method) cart).amount
        ≡ leb n 9999999999 =
      ap money_schema amount ∙ price in
    rw
      (
        is_id,
        is_user,
        money,
        has_items-map texts cart.items full,
        items_pass texts cart.items sendable,
        is_method,
      )
      (and_true (leb n 9999999999))

-- The message for the order of a cart passes the schema just when its amount is at most 99,999,999.99:
-- for a cart with items in it, each with its subtotal and fit to be sent, the total recalculated, ids
-- that are uuids and a method that is not blank nor too long.
pub order_publishable :
    (texts : Texts) (laws : IsTexts texts) (id user_id method : String) (now : ℕ) (cart : Cart)
    → IsOrderable texts id user_id method cart
    → is_some (
        payment_order_message_schema texts
          (sent_message texts (new_order id now user_id cart method) cart))
      ≡ leb (cents_of (map message_item cart.items)) 9999999999
unfolding payment_order_message_schema message_metadata_schema sent_message
order_publishable texts laws id user_id method now cart orderable =
    rw (fields_are texts id user_id method now cart orderable, laws.iso_is_datetime)
      (is_some-if (leb (cents_of (map message_item cart.items)) 9999999999) _)
