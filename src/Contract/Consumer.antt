-- ===== src/Contract/Consumer.antt =====
-- payments-service/src/events/payment-queue/payment-queue.interface.ts: what the payments service
-- accepts.
use study_microsservices_nod.Base.{
  ℕ, ◌%◌, ◌*◌, String, Bool, true, false, ◌&&◌, ltb, leb, ◌==◌, ◌=ₛ◌, Option, none, some, List, [],
  ◌∷◌, every, if◌then◌else◌,
}
use study_microsservices_nod.Payments.Money.{Number, finite, not_finite, cent}
use study_microsservices_nod.Payments.Service.{PaymentOrder}
use study_microsservices_nod.Checkout.Orders.{MessageItem}
use study_microsservices_nod.Contract.{
  PaymentOrderMessage, Metadata, Texts, is_quantity, has_length,
}

-- 99,999,999.99
abbrev pub max_money_value : ℕ
max_money_value = 9999999999 * cent

-- Two decimal places are whole cents.
unfoldable pub money_schema : Number → Bool
money_schema (finite v) = ltb 0 v && leb v max_money_value && (v % cent == 0)
money_schema not_finite = false

module _ (texts : Texts) where
  unfoldable pub payment_item_schema : MessageItem → Bool
  unfolding money_schema
  payment_item_schema item =
      texts.is_uuid item.product_id && is_quantity item.quantity && money_schema item.price

  abbrev pub has_items : List MessageItem → Bool
  has_items [] = false
  has_items (item ∷ items) = true

  -- The fields of `paymentOrderMessageSchema` that its extension keeps.
  unfoldable pub order_fields_schema : PaymentOrderMessage → Bool
  unfolding payment_item_schema money_schema
  order_fields_schema m =
      texts.is_uuid m.order_id
      && texts.is_uuid m.user_id
      && money_schema m.amount
      && has_items m.items
      && every payment_item_schema m.items
      && has_length 50 (texts.trim m.payment_method)

  unfoldable pub published_metadata_schema : Option Metadata → Bool
  published_metadata_schema none = false
  published_metadata_schema (some metadata) =
      (metadata.service =ₛ "checkout-service") && texts.is_datetime metadata.timestamp

  abbrev pub required_datetime : Option String → Bool
  required_datetime none = false
  required_datetime (some s) = texts.is_datetime s

  -- `publishedPaymentOrderMessageSchema.safeParse`
  unfoldable pub published_payment_order_message_schema :
      PaymentOrderMessage → Option PaymentOrderMessage
  unfolding order_fields_schema published_metadata_schema
  published_payment_order_message_schema m =
      if order_fields_schema m
        && required_datetime m.created_at
        && published_metadata_schema m.metadata
      then some (record m { payment_method = texts.trim m.payment_method })
      else none

  -- The fields of the parsed message that the payment is made from.
  abbrev pub payment_order_of : PaymentOrderMessage → Number → Option PaymentOrder
  payment_order_of m not_finite = none
  payment_order_of m (finite v) = some (record {
    order_id = m.order_id;
    user_id = m.user_id;
    amount = v;
    payment_method = m.payment_method;
  })

  abbrev pub parsed_order : Option PaymentOrderMessage → Option PaymentOrder
  parsed_order none = none
  parsed_order (some m) = payment_order_of m m.amount

  -- What `processPaymentOrder` takes from a message.
  unfoldable pub safe_parse : PaymentOrderMessage → Option PaymentOrder
  unfolding published_payment_order_message_schema
  safe_parse m = parsed_order (published_payment_order_message_schema m)
