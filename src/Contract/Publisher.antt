-- ===== src/Contract/Publisher.antt =====
-- checkout-service/src/events: payment-queue/payment-queue.interface.ts, the schemas of what is
-- published; payment-queue/payments-queue.service.ts; and `publishMessage` of
-- rabbitmq/rabbitmq.service.ts, over a channel. Over any state `S`.
use study_microsservices_nod.Base.{
  ℕ, ◌%◌, ◌*◌, String, Bool, true, false, ◌&&◌, not, ltb, leb, ◌==◌, ◌=ₛ◌, Option, none, some,
  is_some, List, [], ◌∷◌, every, if◌then◌else◌, Action, plain, pure, gets, or_raise, try_catch,
  ◌>>=◌, ◌>>◌,
}
use study_microsservices_nod.Payments.Money.{Number, finite, not_finite, cent}
use study_microsservices_nod.Checkout.Orders.{MessageItem, Order, Cart, to_payment_order_message}
use study_microsservices_nod.Contract.{
  PaymentOrderMessage, Metadata, Texts, is_quantity, has_length,
}

-- 99,999,999.99
abbrev pub max_money_value : ℕ
max_money_value = 9999999999 * cent

-- Two decimal places are whole cents.
unfoldable pub money_schema : Number → Bool
money_schema (finite v) = ltb 0 v && leb v max_money_value && (v % cent == 0)
money_schema not_finite = false

module _ (texts : Texts) where
  unfoldable pub payment_item_schema : MessageItem → Bool
  unfolding money_schema
  payment_item_schema item =
      texts.is_uuid item.product_id && is_quantity item.quantity && money_schema item.price

  abbrev pub has_items : List MessageItem → Bool
  has_items [] = false
  has_items (item ∷ items) = true

  -- The fields of `paymentOrderMessageSchema` that its extension keeps.
  unfoldable pub order_fields_schema : PaymentOrderMessage → Bool
  unfolding payment_item_schema money_schema
  order_fields_schema m =
      texts.is_uuid m.order_id
      && texts.is_uuid m.user_id
      && money_schema m.amount
      && has_items m.items
      && every payment_item_schema m.items
      && has_length 50 (texts.trim m.payment_method)

  abbrev pub optional_datetime : Option String → Bool
  optional_datetime none = true
  optional_datetime (some s) = texts.is_datetime s

  abbrev pub required_datetime : Option String → Bool
  required_datetime none = false
  required_datetime (some s) = texts.is_datetime s

  unfoldable pub message_metadata_schema : Option Metadata → Bool
  message_metadata_schema none = true
  message_metadata_schema (some metadata) =
      not (texts.trim metadata.service =ₛ "") && texts.is_datetime metadata.timestamp

  abbrev pub trimmed_service : Option Metadata → Option Metadata
  trimmed_service none = none
  trimmed_service (some metadata) = some (record metadata { service = texts.trim metadata.service })

  -- `paymentOrderMessageSchema.safeParse`
  unfoldable pub payment_order_message_schema : PaymentOrderMessage → Option PaymentOrderMessage
  unfolding order_fields_schema message_metadata_schema
  payment_order_message_schema m =
      if order_fields_schema m
        && optional_datetime m.created_at
        && message_metadata_schema m.metadata
      then some (record m {
        payment_method = texts.trim m.payment_method;
        metadata = trimmed_service m.metadata;
      })
      else none

  unfoldable pub published_metadata_schema : Option Metadata → Bool
  published_metadata_schema none = false
  published_metadata_schema (some metadata) =
      (metadata.service =ₛ "checkout-service") && texts.is_datetime metadata.timestamp

  -- `publishedPaymentOrderMessageSchema.parse`
  unfoldable pub published_payment_order_message_schema :
      PaymentOrderMessage → Option PaymentOrderMessage
  unfolding order_fields_schema published_metadata_schema
  published_payment_order_message_schema m =
      if order_fields_schema m
        && required_datetime m.created_at
        && published_metadata_schema m.metadata
      then some (record m { payment_method = texts.trim m.payment_method })
      else none

  -- The object that `toPaymentOrderMessage` makes, its time as a text.
  unfoldable pub sent_message : Order → Cart → PaymentOrderMessage
  unfolding to_payment_order_message
  sent_message order cart =
      let m = to_payment_order_message order cart in
      record {
        order_id = m.order_id;
        user_id = m.user_id;
        amount = m.amount;
        items = m.items;
        payment_method = m.payment_method;
        description = none;
        created_at = some (texts.to_iso m.created_at);
        metadata = none;
      }

  -- `createdAt || new Date().toISOString()`
  abbrev pub created_or : Option String → String → String
  created_or none now = now
  created_or (some s) now = if s =ₛ "" then now else s

  -- The message with the time and the metadata of its publication.
  unfoldable pub enriched : PaymentOrderMessage → ℕ → PaymentOrderMessage
  enriched m now = record m {
    created_at = some (created_or m.created_at (texts.to_iso now));
    metadata = some (record { service = "checkout-service"; timestamp = texts.to_iso now });
  }

-- The channel of `amqplib`.
pub record Channel (S : Type 0) : Type 0 where
  pub assert_exchange : String → Action S (Unit {0})
  pub publish : String → String → PaymentOrderMessage → Action S Bool

abbrev pub exchange_name : String
exchange_name = "payments"

abbrev pub order_routing_key : String
order_routing_key = "payment.order"

module _ {S : Type 0} where
  -- `RabbitmqService.publishMessage`, with the channel if there is one. A failure is logged.
  unfoldable pub publish_message :
      Option (Channel S) → String → String → PaymentOrderMessage → Action S (Unit {0})
  publish_message none exchange routing_key message = pure tt
  publish_message (some channel) exchange routing_key message =
      try_catch
        (do
          channel.assert_exchange exchange
          published ← channel.publish exchange routing_key message
          pure tt)
        (λ e. pure tt)

  -- `PaymentsQueueService.publishPaymentOrder`, at the time `now`.
  unfoldable pub publish_payment_order :
      (texts : Texts) (now : S → ℕ) → Option (Channel S) → PaymentOrderMessage → Action S (Unit {0})
  unfolding payment_order_message_schema published_payment_order_message_schema enriched
      publish_message
  publish_payment_order texts now channel payment_order = do
    checked ←
        or_raise (payment_order_message_schema texts payment_order) (plain "Invalid payment order")
    time ← gets now
    message ←
        or_raise (published_payment_order_message_schema texts (enriched texts checked time))
          (plain "ZodError")
    publish_message channel exchange_name order_routing_key message

  -- `PaymentsQueueService.validatePaymentOrder`
  unfoldable pub validate_payment_order : Texts → PaymentOrderMessage → Action S Bool
  unfolding payment_order_message_schema
  validate_payment_order texts payment_order =
      pure (is_some (payment_order_message_schema texts payment_order))

  -- `PaymentsQueueService.publishPaymentOrderSafely`
  unfoldable pub publish_payment_order_safely :
      (texts : Texts) (now : S → ℕ) → Option (Channel S) → PaymentOrderMessage → Action S (Unit {0})
  unfolding publish_payment_order
  publish_payment_order_safely texts now channel payment_order =
      publish_payment_order texts now channel payment_order
