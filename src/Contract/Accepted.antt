-- ===== src/Contract/Accepted.antt =====
-- Messages, from the schemas of the checkout service to that of the payments service.
use study_microsservices_nod.Base.{
  ℕ, ◌≡◌, refl, sym, ap, ◌∙◌, ◌⊎◌, inl, inr, String, true, ◌&&◌, ◌=ₛ◌, Option, none, some, List, [],
  ◌∷◌, every, arith, Bool-cases, Option-cases, plain, Result, ok, err, Result-cases,
}
use study_microsservices_nod.Payments.Money.{Number, finite, not_finite}
use study_microsservices_nod.Payments.Service.{PaymentOrder}
use study_microsservices_nod.Checkout.Orders.{MessageItem}
use study_microsservices_nod.Contract.{PaymentOrderMessage, Metadata, Texts, IsTexts}
use study_microsservices_nod.Contract.Publisher.{
  money_schema, payment_item_schema, order_fields_schema, optional_datetime,
  message_metadata_schema, trimmed_service, payment_order_message_schema, published_metadata_schema,
  published_payment_order_message_schema, created_or, enriched, Channel, publish_message,
  exchange_name, order_routing_key, publish_payment_order,
}
use study_microsservices_nod.Contract.Consumer

money_agrees : (v : Number) → Consumer.money_schema v ≡ money_schema v
unfolding money_schema Consumer.money_schema
money_agrees (finite v) = refl
money_agrees not_finite = refl

finite_money : (x : Number) → money_schema x ≡ true → (v : ℕ) × (x ≡ finite v)
unfolding money_schema
finite_money (finite v) h = (v, refl)
finite_money not_finite h = cc

some_same : {a b : PaymentOrderMessage} → some a ≡ some b → a ≡ b
some_same h = cc

nothing_apart : {a : PaymentOrderMessage} → none ≡ some a → ⊥
nothing_apart h = cc

pair_of : {S : Type 0} {r : Result (Unit {0})} {x : Result (Unit {0}) × S} → x.0 ≡ r → x ≡ (r, x.1)
pair_of {x = x} h = ap (λ r. (r, x.1)) h

module _ (texts : Texts) where
  items_agree :
      (items : List MessageItem)
      → every (Consumer.payment_item_schema texts) items ≡ every (payment_item_schema texts) items
  unfolding payment_item_schema Consumer.payment_item_schema
  items_agree [] = refl
  items_agree (item ∷ items) = rw (money_agrees item.price, items_agree items) refl

  -- The two services ask the same of a message.
  fields_agree :
      (m : PaymentOrderMessage) → Consumer.order_fields_schema texts m ≡ order_fields_schema texts m
  unfolding order_fields_schema Consumer.order_fields_schema
  fields_agree m = rw (money_agrees m.amount, items_agree m.items) refl

  metadata_agrees :
      (metadata : Option Metadata)
      → Consumer.published_metadata_schema texts metadata ≡ published_metadata_schema texts metadata
  unfolding published_metadata_schema Consumer.published_metadata_schema
  metadata_agrees none = refl
  metadata_agrees (some metadata) = refl

  -- The two services parse a published message alike.
  pub schemas_agree :
      (m : PaymentOrderMessage)
      → Consumer.published_payment_order_message_schema texts m
        ≡ published_payment_order_message_schema texts m
  unfolding published_payment_order_message_schema Consumer.published_payment_order_message_schema
  schemas_agree m = rw (fields_agree m, metadata_agrees m.metadata) refl

  module _ (laws : IsTexts texts) where
    -- What the first schema has parsed.
    abbrev checked : PaymentOrderMessage → PaymentOrderMessage
    checked m = record m {
      payment_method = texts.trim m.payment_method;
      metadata = trimmed_service texts m.metadata;
    }

    checked_is :
        (m d : PaymentOrderMessage)
        → payment_order_message_schema texts m ≡ some d
        → (d ≡ checked m)
          × (order_fields_schema texts m ≡ true)
          × (optional_datetime texts m.created_at ≡ true)
    unfolding payment_order_message_schema
    checked_is m d h =
        elim (Bool-cases (
          order_fields_schema texts m
          && optional_datetime texts m.created_at
          && message_metadata_schema texts m.metadata)) [
            | inl passes ↦ (sym (some_same (rw passes at h)), ground arith, ground arith)
            | inr fails ↦ absurd (nothing_apart (rw fails at h))
          ]

    created_valid :
        (created_at : Option String) (now : ℕ)
        → optional_datetime texts created_at ≡ true
        → texts.is_datetime (created_or texts created_at (texts.to_iso now)) ≡ true
    created_valid none now h = laws.iso_is_datetime now
    created_valid (some s) now h = elim (Bool-cases (s =ₛ "")) [
      | inl empty ↦ rw empty (laws.iso_is_datetime now)
      | inr given ↦ rw given h
    ]

    enriched_fields :
        (m : PaymentOrderMessage) (now : ℕ)
        → order_fields_schema texts (enriched texts (checked m) now) ≡ order_fields_schema texts m
    unfolding order_fields_schema enriched
    enriched_fields m now = rw (laws.trim_again m.payment_method) refl

    enriched_passes :
        (m : PaymentOrderMessage) (now : ℕ)
        → order_fields_schema texts m ≡ true
        → optional_datetime texts m.created_at ≡ true
        → published_payment_order_message_schema texts (enriched texts (checked m) now)
          ≡ some (enriched texts (checked m) now)
    unfolding published_payment_order_message_schema enriched published_metadata_schema
    enriched_passes m now fields created =
        let f : order_fields_schema texts (enriched texts (checked m) now) ≡ true =
          enriched_fields m now ∙ fields in
        rw
          (
            f,
            created_valid m.created_at now created,
            laws.iso_is_datetime now,
            laws.trim_again m.payment_method,
          )
          refl

    -- The order that the payments service takes from a message.
    abbrev pub order_for : PaymentOrderMessage → ℕ → PaymentOrder
    order_for m v = record {
      order_id = m.order_id;
      user_id = m.user_id;
      amount = v;
      payment_method = texts.trim m.payment_method;
    }

    accepts :
        (m : PaymentOrderMessage) (now : ℕ)
        → order_fields_schema texts m ≡ true
        → optional_datetime texts m.created_at ≡ true
        → (v : ℕ) × (m.amount ≡ finite v)
          × (Consumer.safe_parse texts (enriched texts (checked m) now) ≡ some (order_for m v))
    unfolding Consumer.safe_parse enriched order_fields_schema
    accepts m now fields created =
        let (v, e) = finite_money m.amount (ground arith) in
        (
          v,
          e,
          rw (schemas_agree (enriched texts (checked m) now), enriched_passes m now fields created)
              (ap (Consumer.payment_order_of texts (checked m)) e),
        )

    -- A message that `paymentOrderMessageSchema` parses is published, at any time, as one that the
    -- payments service parses: as a payment order for the same order, user, amount and, trimmed, method.
    pub published_accepted :
        (m d : PaymentOrderMessage) (now : ℕ)
        → payment_order_message_schema texts m ≡ some d
        → (published_payment_order_message_schema texts (enriched texts d now)
            ≡ some (enriched texts d now))
          × ((v : ℕ) × (m.amount ≡ finite v)
              × (Consumer.safe_parse texts (enriched texts d now) ≡ some (order_for m v)))
    published_accepted m d now h =
        let (e, fields, created) = checked_is m d h in
        rw e (enriched_passes m now fields created, accepts m now fields created)

    module _ {S : Type 0} (now : S → ℕ) where
      quiet :
          (channel : Option (Channel S)) (exchange key : String) (m : PaymentOrderMessage) (s : S)
          → (publish_message channel exchange key m s).0 ≡ ok tt
      unfolding publish_message
      quiet none exchange key m s = refl
      quiet (some channel) exchange key m s =
          elim (Result-cases (channel.assert_exchange exchange s).0) [
            | inr (e, h) ↦ rw h refl
            | inl (u, h) ↦
                elim (Result-cases
                  (channel.publish exchange key m (channel.assert_exchange exchange s).1).0) [
                    | inr (e, k) ↦ rw (h, k) refl
                    | inl (b, k) ↦ rw (h, k) refl
                  ]
          ]

      -- `publishPaymentOrder` throws just when the message does not pass its schema, and then nothing is
      -- published. Otherwise one message is handed to the channel, if there is one, for the exchange
      -- `payments` under `payment.order`, whatever the channel does with it, and the payments service
      -- parses that message as an order of the same id, user and amount.
      pub publish_order_effect :
          (channel : Option (Channel S)) (m : PaymentOrderMessage) (s : S)
          → ((payment_order_message_schema texts m ≡ none)
              × (publish_payment_order texts now channel m s
                  ≡ (err (plain "Invalid payment order"), s)))
            ⊎ ((sent : PaymentOrderMessage) × (v : ℕ) × (publish_payment_order texts now channel m s
                  ≡ (ok tt, (publish_message channel exchange_name order_routing_key sent s).1))
                × (m.amount ≡ finite v)
                × (Consumer.safe_parse texts sent ≡ some (order_for m v)))
      unfolding publish_payment_order
      publish_order_effect channel m s =
          elim (Option-cases (payment_order_message_schema texts m)) [
            | inl fails ↦ inl (fails, rw fails refl)
            | inr (d, passes) ↦
                let (parses, (v, amount, accepted)) = published_accepted m d (now s) passes in
                let sent = enriched texts d (now s) in
                inr (
                  sent,
                  v,
                  rw (passes, parses)
                      (pair_of (quiet channel exchange_name order_routing_key sent s)),
                  amount,
                  accepted,
                )
          ]
