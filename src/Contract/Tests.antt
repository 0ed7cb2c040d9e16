-- ===== src/Contract/Tests.antt =====
-- An order of one product, from the checkout service to the payments service.
mod Cut
use study_microsservices_nod.Base.{
  ◌*◌, arith, ℕ, ◌≡◌, ◌⊎◌, refl, true, not, ◌=ₛ◌, leb, none, some, is_some, List, [], ◌∷◌, map, ok,
  err, plain,
}
use study_microsservices_nod.Payments.Money.{finite, cent}
use study_microsservices_nod.Checkout.Money.{of_cents}
use study_microsservices_nod.Checkout.Orders.{
  Cart, ExternalProduct, active, new_item, recalculated_total, new_order, message_item,
}
use study_microsservices_nod.Checkout.Orders.Amounts.{cents_of}
use study_microsservices_nod.Contract.{PaymentOrderMessage, Texts, IsTexts}
use study_microsservices_nod.Contract.Publisher.{
  Channel, payment_order_message_schema, payment_item_schema, publish_payment_order,
  publish_message, exchange_name, order_routing_key, sent_message,
}
use study_microsservices_nod.Contract.Consumer
use study_microsservices_nod.Contract.Accepted.{order_for, publish_order_effect}
use study_microsservices_nod.Contract.Delivery.{order_delivered}
use study_microsservices_nod.Contract.Payable.{order_publishable}

abbrev pub texts : Texts
texts = record {
  is_uuid = λ s. not (s =ₛ "");
  is_datetime = λ s. s =ₛ "2026-01-01T00:00:00.000Z";
  trim = λ s. s;
  to_iso = λ time. "2026-01-01T00:00:00.000Z";
}

pub texts-IsTexts : IsTexts texts
texts-IsTexts = record { iso_is_datetime = λ time. refl; trim_again = λ s. refl }

abbrev product : ExternalProduct
product = record { id = "product-1"; name = "Notebook"; price = of_cents 199999; is_active = true }

abbrev cart : Cart
unfolding new_item recalculated_total
cart = record {
  id = "cart-1";
  user_id = "user-1";
  status = active;
  total = of_cents 399998;
  items = new_item "item-1" 5 "cart-1" product 2 ∷ [];
  created_at = 5;
  updated_at = 6;
}

abbrev message : PaymentOrderMessage
message = record {
  order_id = "order-1";
  user_id = "user-1";
  amount = of_cents 399998;
  items = map message_item cart.items;
  payment_method = "pix";
  description = none;
  created_at = none;
  metadata = none;
}

-- What was published, last first.
abbrev channel : Channel (List PaymentOrderMessage)
channel = record {
  assert_exchange = λ exchange s. (ok tt, s);
  publish = λ exchange routing_key m s. (ok true, m ∷ s);
}

abbrev now : List PaymentOrderMessage → ℕ
now s = 7

publish_order_effect_example :
    ((payment_order_message_schema texts message ≡ none)
      × (publish_payment_order texts now (some channel) message []
          ≡ (err (plain "Invalid payment order"), [])))
    ⊎ ((sent : PaymentOrderMessage) × (v : ℕ) × (publish_payment_order texts now
            (some channel)
            message
            []
          ≡ (ok tt, (publish_message (some channel) exchange_name order_routing_key sent []).1))
        × (message.amount ≡ finite v)
        × (Consumer.safe_parse texts sent ≡ some (order_for texts texts-IsTexts message v)))
publish_order_effect_example =
    publish_order_effect texts texts-IsTexts now (some channel) message []

order_delivered_example :
    (sent : PaymentOrderMessage) × (publish_payment_order texts now
        (some channel)
        (sent_message texts (new_order "order-1" 7 "user-1" cart "pix") cart)
        []
      ≡ (ok tt, (publish_message (some channel) exchange_name order_routing_key sent []).1))
    × (Consumer.safe_parse texts sent
        ≡ some (record {
          order_id = "order-1";
          user_id = "user-1";
          amount = cents_of (map message_item cart.items) * cent;
          payment_method = "pix";
        }))
unfolding new_item recalculated_total payment_item_schema
order_delivered_example =
    order_delivered texts texts-IsTexts now (some channel) [] "order-1" "user-1" "pix" 7 cart
      ((λ e. cc), ((refl, refl), tt), refl, refl, refl, refl) (omega arith)
