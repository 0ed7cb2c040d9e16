-- ===== src/Contract/Delivery.antt =====
-- From the cart that is ordered to the order that the payments service takes from the message.
use study_microsservices_nod.Base.{
  ℕ, ◌*◌, ◌≤◌, ◌≡◌, sym, ap, ◌∙◌, inl, inr, String, Bool, true, le→leb, Option, none, some, is_some,
  map, ok,
}
use study_microsservices_nod.Payments.Money.{finite, cent}
use study_microsservices_nod.Checkout.Orders.{
  Cart, new_order, message_item, to_payment_order_message,
}
use study_microsservices_nod.Checkout.Orders.Amounts.{cents_of, message_amount}
use study_microsservices_nod.Contract.{PaymentOrderMessage, Texts, IsTexts}
use study_microsservices_nod.Contract.Publisher.{
  Channel, publish_payment_order, publish_message, exchange_name, order_routing_key, sent_message,
}
use study_microsservices_nod.Contract.Consumer
use study_microsservices_nod.Contract.Accepted.{order_for, publish_order_effect}
use study_microsservices_nod.Contract.Payable.{IsOrderable, All-IsPriced, order_publishable}

finite_same : {a b : ℕ} → finite a ≡ finite b → a ≡ b
finite_same h = cc

unparsed : {x : Option PaymentOrderMessage} {b : Bool} → is_some x ≡ b → b ≡ true → x ≡ none → ⊥
unparsed h k e = cc

module _ (texts : Texts) (laws : IsTexts texts) {S : Type 0} (now : S → ℕ) where
  -- The order of a cart of at most 99,999,999.99 reaches the payments service's schema: for a cart with
  -- items, each with its subtotal and fit to be sent, the total recalculated, ids that are uuids and a
  -- method that is not blank nor too long, one message is handed to the channel, if there is one, and the
  -- payments service parses it as an order of that id and user, for the sum over the items of price in
  -- cents times quantity.
  pub order_delivered :
      (channel : Option (Channel S)) (s : S) (id user_id method : String) (time : ℕ) (cart : Cart)
      → IsOrderable texts id user_id method cart
      → cents_of (map message_item cart.items) ≤ 9999999999
      → (sent : PaymentOrderMessage) × (publish_payment_order texts now channel
            (sent_message texts (new_order id time user_id cart method) cart)
            s
          ≡ (ok tt, (publish_message channel exchange_name order_routing_key sent s).1))
        × (Consumer.safe_parse texts sent
            ≡ some (record {
              order_id = id;
              user_id = user_id;
              amount = cents_of (map message_item cart.items) * cent;
              payment_method = texts.trim method;
            }))
  unfolding new_order sent_message to_payment_order_message
  order_delivered channel s id user_id method time cart orderable small =
      let message = sent_message texts (new_order id time user_id cart method) cart in
      let n = cents_of (map message_item cart.items) in
      elim (publish_order_effect texts laws now channel message s) [
        | inl (fails, thrown) ↦ absurd (
            unparsed (order_publishable texts laws id user_id method time cart orderable)
              (le→leb n 9999999999 small) fails)
        | inr (sent, v, published, amount, accepted) ↦
            let (full, sendable, totalled, is_id, is_user, is_method) = orderable in
            let asked =
              message_amount id user_id method time cart (All-IsPriced texts cart.items sendable)
                totalled in
            let same : v ≡ n * cent = finite_same (sym amount ∙ asked) in
            (sent, published, accepted ∙ ap (λ x. some (order_for texts laws message x)) same)
      ]
