-- ===== src/Contract/Messaging/Closed.antt =====
-- What becomes of messages when the broker has closed the channel of the checkout service, which never
-- opens another.
use study_microsservices_nod.Base.{
  String, Option, some, List, [], ◌∷◌, Error, Result, ok, err, Action, ◌≡◌, refl, ◌∙◌, ◌⊎◌, inl,
  inr, ℕ,
}
use study_microsservices_nod.Contract.{PaymentOrderMessage, Texts, IsTexts}
use study_microsservices_nod.Contract.Publisher as Publisher
use study_microsservices_nod.Contract.Accepted.{publish_order_effect}
use study_microsservices_nod.Contract.Messaging.{get_channel, as_message, publish_payment_order}
use study_microsservices_nod.Checkout.Orders as Orders
use study_microsservices_nod.Checkout.Orders.{Order, Cart, to_payment_order_message}
use study_microsservices_nod.Checkout.Store.{Manager, IsManager}
use study_microsservices_nod.Checkout.Responses.{OrderResponse, to_order_response}
use study_microsservices_nod.Checkout.Ordering.{checkout, create_order_from_active_cart}
use study_microsservices_nod.Checkout.Ordering.Placing.{Placed, IsCheckoutError}
use study_microsservices_nod.Checkout.Ordering.Effects.{checkout_effect}
use study_microsservices_nod.Broker.{Amqp, RabbitmqService}

-- A channel that is closed: a call of it throws, sends nothing, and does not open it. `sent` is what the
-- broker was given.
pub record IsClosed {W C K : Type 0} (amqp : Amqp W C K PaymentOrderMessage)
    (sent : W → List PaymentOrderMessage) (Closed : K → W → Type 0) : Type 0 where
  pub throws :
      (channel : K) (exchange : String) (w : W)
      → Closed channel w
      → (e : Error) × ((amqp.assert_exchange channel exchange w).0 ≡ err e)
  pub stays :
      (channel : K) (exchange : String) (w : W)
      → Closed channel w
      → Closed channel (amqp.assert_exchange channel exchange w).1
  pub silent :
      (channel : K) (exchange : String) (w : W)
      → Closed channel w
      → sent (amqp.assert_exchange channel exchange w).1 ≡ sent w

module _ {W C K : Type 0} (amqp : Amqp W C K PaymentOrderMessage)
    (sent : W → List PaymentOrderMessage) (Closed : K → W → Type 0)
    (laws : IsClosed amqp sent Closed) where
  -- The service has a channel, which is closed.
  abbrev pub IsCut : RabbitmqService W C K → Type 0
  IsCut s = (channel : K) × (s.channel ≡ some channel) × Closed channel s.world

  -- A publication that has lost its message.
  abbrev pub Loses : RabbitmqService W C K → Result (Unit {0}) × RabbitmqService W C K → Type 0
  Loses s x = (x.0 ≡ ok tt) × (sent x.1.world ≡ sent s.world) × IsCut x.1

  Loses-on :
      (o : Option K) (channel : K) (exchange key : String) (m : PaymentOrderMessage)
      (s : RabbitmqService W C K)
      → o ≡ some channel
      → s.channel ≡ some channel
      → Closed channel s.world
      → Loses s (Publisher.publish_message (get_channel amqp o) exchange key m s)
  unfolding Publisher.publish_message
  Loses-on o channel exchange key m s e mine closed =
      let (error, fails) = laws.throws channel exchange s.world closed in
      rw (e, fails)
        (
          refl,
          laws.silent channel exchange s.world closed,
          (channel, mine, laws.stays channel exchange s.world closed),
        )

  module _ (texts : Texts) (text_laws : IsTexts texts) (now : RabbitmqService W C K → ℕ) where
    -- Publishing the message of an order, whether it passes its schema or not.
    publishing_keeps :
        (m : Orders.PaymentOrderMessage) (s : RabbitmqService W C K)
        → IsCut s
        → let x = publish_payment_order amqp texts now m s in
          (sent x.1.world ≡ sent s.world) × IsCut x.1
    unfolding publish_payment_order
    publishing_keeps m s (channel, mine, closed) =
        elim (publish_order_effect texts text_laws now (get_channel amqp s.channel)
          (as_message amqp texts now m) s) [
            | inl (fails, e) ↦ rw e (refl, (channel, mine, closed))
            | inr (message, v, e, amount, parses) ↦
                let (done, same, cut) =
                  Loses-on s.channel channel Publisher.exchange_name Publisher.order_routing_key
                    message s mine mine closed in
                rw e (same, cut)
          ]

    module _ (m : Manager (RabbitmqService W C K)) (manager_laws : IsManager m)
        -- The database and the broker have nothing to do with each other.
        (apart : (user_id payment_method : String) (d : RabbitmqService W C K)
          → let placing = create_order_from_active_cart m user_id payment_method d in
            (IsCut d → IsCut placing.1) × (sent placing.1.world ≡ sent d.world)) where
      abbrev pub checkout_of : String × String → Action (RabbitmqService W C K) OrderResponse
      checkout_of (user_id, payment_method) =
          checkout m (publish_payment_order amqp texts now) user_id payment_method

      abbrev pub checkouts : List (String × String) → RabbitmqService W C K → RabbitmqService W C K
      checkouts [] d = d
      checkouts (asked ∷ more) d = checkouts more (checkout_of asked d).1

      -- A checkout places its order, or is an error that changes no table, and nothing is sent.
      abbrev pub IsUnpaid :
          String × String
          → RabbitmqService W C K
          → Result OrderResponse × RabbitmqService W C K
          → Type 0
      IsUnpaid (user_id, payment_method) d x =
          let placing = create_order_from_active_cart m user_id payment_method d in
          (sent x.1.world ≡ sent d.world)
          × IsCut x.1
          × (((order : Order) × (cart : Cart) × (x.0 ≡ ok (to_order_response order))
                × Placed user_id payment_method (m.view d) order cart (m.view placing.1))
              ⊎ ((e : Error) × (x.0 ≡ err e)
                  × IsCheckoutError user_id (m.view d) e
                  × (m.view placing.1 ≡ m.view d)))

      one-IsUnpaid :
          (asked : String × String) (d : RabbitmqService W C K)
          → IsCut d
          → IsUnpaid asked d (checkout_of asked d)
      one-IsUnpaid (user_id, payment_method) d cut =
          let placing = create_order_from_active_cart m user_id payment_method d in
          let (keeps, same) = apart user_id payment_method d in
          elim (checkout_effect m manager_laws (publish_payment_order amqp texts now) user_id
            payment_method d) [
              | inl (order, cart, placed, e) ↦
                  let (silent, still_cut) =
                    publishing_keeps (to_payment_order_message order cart) placing.1 (keeps cut) in
                  rw e (silent ∙ same, still_cut, inl (order, cart, refl, placed))
              | inr (e, why, unchanged, thrown) ↦
                  rw thrown (same, keeps cut, inr (e, refl, why, unchanged))
            ]

      -- Once the broker has closed the channel of the checkout service, however many checkouts follow:
      -- the broker is never given another message, and yet each checkout answers as ever, with an order
      -- from the active cart, which is completed, or with the error that it would have had.
      pub checkouts-IsUnpaid :
          (asked : String × String) (before : List (String × String)) (d : RabbitmqService W C K)
          → IsCut d
          → (sent (checkouts before d).world ≡ sent d.world)
            × IsUnpaid asked (checkouts before d) (checkout_of asked (checkouts before d))
      checkouts-IsUnpaid asked [] d cut = (refl, one-IsUnpaid asked d cut)
      checkouts-IsUnpaid asked (first ∷ more) d cut =
          let (same, still_cut, how) = one-IsUnpaid first d cut in
          let (later, last) = checkouts-IsUnpaid asked more (checkout_of first d).1 still_cut in
          (later ∙ same, last)
