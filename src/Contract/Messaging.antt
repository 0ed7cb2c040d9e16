-- ===== src/Contract/Messaging.antt =====
-- checkout-service/src/events/rabbitmq/rabbitmq.service.ts: its life cycle, `publishMessage` over its own
-- channel, and `subscribeToQueue`; and `publishPaymentOrder` of payment-queue/payments-queue.service.ts
-- over this service.
pub mod Closed
use study_microsservices_nod.Base.{
  ℕ, String, Bool, true, false, Option, none, some, List, [], ◌∷◌, Action, Result, ok, err, pure,
  gets, modify, or_raise, plain, ◌>>=◌, ◌>>◌,
}
use study_microsservices_nod.Checkout.Orders as Orders
use study_microsservices_nod.Contract.{PaymentOrderMessage, Texts}
use study_microsservices_nod.Contract.Publisher as Publisher
use study_microsservices_nod.Payments.Rabbitmq.{
  Command, assert_exchange, assert_queue, bind_queue, prefetch, consume,
}
use study_microsservices_nod.Broker.{
  Amqp, RabbitmqService, on_world, connected, opened, logged, perform,
}

-- The declarations of `subscribeToQueue`, which are without dead-letter exchanges.
unfoldable pub subscribe_commands : String → String → String → List Command
subscribe_commands queue_name exchange routing_key =
    assert_exchange exchange
    ∷ assert_queue queue_name
        (record { message_ttl = 8640000; max_length = some 10000; dead_letter = none })
    ∷ bind_queue queue_name exchange routing_key
    ∷ prefetch 1
    ∷ consume queue_name
    ∷ []

-- What the channel is told of a delivery.
pub data Settlement : Type 0 where
  acked nacked : Settlement

module _ {S R M : Type 0} (parse : R → Option M) (on_message : R → Action S (Unit {0})) where
  abbrev pub settled : Result (Unit {0}) × S → Settlement × S
  settled (ok u, s) = (acked, s)
  settled (err e, s) = (nacked, s)

  -- The function that `channel.consume` is given, on a message; its callback gets the message unparsed.
  unfoldable pub handle_message : R → S → Settlement × S
  handle_message content s =
      settled ((or_raise (parse content) (plain "SyntaxError") >>= λ m. on_message content) s)

module _ {W C K : Type 0} (amqp : Amqp W C K PaymentOrderMessage) where
  unfoldable pub on_module_init : String → Action (RabbitmqService W C K) (Unit {0})
  on_module_init rabbitmq_url = logged (do
    connection ← on_world (amqp.connect rabbitmq_url)
    modify (connected connection)
    channel ← on_world (amqp.create_channel connection)
    modify (opened channel))

  abbrev pub close_channel_of : Option K → Action (RabbitmqService W C K) (Unit {0})
  close_channel_of none = pure tt
  close_channel_of (some channel) = on_world (amqp.close_channel channel)

  abbrev pub close_connection_of : Option C → Action (RabbitmqService W C K) (Unit {0})
  close_connection_of none = pure tt
  close_connection_of (some connection) = on_world (amqp.close_connection connection)

  unfoldable pub on_module_destroy : Action (RabbitmqService W C K) (Unit {0})
  on_module_destroy = logged (do
    channel ← gets (λ s. s.channel)
    close_channel_of channel
    connection ← gets (λ s. s.connection)
    close_connection_of connection)

  -- A channel, as `publishMessage` uses it.
  abbrev pub channel_of : K → Publisher.Channel (RabbitmqService W C K)
  channel_of channel = record {
    assert_exchange = λ exchange. on_world (amqp.assert_exchange channel exchange);
    publish = λ exchange routing_key message.
        on_world (amqp.publish channel exchange routing_key message);
  }

  abbrev pub get_channel : Option K → Option (Publisher.Channel (RabbitmqService W C K))
  get_channel none = none
  get_channel (some channel) = some (channel_of channel)

  unfoldable pub publish_message :
      String → String → PaymentOrderMessage → Action (RabbitmqService W C K) (Unit {0})
  unfolding Publisher.publish_message
  publish_message exchange routing_key message s =
      Publisher.publish_message (get_channel s.channel) exchange routing_key message s

  abbrev pub perform_all : K → List Command → Action (RabbitmqService W C K) (Unit {0})
  perform_all channel [] = pure tt
  perform_all channel (command ∷ commands) =
      on_world (perform amqp channel command) >> perform_all channel commands

  abbrev pub subscribe_on : List Command → Option K → Action (RabbitmqService W C K) (Unit {0})
  subscribe_on commands none = pure tt
  subscribe_on commands (some channel) = perform_all channel commands

  unfoldable pub subscribe_to_queue :
      String → String → String → Action (RabbitmqService W C K) (Unit {0})
  unfolding subscribe_commands
  subscribe_to_queue queue_name exchange routing_key =
      logged (
        gets (λ s. s.channel) >>= subscribe_on (subscribe_commands queue_name exchange routing_key))

  module _ (texts : Texts) (now : RabbitmqService W C K → ℕ) where
    -- What `publishPaymentOrder` of the orders service gives to that of the queue.
    abbrev pub as_message : Orders.PaymentOrderMessage → PaymentOrderMessage
    as_message m = record {
      order_id = m.order_id;
      user_id = m.user_id;
      amount = m.amount;
      items = m.items;
      payment_method = m.payment_method;
      description = none;
      created_at = some (texts.to_iso m.created_at);
      metadata = none;
    }

    unfoldable pub publish_payment_order :
        Orders.PaymentOrderMessage → Action (RabbitmqService W C K) (Unit {0})
    unfolding Publisher.publish_payment_order
    publish_payment_order m s =
        Publisher.publish_payment_order texts now (get_channel s.channel) (as_message m) s
