-- ===== src/Payments/Messaging.antt =====
-- payments-service/src/events/rabbitmq/rabbitmq.service.ts: its life cycle, `waitForConnection`,
-- `publishMessage` and the calls of `subscribeToQueue`; and `startConsuming` of
-- payment-consumer/payment-consumer.service.ts. `pause` is the wait of a timer, during which the rest of
-- the program may act.
pub mod Starting
use study_microsservices_nod.Base.{
  ℕ, zero, suc, String, Bool, true, false, Option, none, some, is_some, List, [], ◌∷◌, Action, pure,
  gets, modify, try_catch, ◌>>=◌, ◌>>◌,
}
use study_microsservices_nod.Payments.Rabbitmq.{Command, subscribe_commands, default_retry_delay_ms}
use study_microsservices_nod.Broker.{
  Amqp, RabbitmqService, on_world, connected, opened, logged, perform,
}

abbrev pub max_attempts : ℕ
max_attempts = 10

module _ {W C K R : Type 0} (amqp : Amqp W C K R) where
  -- A connection whose channel cannot be made is kept.
  unfoldable pub on_module_init : String → Action (RabbitmqService W C K) (Unit {0})
  on_module_init rabbitmq_url = logged (do
    connection ← on_world (amqp.connect rabbitmq_url)
    modify (connected connection)
    channel ← on_world (amqp.create_channel connection)
    modify (opened channel))

  abbrev pub close_channel_of : Option K → Action (RabbitmqService W C K) (Unit {0})
  close_channel_of none = pure tt
  close_channel_of (some channel) = on_world (amqp.close_channel channel)

  abbrev pub close_connection_of : Option C → Action (RabbitmqService W C K) (Unit {0})
  close_connection_of none = pure tt
  close_connection_of (some connection) = on_world (amqp.close_connection connection)

  unfoldable pub on_module_destroy : Action (RabbitmqService W C K) (Unit {0})
  on_module_destroy = logged (do
    channel ← gets (λ s. s.channel)
    close_channel_of channel
    connection ← gets (λ s. s.connection)
    close_connection_of connection)

  abbrev pub get_channel : RabbitmqService W C K → Option K
  get_channel s = s.channel

  abbrev pub get_connection : RabbitmqService W C K → Option C
  get_connection s = s.connection

  -- With what `JSON.stringify` makes of the message.
  abbrev pub publish_on : String → String → R → Option K → Action (RabbitmqService W C K) (Unit {0})
  publish_on exchange routing_key content none = pure tt
  publish_on exchange routing_key content (some channel) = do
    on_world (amqp.assert_exchange channel exchange)
    published ← on_world (amqp.publish channel exchange routing_key content)
    pure tt

  unfoldable pub publish_message : String → String → R → Action (RabbitmqService W C K) (Unit {0})
  publish_message exchange routing_key content =
      logged (gets get_channel >>= publish_on exchange routing_key content)

  abbrev pub perform_all : K → List Command → Action (RabbitmqService W C K) (Unit {0})
  perform_all channel [] = pure tt
  perform_all channel (command ∷ commands) =
      on_world (perform amqp channel command) >> perform_all channel commands

  abbrev pub subscribe_on : List Command → Option K → Action (RabbitmqService W C K) (Unit {0})
  subscribe_on commands none = pure tt
  subscribe_on commands (some channel) = perform_all channel commands

  unfoldable pub subscribe_to_queue :
      String → String → String → ℕ → Action (RabbitmqService W C K) (Unit {0})
  unfolding subscribe_commands
  subscribe_to_queue queue_name exchange routing_key retry_delay_ms = logged (
      gets get_channel
      >>= subscribe_on (subscribe_commands queue_name exchange routing_key retry_delay_ms))

  -- `PaymentsQueueService.consumePaymentOrder`
  unfoldable pub consume_payment_order : Action (RabbitmqService W C K) (Unit {0})
  unfolding subscribe_to_queue
  consume_payment_order =
      subscribe_to_queue "payment_queue" "payments" "payment.order" default_retry_delay_ms

  module _ (pause : Action (RabbitmqService W C K) (Unit {0})) where
    -- A look at the channel, and what follows.
    abbrev pub look :
        Action (RabbitmqService W C K) Bool → Option K → Action (RabbitmqService W C K) Bool
    look again (some channel) = pure true
    look again none = pause >> again

    -- `waitForConnection`, with the looks that are left.
    unfoldable pub wait_for_connection : ℕ → Action (RabbitmqService W C K) Bool
    wait_for_connection zero = pure false
    wait_for_connection (suc left) = gets get_channel >>= look (wait_for_connection left)

    abbrev pub consume_if : Bool → Action (RabbitmqService W C K) (Unit {0})
    consume_if true = consume_payment_order
    consume_if false = pure tt

    unfoldable pub start_consuming : Action (RabbitmqService W C K) (Unit {0})
    unfolding wait_for_connection
    start_consuming = logged (wait_for_connection max_attempts >>= consume_if)
