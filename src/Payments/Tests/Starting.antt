-- ===== src/Payments/Tests/Starting.antt =====
-- A consumer that starts while the connection is still being made.
use study_microsservices_nod.Base.{
  ℕ, ◌<◌, ◌≡◌, ◌⊎◌, refl, String, none, some, List, [], ◌∷◌, ◌++◌, Action, ok, true,
}
use study_microsservices_nod.Payments.Rabbitmq.{Command, subscribe_commands}
use study_microsservices_nod.Payments.Rabbitmq as Rabbitmq
use study_microsservices_nod.Payments.Messaging.{
  perform_all, start_consuming, consume_payment_order, on_module_init,
}
use study_microsservices_nod.Payments.Messaging.Starting.{paused, payment_commands, start_decided}
use study_microsservices_nod.Broker.{Amqp, RabbitmqService, opened, logged}

-- A world that keeps the calls.
abbrev tell : Command → Action (List Command) (Unit {0})
tell command told = (ok tt, told ++ command ∷ [])

abbrev amqp : Amqp (List Command) ℕ ℕ String
amqp = record {
  connect = λ url told. (ok 7, told);
  create_channel = λ connection told. (ok 8, told);
  close_channel = λ channel told. (ok tt, told);
  close_connection = λ connection told. (ok tt, told);
  assert_exchange = λ channel exchange. tell (Rabbitmq.assert_exchange exchange);
  assert_queue = λ channel queue arguments. tell (Rabbitmq.assert_queue queue arguments);
  bind_queue = λ channel queue exchange key. tell (Rabbitmq.bind_queue queue exchange key);
  prefetch = λ channel count. tell (Rabbitmq.prefetch count);
  consume = λ channel queue. tell (Rabbitmq.consume queue);
  publish = λ channel exchange key content told. (ok true, told);
}

abbrev Service : Type 0
Service = RabbitmqService (List Command) ℕ ℕ

-- The channel is there after the first pause.
abbrev pause : Action Service (Unit {0})
pause s = (ok tt, opened 8 s)

abbrev fresh : Service
fresh = record { world = []; connection = none; channel = none }

initialised :
    (on_module_init amqp "amqp://localhost" fresh).1
    ≡ record { world = []; connection = some 7; channel = some 8 }
unfolding on_module_init
initialised = refl

declared :
    (start_consuming amqp pause fresh).1.world
    ≡ subscribe_commands "payment_queue" "payments" "payment.order" 30000
unfolding start_consuming subscribe_commands consume_payment_order
declared = refl

start_decided_example :
    ((k : ℕ) × (k < 10)
      × ((j : ℕ) → j < k → (paused amqp pause (λ s. refl) j fresh).channel ≡ none)
      × ((channel : ℕ) × ((paused amqp pause (λ s. refl) k fresh).channel ≡ some channel)
          × (start_consuming amqp pause fresh
              ≡ logged
                  (perform_all amqp channel (payment_commands amqp pause (λ s. refl)))
                  (paused amqp pause (λ s. refl) k fresh))))
    ⊎ (((k : ℕ) → k < 10 → (paused amqp pause (λ s. refl) k fresh).channel ≡ none)
        × (start_consuming amqp pause fresh ≡ (ok tt, paused amqp pause (λ s. refl) 10 fresh)))
start_decided_example = start_decided amqp pause (λ s. refl) fresh
