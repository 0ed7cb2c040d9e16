-- ===== src/Broker.antt =====
-- `amqplib`, as both RabbitMQ services use it, and their state. Connections `C` and channels `K` are
-- values that the library gives; what it does, it does to the world `W`. Exchanges are durable topic
-- exchanges, and queues are durable.
use study_microsservices_nod.Base.{
  ℕ, String, Bool, Option, some, Action, ok, pure, try_catch, Result-cases, inl, inr, ◌≡◌, refl,
}
use study_microsservices_nod.Payments.Rabbitmq.{
  QueueArguments, Command, assert_exchange, assert_queue, bind_queue, prefetch, consume,
}

-- `consume` is told the queue alone: its callback is what is done with each delivery afterwards.
pub record Amqp (W C K R : Type 0) : Type 0 where
  pub connect : String → Action W C
  pub create_channel : C → Action W K
  pub close_channel : K → Action W (Unit {0})
  pub close_connection : C → Action W (Unit {0})
  pub assert_exchange : K → String → Action W (Unit {0})
  pub assert_queue : K → String → QueueArguments → Action W (Unit {0})
  pub bind_queue : K → String → String → String → Action W (Unit {0})
  pub prefetch : K → ℕ → Action W (Unit {0})
  pub consume : K → String → Action W (Unit {0})
  pub publish : K → String → String → R → Action W Bool

-- The fields of a `RabbitmqService`, and the world.
pub record RabbitmqService (W C K : Type 0) : Type 0 where
  pub world : W
  pub connection : Option C
  pub channel : Option K

module _ {W C K : Type 0} where
  -- A call of the library.
  abbrev pub on_world : {A : Type 0} → Action W A → Action (RabbitmqService W C K) A
  on_world call s = let (result, world) = call s.world in (result, record s { world = world })

  abbrev pub connected : C → RabbitmqService W C K → RabbitmqService W C K
  connected connection s = record s { connection = some connection }

  abbrev pub opened : K → RabbitmqService W C K → RabbitmqService W C K
  opened channel s = record s { channel = some channel }

-- A failure that is logged and goes no further.
abbrev pub logged : {S : Type 0} → Action S (Unit {0}) → Action S (Unit {0})
logged call = try_catch call (λ e. pure tt)

module _ {S : Type 0} (call : Action S (Unit {0})) (s : S) where
  pub logged_ok : (logged call s).0 ≡ ok tt
  logged_ok = elim (Result-cases (call s).0) [
    | inl (answer, e) ↦ rw e refl
    | inr (e, h) ↦ rw h refl
  ]

  -- What the call did is kept, however it ended.
  pub logged_state : (logged call s).1 ≡ (call s).1
  logged_state = elim (Result-cases (call s).0) [
    | inl (answer, e) ↦ rw e refl
    | inr (e, h) ↦ rw h refl
  ]

pub logged_twice :
    {S : Type 0} (call : Action S (Unit {0})) (s : S) → logged (logged call) s ≡ logged call s
logged_twice call s = elim (Result-cases (call s).0) [
  | inl (answer, e) ↦ rw e refl
  | inr (e, h) ↦ rw h refl
]

module _ {W C K R : Type 0} (amqp : Amqp W C K R) where
  -- One of the declarations that `subscribeToQueue` makes.
  abbrev pub perform : K → Command → Action W (Unit {0})
  perform channel (assert_exchange exchange) = amqp.assert_exchange channel exchange
  perform channel (assert_queue queue arguments) = amqp.assert_queue channel queue arguments
  perform channel (bind_queue queue exchange key) = amqp.bind_queue channel queue exchange key
  perform channel (prefetch count) = amqp.prefetch channel count
  perform channel (consume queue) = amqp.consume channel queue
