-- ===== src/Payments/Rabbitmq.antt =====
-- payments-service/src/events/rabbitmq/rabbitmq.service.ts and payment-queue/payments-queue.service.ts:
-- the queues that are declared, and what becomes of a message. The state `S` is that of the process;
-- what the channel is told is an answer here.
pub mod Topology
pub mod Handling
use Prim.Native.String.{len, slice}
use study_microsservices_nod.Base.{
  ◌-◌, leb, ◌=ₛ◌, ℕ, zero, suc, ◌+◌, String, Bool, true, false, Option, none, some, List, [], ◌∷◌,
  filter, not, ltb, ◌+ₛ◌, if◌then◌else◌, Action, ok, err, Result,
}
use study_microsservices_nod.Payments.Dlq.{Death}

-- The arguments of `assertQueue`. `dead_letter` holds the exchange and the routing key.
pub record QueueArguments : Type 0 where
  pub message_ttl : ℕ
  pub max_length : Option ℕ
  pub dead_letter : Option (String × String)

-- The calls of the channel that `subscribeToQueue` makes before it consumes. Exchanges and queues are
-- durable, and exchanges are topic exchanges.
pub data Command : Type 0 where
  assert_exchange : String → Command
  assert_queue : String → QueueArguments → Command
  bind_queue : String → String → String → Command
  prefetch : ℕ → Command
  consume : String → Command

abbrev pub default_max_retries : ℕ
default_max_retries = 3

abbrev pub default_retry_delay_ms : ℕ
default_retry_delay_ms = 30000

-- `main`, `main.retry` and `main.dlq`, with their exchanges and routing keys.
unfoldable pub subscribe_commands : String → String → String → ℕ → List Command
subscribe_commands queue_name exchange routing_key retry_delay_ms =
    let dlq_name : String = queue_name +ₛ ".dlq" in
    let dlx_exchange : String = exchange +ₛ ".dlx" in
    let dlq_routing_key : String = routing_key +ₛ ".dlq" in
    let retry_queue_name : String = queue_name +ₛ ".retry" in
    let retry_exchange : String = exchange +ₛ ".retry.dlx" in
    let retry_routing_key : String = routing_key +ₛ ".retry" in
    assert_exchange dlx_exchange
    ∷ assert_queue dlq_name
        (record { message_ttl = 604800000; max_length = none; dead_letter = none })
    ∷ bind_queue dlq_name dlx_exchange dlq_routing_key
    ∷ assert_exchange retry_exchange
    ∷ assert_queue retry_queue_name (record {
      message_ttl = retry_delay_ms;
      max_length = none;
      dead_letter = some (dlx_exchange, dlq_routing_key);
    })
    ∷ bind_queue retry_queue_name retry_exchange retry_routing_key
    ∷ assert_exchange exchange
    ∷ assert_queue queue_name (record {
      message_ttl = 8640000;
      max_length = some 10000;
      dead_letter = some (retry_exchange, retry_routing_key);
    })
    ∷ bind_queue queue_name exchange routing_key
    ∷ prefetch 1
    ∷ consume queue_name
    ∷ []

-- A sum over the entries of a header.
abbrev pub sum_counts : List Death → ℕ
sum_counts [] = 0
sum_counts (d ∷ ds) = d.count + sum_counts ds

-- What the channel is told of a message that was handled: `ack`; `nack` without requeueing; `publish`
-- to the dead-letter exchange, then `ack`; or, after the early return, nothing.
pub data Settlement : Type 0 where
  acked : Settlement
  nacked : Settlement
  dead_lettered : Settlement
  left_open : Settlement

pub record Message (M : Type 0) : Type 0 where
  pub content : M
  pub x_death : List Death

-- `s.endsWith(t)`
abbrev pub ends_with : String → String → Bool
ends_with s t = if leb (len t) (len s) then slice s (len s - len t) (len s) =ₛ t else false

-- The passes through a queue that is not the retry queue. A missing count is 0.
unfoldable pub get_retry_count : List Death → ℕ
get_retry_count x_death =
    sum_counts (filter (λ death. not (ends_with death.queue ".retry")) x_death)

module _ {S R M : Type 0} (parse : R → Option M) (on_message : M → Action S (Unit {0}))
    (max_retries : ℕ) where
  -- The `catch` of the handler; `connected` is whether there is still a channel.
  unfoldable pub settle_failed : Bool → Message R → Settlement
  unfolding get_retry_count
  settle_failed connected msg =
      if ltb (get_retry_count msg.x_death) max_retries
      then nacked
      else if connected
      then dead_lettered
      else left_open

  unfoldable pub settle_handled : Bool → Message R → Result (Unit {0}) → Settlement
  unfolding settle_failed
  settle_handled connected msg (ok x) = acked
  settle_handled connected msg (err e) = settle_failed connected msg

  unfoldable pub handle_parsed : Bool → Message R → Option M → S → Settlement × S
  unfolding settle_handled
  handle_parsed connected msg none s = (settle_failed connected msg, s)
  handle_parsed connected msg (some message) s =
      let (result, s') = on_message message s in (settle_handled connected msg result, s')

  -- The function that `channel.consume` is given, on a message.
  unfoldable pub handle_message : Bool → Message R → S → Settlement × S
  unfolding handle_parsed
  handle_message connected msg s = handle_parsed connected msg (parse msg.content) s
