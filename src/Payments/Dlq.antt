-- ===== src/Payments/Dlq.antt =====
-- payments-service/src/events/dlq/dlq.service.ts. The broker's channel is a parameter with what
-- RabbitMQ documents of a queue that one consumer reads: a message that is put back takes its old
-- place. `JSON.parse` of a message is a parameter too, and so is `orderId` of what it makes: `none` is
-- for `null`, of which reading a field throws. Of the headers only `x-death` is kept, and its
-- entries without their time.
pub mod Publishing
pub mod Scanning
pub mod Draining
pub mod Endpoints
use study_microsservices_nod.Base.{
  ℕ, zero, suc, ◌+◌, String, Bool, true, false, Option, none, some, List, [], ◌∷◌, ◌++◌, length,
  ◌≡◌, ◌=ₛ◌, if◌then◌else◌, Error, plain, Result, ok, err, Action, pure, try_catch, ◌>>=◌, ◌>>◌,
}

-- An entry of the header `x-death`.
pub record Death : Type 0 where
  pub reason : String
  pub queue : String
  pub count : ℕ
  pub exchange : String
  pub routing_keys : List String

-- What `channel.get` hands over.
pub record Delivery : Type 0 where
  pub content : String
  pub message_id : Option String
  pub timestamp : Option ℕ
  pub x_death : List Death

pub record DlqMessage {ℓ} (M : Type ℓ) : Type ℓ where
  pub content : M
  pub message_id : Option String
  pub timestamp : Option ℕ
  pub death_info : Option Death

-- The operations of a channel on the dead-letter queue and on exchanges, over the state `B` of the broker.
-- `ready` is the queue, head first, and `published` what has gone out. `requeue` is a `nack` of a message
-- in hand, and `nack_settled` one of a message that was acknowledged.
pub record Channel (B M : Type 0) : Type 0 where
  pub ready : B → List Delivery
  pub published : B → List M
  pub check_queue : B → ℕ
  pub get : B → Option Delivery × B
  pub ack : Delivery → B → B
  pub requeue : Delivery → B → B
  pub purge_queue : B → ℕ × B
  pub nack_settled : Delivery → B → B
  pub assert_exchange : String → Action B (Unit {0})
  pub publish : String → String → M → Action B Bool

abbrev pub head_of : List Delivery → Option Delivery
head_of [] = none
head_of (m ∷ ms) = some m

abbrev pub tail_of : List Delivery → List Delivery
tail_of [] = []
tail_of (m ∷ ms) = ms

-- A channel that is open.
pub record IsChannel {B M : Type 0} (c : Channel B M) : Type 0 where
  pub counts : (b : B) → c.check_queue b ≡ length (c.ready b)
  pub gets : (b : B) → (c.get b).0 ≡ head_of (c.ready b)
  pub get-ready : (b : B) → c.ready (c.get b).1 ≡ tail_of (c.ready b)
  pub get-published : (b : B) → c.published (c.get b).1 ≡ c.published b
  pub ack-ready : (m : Delivery) (b : B) → c.ready (c.ack m b) ≡ c.ready b
  pub ack-published : (m : Delivery) (b : B) → c.published (c.ack m b) ≡ c.published b
  pub requeue-ready : (m : Delivery) (b : B) → c.ready (c.requeue m b) ≡ m ∷ c.ready b
  pub requeue-published : (m : Delivery) (b : B) → c.published (c.requeue m b) ≡ c.published b
  pub asserts : (e : String) (b : B) → (c.assert_exchange e b).0 ≡ ok tt
  pub assert_exchange-ready : (e : String) (b : B) → c.ready (c.assert_exchange e b).1 ≡ c.ready b
  pub assert_exchange-published :
      (e : String) (b : B) → c.published (c.assert_exchange e b).1 ≡ c.published b
  -- Also when it answers `false`, the channel's buffer being full, the message is sent.
  pub publishes : (e k : String) (x : M) (b : B) → (sent : Bool) × ((c.publish e k x b).0 ≡ ok sent)
  pub publish-ready : (e k : String) (x : M) (b : B) → c.ready (c.publish e k x b).1 ≡ c.ready b
  pub publish-published :
      (e k : String) (x : M) (b : B) → c.published (c.publish e k x b).1 ≡ c.published b ++ x ∷ []

-- `xDeath?.[0]`
abbrev pub first_death : List Death → Option Death
first_death [] = none
first_death (d ∷ ds) = some d

-- `{ processed, failed }`
pub record ProcessedFailed : Type 0 where
  pub processed : ℕ
  pub failed : ℕ

pub data Verdict : Type 0 where
  chosen other unreadable : Verdict

module _ {B M : Type 0} (channel : Channel B M) (parse : String → Option M) where
  open channel use {
    check_queue, get, ack, requeue, purge_queue, nack_settled, assert_exchange, publish,
  }

  -- `RabbitmqService.publishMessage`, which logs a failure, to the main queue.
  unfoldable pub publish_message : M → B → B
  publish_message content b =
      (try_catch
        (do
          assert_exchange "payments"
          published ← publish "payments" "payment.order" content
          pure tt)
        (λ e. pure tt) b).1

  -- What `peekMessages` adds to its list for a message.
  unfoldable pub listed : Delivery → Option M → List (DlqMessage M)
  listed msg none = []
  listed msg (some content) =
      record {
        content = content;
        message_id = msg.message_id;
        timestamp = msg.timestamp;
        death_info = first_death msg.x_death;
      }
      ∷ []

  -- A round of the loop, by what `get` returned: `more` are the rounds that are left. Whether the
  -- message can be read or not, it is put back.
  unfoldable pub peek_round :
      (B → List (DlqMessage M) × B) → Option Delivery → B → List (DlqMessage M) × B
  unfolding listed
  peek_round more none b = ([], b)
  peek_round more (some msg) b =
      let (rest, b') = more (requeue msg b) in (listed msg (parse msg.content) ++ rest, b')

  unfoldable pub peek_messages : ℕ → B → List (DlqMessage M) × B
  unfolding peek_round
  peek_messages zero b = ([], b)
  peek_messages (suc limit) b = let (msg, b') = get b in peek_round (peek_messages limit) msg b'

  module _ (order_of : M → Option String) (order_id : String) where
    -- The test of a round, on what `JSON.parse` made of the message, and on its order.
    unfoldable pub verdict_of : Option String → Verdict
    verdict_of none = unreadable
    verdict_of (some id) = if id =ₛ order_id then chosen else other

    unfoldable pub verdict : Option M → Verdict
    unfolding verdict_of
    verdict none = unreadable
    verdict (some content) = verdict_of (order_of content)

    -- What is done with the message that was looked for: it goes to the main queue, or nowhere.
    unfoldable pub republish : Option M → B → B
    unfolding publish_message
    republish none b = b
    republish (some content) b = publish_message content b

    unfoldable pub scan_round :
        (Option M → B → B) → (B → Bool × B) → Verdict → Option M → Delivery → B → Bool × B
    scan_round keep more chosen content msg b = (true, ack msg (keep content b))
    scan_round keep more other content msg b = more (requeue msg b)
    scan_round keep more unreadable content msg b = more (requeue msg b)

    unfoldable pub scan_next : (Option M → B → B) → (B → Bool × B) → Option Delivery → B → Bool × B
    unfolding scan_round verdict
    scan_next keep more none b = (false, b)
    scan_next keep more (some msg) b =
        scan_round keep more (verdict (parse msg.content)) (parse msg.content) msg b

    -- The loop that `reprocessMessage` and `discardMessage` share, over the rounds left.
    unfoldable pub scan : (Option M → B → B) → ℕ → B → Bool × B
    unfolding scan_next
    scan keep zero b = (false, b)
    scan keep (suc left) b = let (msg, b') = get b in scan_next keep (scan keep left) msg b'

    unfoldable pub reprocess_message : B → Bool × B
    unfolding scan republish
    reprocess_message b = scan republish (check_queue b) b

    unfoldable pub discard_message : B → Bool × B
    unfolding scan
    discard_message b = scan (λ content b'. b') (check_queue b) b

  module _ (order_of : M → Option String) where
    -- The end of a round, by what the log finds in `content.orderId`: if that throws, the message, which
    -- was acknowledged and counted, is counted as failed too, and is given back once more.
    unfoldable pub drain_logged :
        (ProcessedFailed → B → ProcessedFailed × B)
        → ProcessedFailed
        → Option String
        → Delivery
        → B
        → ProcessedFailed × B
    drain_logged more n none msg b = more (record n { failed = suc n.failed }) (nack_settled msg b)
    drain_logged more n (some id) msg b = more n b

    -- A round of `reprocessAll`, with the counts so far.
    unfoldable pub drain_round :
        (ProcessedFailed → B → ProcessedFailed × B)
        → ProcessedFailed
        → Option M
        → Delivery
        → B
        → ProcessedFailed × B
    unfolding publish_message drain_logged
    drain_round more n none msg b = more (record n { failed = suc n.failed }) (requeue msg b)
    drain_round more n (some content) msg b =
        drain_logged more (record n { processed = suc n.processed }) (order_of content) msg
          (ack msg (publish_message content b))

    unfoldable pub drain_next :
        (ProcessedFailed → B → ProcessedFailed × B)
        → ProcessedFailed
        → Option Delivery
        → B
        → ProcessedFailed × B
    unfolding drain_round
    drain_next more n none b = (n, b)
    drain_next more n (some msg) b = drain_round more n (parse msg.content) msg b

    unfoldable pub drain : ℕ → ProcessedFailed → B → ProcessedFailed × B
    unfolding drain_next
    drain zero n b = (n, b)
    drain (suc left) n b = let (msg, b') = get b in drain_next (drain left) n msg b'

    unfoldable pub reprocess_all : B → ProcessedFailed × B
    unfolding drain
    reprocess_all b = drain (check_queue b) (record { processed = 0; failed = 0 }) b

  unfoldable pub purge_all : B → ℕ × B
  purge_all b = purge_queue b
