-- ===== src/Payments/Tests/Letters.antt =====
-- A dead-letter queue that is a list of messages, and what the operations do with it.
use study_microsservices_nod.Base.{
  true, ok, ◌=ₛ◌, if◌then◌else◌, ◌≡◌, ◌≢◌, refl, String, false, Option, none, some, List, [], ◌∷◌,
  ◌++◌, length, arith,
}
use study_microsservices_nod.Payments.Dlq.{
  Delivery, Channel, IsChannel, head_of, tail_of, verdict, reprocess_message, reprocess_all, chosen,
}
use study_microsservices_nod.Payments.Dlq.Scanning.{behind_head_unreached}
use study_microsservices_nod.Payments.Dlq.Draining.{reprocess_all_stops}

record Broker : Type 0 where
  waiting : List Delivery
  sent : List String

abbrev broker : Channel Broker String
broker = record {
  ready = λ b. b.waiting;
  published = λ b. b.sent;
  check_queue = λ b. length b.waiting;
  get = λ b. (head_of b.waiting, record b { waiting = tail_of b.waiting });
  ack = λ msg b. b;
  requeue = λ msg b. record b { waiting = msg ∷ b.waiting };
  purge_queue = λ b. (length b.waiting, record b { waiting = [] });
  nack_settled = λ msg b. b;
  assert_exchange = λ exchange b. (ok tt, b);
  publish = λ exchange key content b. (ok true, record b { sent = b.sent ++ content ∷ [] });
}

broker-IsChannel : IsChannel broker
broker-IsChannel = record {
  counts = λ b. refl;
  gets = λ b. refl;
  get-ready = λ b. refl;
  get-published = λ b. refl;
  ack-ready = λ msg b. refl;
  ack-published = λ msg b. refl;
  requeue-ready = λ msg b. refl;
  requeue-published = λ msg b. refl;
  asserts = λ exchange b. refl;
  assert_exchange-ready = λ exchange b. refl;
  assert_exchange-published = λ exchange b. refl;
  publishes = λ exchange key content b. (true, refl);
  publish-ready = λ exchange key content b. refl;
  publish-published = λ exchange key content b. refl;
}

-- A message is the identifier of its order, or is broken.
abbrev parse : String → Option String
parse text = if text =ₛ "{" then none else some text

abbrev order_of : String → Option String
order_of content = some content

abbrev letter : String → Delivery
letter content = record { content = content; message_id = none; timestamp = none; x_death = [] }

abbrev two_letters : Broker
two_letters = record { waiting = letter "a" ∷ letter "b" ∷ []; sent = [] }

behind_head_unreached_example :
    let (found, q) = reprocess_message broker parse order_of "b" two_letters in
    (found ≡ false) × (q.waiting ≡ letter "a" ∷ letter "b" ∷ []) × (q.sent ≡ [])
unfolding verdict
behind_head_unreached_example =
    behind_head_unreached broker broker-IsChannel parse order_of "b" (letter "a") (letter "b" ∷ [])
      two_letters refl not_it
  where
    not_it : verdict broker parse order_of "b" (some "a") ≢ chosen
    not_it = ground arith

-- The second of three cannot be parsed.
abbrev three_letters : Broker
three_letters = record { waiting = letter "a" ∷ letter "{" ∷ letter "b" ∷ []; sent = [] }

reprocess_all_stops_example :
    let (n, q) = reprocess_all broker parse order_of three_letters in
    (n.processed ≡ 1)
    × (n.failed ≡ 2)
    × (q.waiting ≡ letter "{" ∷ letter "b" ∷ [])
    × (q.sent ≡ "a" ∷ [])
reprocess_all_stops_example =
    reprocess_all_stops broker broker-IsChannel parse order_of (letter "a" ∷ [])
      (letter "{" ∷ letter "b" ∷ []) ("a" ∷ []) three_letters refl ((refl, ("a", refl)), tt) refl
