-- ===== src/Payments/Dlq/Draining.antt =====
-- Listing the dead-letter queue, and sending it back as a whole.
use mathlib.Core.List.{append-nil, append_assoc}
use study_microsservices_nod.Base.{
  ℕ, zero, suc, ◌+◌, ◌≡◌, refl, ap, sym, ◌∙◌, String, Option, none, some, List, [], ◌∷◌, ◌++◌,
  length, arith,
}
use study_microsservices_nod.Payments.Dlq.{
  Delivery, ProcessedFailed, Channel, IsChannel, listed, peek_round, peek_messages, drain_round,
  drain_next, drain_logged, publish_message, drain, reprocess_all,
}
use study_microsservices_nod.Payments.Dlq.Publishing.{publish_message-sent}

abbrev pub repeat {ℓ} : {A : Type ℓ} → ℕ → List A → List A
repeat zero xs = []
repeat (suc n) xs = xs ++ repeat n xs

module _ {B M : Type 0} (channel : Channel B M) (laws : IsChannel channel)
    (parse : String → Option M) where
  open channel use {ready, published}

  -- A message is put back before the next is got. So the list that is shown is the head of the queue
  -- over and over, as often as was asked for, and the queue stays as it was.
  pub peek_repeats_head :
      (limit : ℕ) (msg : Delivery) (rest : List Delivery) (b : B)
      → ready b ≡ msg ∷ rest
      → let (messages, q) = peek_messages channel parse limit b in
        (messages ≡ repeat limit (listed channel parse msg (parse msg.content)))
        × (ready q ≡ msg ∷ rest)
  unfolding peek_messages peek_round
  peek_repeats_head zero msg rest b h = (refl, h)
  peek_repeats_head (suc limit) msg rest b h =
      let b' : B = channel.requeue msg (channel.get b).1 in
      let back : ready b' ≡ msg ∷ rest =
        rw (laws.requeue-ready msg (channel.get b).1, laws.get-ready b, h) in
      let (shown, same) = peek_repeats_head limit msg rest b' back in
      rw (laws.gets b, h) (ap (λ x. listed channel parse msg (parse msg.content) ++ x) shown, same)

module _ {B M : Type 0} (channel : Channel B M) (laws : IsChannel channel)
    (parse : String → Option M) (order_of : M → Option String) where
  open channel use {ready, published}

  -- It can be parsed, and is not `null`.
  abbrev pub IsReadable : Delivery → M → Type 0
  IsReadable msg content =
      (parse msg.content ≡ some content) × ((id : String) × (order_of content ≡ some id))

  -- The messages can be read, as these contents.
  abbrev pub Reads : List Delivery → List M → Type 0
  Reads [] [] = Unit {0}
  Reads (msg ∷ msgs) (content ∷ contents) = IsReadable msg content × Reads msgs contents
  Reads _ _ = ⊥

  -- There is no message, or the first cannot be parsed.
  abbrev pub IsStuck : List Delivery → Type 0
  IsStuck [] = Unit {0}
  IsStuck (msg ∷ msgs) = parse msg.content ≡ none

  drain_step :
      (left : ℕ) (n : ProcessedFailed) (msg : Delivery) (rest : List Delivery) (content : M) (b : B)
      → ready b ≡ msg ∷ rest
      → IsReadable msg content
      → drain channel parse order_of (suc left) n b
        ≡ drain channel parse order_of left
            (record n { processed = suc n.processed })
            (channel.ack msg (publish_message channel parse content (channel.get b).1))
  unfolding drain drain_next drain_round drain_logged
  drain_step left n msg rest content b h (reads, (id, named)) = rw (laws.gets b, h, reads, named)

  stuck_step :
      (left : ℕ) (n : ProcessedFailed) (msg : Delivery) (rest : List Delivery) (b : B)
      → ready b ≡ msg ∷ rest
      → parse msg.content ≡ none
      → drain channel parse order_of (suc left) n b
        ≡ drain channel parse order_of left
            (record n { failed = suc n.failed })
            (channel.requeue msg (channel.get b).1)
  unfolding drain drain_next drain_round
  stuck_step left n msg rest b h unread = rw (laws.gets b, h, unread)

  -- What a drain has made of the queue and of the counts before it.
  abbrev Drained :
      ProcessedFailed → B → ℕ → ℕ → List M → List Delivery → ProcessedFailed × B → Type 0
  Drained n b good bad contents rest x =
      (x.0.processed ≡ n.processed + good)
      × (x.0.failed ≡ n.failed + bad)
      × (ready x.1 ≡ rest)
      × (published x.1 ≡ published b ++ contents)

  drain_stuck :
      (left : ℕ) (n : ProcessedFailed) (msg : Delivery) (rest : List Delivery) (b : B)
      → ready b ≡ msg ∷ rest
      → parse msg.content ≡ none
      → Drained n b 0 left [] (msg ∷ rest) (drain channel parse order_of left n b)
  unfolding drain
  drain_stuck zero n msg rest b h unread =
      (omega arith, omega arith, h, sym (append-nil (published b)))
  drain_stuck (suc left) n msg rest b h unread =
      let b' : B = channel.requeue msg (channel.get b).1 in
      let back : ready b' ≡ msg ∷ rest =
        rw (laws.requeue-ready msg (channel.get b).1, laws.get-ready b, h) in
      let same : published b' ≡ published b =
        laws.requeue-published msg (channel.get b).1 ∙ laws.get-published b in
      let (m, f, there, sent) =
        drain_stuck left (record n { failed = suc n.failed }) msg rest b' back unread in
      rw (stuck_step left n msg rest b h unread)
        (m, omega (arith, f), there, sent ∙ ap (λ x. x ++ []) same)

  drain_all :
      (waiting rest : List Delivery) (contents : List M) (n : ProcessedFailed) (b : B)
      → ready b ≡ waiting ++ rest
      → Reads waiting contents
      → IsStuck rest
      → Drained n b
          (length waiting)
          (length rest)
          contents
          rest
          (drain channel parse order_of (length (waiting ++ rest)) n b)
  unfolding drain
  drain_all [] [] [] n b h good stuck =
      (omega arith, omega arith, h, sym (append-nil (published b)))
  drain_all [] (msg ∷ rest) [] n b h good stuck =
      drain_stuck (suc (length rest)) n msg rest b h stuck
  drain_all [] [] (content ∷ contents) n b h good stuck = elim good [ ]
  drain_all [] (msg ∷ rest) (content ∷ contents) n b h good stuck = elim good [ ]
  drain_all (msg ∷ waiting) rest [] n b h good stuck = elim good [ ]
  drain_all (msg ∷ waiting) rest (content ∷ contents) n b h (reads, good) stuck =
      let b' : B = channel.ack msg (publish_message channel parse content (channel.get b).1) in
      let (kept, sent) = publish_message-sent channel laws parse content (channel.get b).1 in
      let left : ready b' ≡ waiting ++ rest = rw (laws.ack-ready, kept, laws.get-ready b, h) refl in
      let gone : published b' ≡ published b ++ content ∷ [] =
        laws.ack-published msg _ ∙ sent ∙ ap (λ x. x ++ content ∷ []) (laws.get-published b) in
      let (m, f, there, all) =
        drain_all waiting rest contents (record n { processed = suc n.processed }) b' left good
          stuck in
      rw (drain_step (length (waiting ++ rest)) n msg (waiting ++ rest) content b h reads) (
        omega (arith, m),
        f,
        there,
        all ∙ ap (λ x. x ++ contents) gone ∙ append_assoc (published b) (content ∷ []) contents,
      )

  -- Over an open channel, reprocessing publishes the messages up to the first that cannot be parsed, in
  -- their order, if none of them is `null`, counts them as processed, and takes them off. That one stays
  -- at the head, and is counted as failed once for itself and once for each message behind it, which
  -- stay too.
  pub reprocess_all_stops :
      (waiting rest : List Delivery) (contents : List M) (b : B)
      → ready b ≡ waiting ++ rest
      → Reads waiting contents
      → IsStuck rest
      → let (n, q) = reprocess_all channel parse order_of b in
        (n.processed ≡ length waiting)
        × (n.failed ≡ length rest)
        × (ready q ≡ rest)
        × (published q ≡ published b ++ contents)
  unfolding reprocess_all
  reprocess_all_stops waiting rest contents b h good stuck =
      let (m, f, there, sent) =
        drain_all waiting rest contents (record { processed = 0; failed = 0 }) b h good stuck in
      rw (laws.counts b, h) (omega (arith, m), omega (arith, f), there, sent)
