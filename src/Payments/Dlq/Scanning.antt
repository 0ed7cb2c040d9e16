-- ===== src/Payments/Dlq/Scanning.antt =====
-- What a look through the dead-letter queue reaches.
use study_microsservices_nod.Base.{
  ap, [], ◌++◌, ℕ, zero, suc, ◌≡◌, ◌≢◌, refl, ◌∙◌, String, Bool, true, false, Option, some, List,
  ◌∷◌, length,
}
use text.Mathlib.TextPositions.{eq_refl}
use study_microsservices_nod.Payments.Dlq.Publishing.{publish_message-sent}
use study_microsservices_nod.Payments.Dlq.{
  Delivery, Channel, IsChannel, Verdict, chosen, other, unreadable, verdict_of, verdict, republish,
  scan_round, scan_next, scan, reprocess_message, discard_message,
}

module _ {B M : Type 0} (channel : Channel B M) (laws : IsChannel channel)
    (parse : String → Option M) (order_of : M → Option String) (order_id : String) where
  open channel use {ready, published}

  -- A round over a message that is not the one that was looked for puts it back.
  passed_over :
      (keep : Option M → B → B) (more : B → Bool × B) (v : Verdict) (content : Option M)
      (msg : Delivery) (b : B)
      → v ≢ chosen
      → scan_round channel parse order_of order_id keep more v content msg b
        ≡ more (channel.requeue msg b)
  unfolding scan_round
  passed_over keep more chosen content msg b h = absurd (h refl)
  passed_over keep more other content msg b h = refl
  passed_over keep more unreadable content msg b h = refl

  -- A message that was taken and put back is at the head again.
  requeue-get :
      (msg : Delivery) (rest : List Delivery) (b : B)
      → ready b ≡ msg ∷ rest
      → (ready (channel.requeue msg (channel.get b).1) ≡ msg ∷ rest)
        × (published (channel.requeue msg (channel.get b).1) ≡ published b)
  requeue-get msg rest b h = (
    rw (laws.requeue-ready msg (channel.get b).1, laws.get-ready b, h),
    laws.requeue-published msg (channel.get b).1 ∙ laws.get-published b,
  )

  scan_again :
      (keep : Option M → B → B) (left : ℕ) (msg : Delivery) (rest : List Delivery) (b : B)
      → ready b ≡ msg ∷ rest
      → verdict channel parse order_of order_id (parse msg.content) ≢ chosen
      → scan channel parse order_of order_id keep (suc left) b
        ≡ scan channel parse order_of order_id keep left (channel.requeue msg (channel.get b).1)
  unfolding scan scan_next
  scan_again keep left msg rest b h no_match =
      rw (laws.gets b, h)
        (passed_over keep (scan channel parse order_of order_id keep left)
          (verdict channel parse order_of order_id (parse msg.content)) (parse msg.content) msg
          (channel.get b).1 no_match)

  scan_stuck :
      (keep : Option M → B → B) (left : ℕ) (msg : Delivery) (rest : List Delivery) (b : B)
      → ready b ≡ msg ∷ rest
      → verdict channel parse order_of order_id (parse msg.content) ≢ chosen
      → let (found, q) = scan channel parse order_of order_id keep left b in
        (found ≡ false) × (ready q ≡ msg ∷ rest) × (published q ≡ published b)
  unfolding scan
  scan_stuck keep zero msg rest b h no_match = (refl, h, refl)
  scan_stuck keep (suc left) msg rest b h no_match =
      let (back, same) = requeue-get msg rest b h in
      let (missed, there, unsent) =
        scan_stuck keep left msg rest (channel.requeue msg (channel.get b).1) back no_match in
      rw (scan_again keep left msg rest b h no_match) (missed, there, unsent ∙ same)

  -- A message that is put back takes its old place, at the head. So a look for an order that the head
  -- of the queue is not ends without it, wherever else in the queue it is: nothing is found, nothing
  -- goes to the main queue, and the queue is as it was.
  pub behind_head_unreached :
      (msg : Delivery) (rest : List Delivery) (b : B)
      → ready b ≡ msg ∷ rest
      → verdict channel parse order_of order_id (parse msg.content) ≢ chosen
      → let (found, q) = reprocess_message channel parse order_of order_id b in
        (found ≡ false) × (ready q ≡ msg ∷ rest) × (published q ≡ published b)
  unfolding reprocess_message
  behind_head_unreached msg rest b h no_match =
      scan_stuck (republish channel parse order_of order_id) (channel.check_queue b) msg rest b h
        no_match

  scan_found :
      (keep : Option M → B → B) (left : ℕ) (msg : Delivery) (rest : List Delivery) (content : M)
      (b : B)
      → ready b ≡ msg ∷ rest
      → parse msg.content ≡ some content
      → order_of content ≡ some order_id
      → scan channel parse order_of order_id keep (suc left) b
        ≡ (true, channel.ack msg (keep (some content) (channel.get b).1))
  unfolding scan scan_next scan_round verdict verdict_of
  scan_found keep left msg rest content b h reads same =
      rw (laws.gets b, h, reads, same, eq_refl order_id)

  waiting_count :
      (msg : Delivery) (rest : List Delivery) (b : B)
      → ready b ≡ msg ∷ rest
      → channel.check_queue b ≡ suc (length rest)
  waiting_count msg rest b h = rw (laws.counts b, h)

  -- An order at the head of the queue is found, whichever of the two operations looks for it, and is
  -- taken off. To discard it publishes nothing; to reprocess it publishes its content, over a channel that
  -- is open.
  pub head_found :
      (msg : Delivery) (rest : List Delivery) (content : M) (b : B)
      → ready b ≡ msg ∷ rest
      → parse msg.content ≡ some content
      → order_of content ≡ some order_id
      → let (found, q) = reprocess_message channel parse order_of order_id b in
        let (found', q') = discard_message channel parse order_of order_id b in
        (found ≡ true)
        × (ready q ≡ rest)
        × (published q ≡ published b ++ content ∷ [])
        × (found' ≡ true)
        × (ready q' ≡ rest)
        × (published q' ≡ published b)
  unfolding reprocess_message discard_message republish
  head_found msg rest content b h reads same =
      let (kept, sent) = publish_message-sent channel laws parse content (channel.get b).1 in
      rw
        (
          waiting_count msg rest b h,
          scan_found (republish channel parse order_of order_id) (length rest) msg rest content b h
              reads same,
          scan_found (λ c b'. b') (length rest) msg rest content b h reads same,
        )
        (
          refl,
          rw (laws.ack-ready, kept, laws.get-ready b, h),
          laws.ack-published msg _ ∙ sent ∙ ap (λ x. x ++ content ∷ []) (laws.get-published b),
          refl,
          rw (laws.ack-ready, laws.get-ready b, h),
          laws.ack-published msg _ ∙ laws.get-published b,
        )
