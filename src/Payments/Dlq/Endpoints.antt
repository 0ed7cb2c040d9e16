-- ===== src/Payments/Dlq/Endpoints.antt =====
-- payments-service/src/events/dlq/dlq.controller.ts, and the test for a channel with which the
-- service's operations begin. A broker that has no channel is `none`. Paths and bodies that Nest
-- binds are the arguments; `parse_int` is the global `parseInt`, with 0 where that is not positive.
use study_microsservices_nod.Base.{
  ℕ, ◌≡◌, ◌≢◌, refl, String, Bool, true, false, Option, none, some, List, ◌∷◌, length, ◌=ₛ◌, ◌+ₛ◌,
  if◌then◌else◌, Action, ok, err, Error, plain, http, pure, raise, try_catch, ◌>>=◌,
}
use study_microsservices_nod.Base.Values.{str}
use study_microsservices_nod.Payments.Dlq.{
  Delivery, Channel, IsChannel, DlqMessage, chosen, verdict, peek_messages, reprocess_message,
  discard_message, reprocess_all, purge_all,
}
use study_microsservices_nod.Payments.Dlq.Scanning.{behind_head_unreached}

-- `consumerCount` is the broker's and left out.
pub record DlqStats : Type 0 where
  pub queue_name : String
  pub message_count : ℕ

pub record Listing (M : Type 0) : Type 0 where
  pub count : ℕ
  pub messages : List (DlqMessage M)

pub record Answer : Type 0 where
  pub success : Bool
  pub message : String

pub record ReprocessAnswer : Type 0 where
  pub success : Bool
  pub processed : ℕ
  pub failed : ℕ

pub record PurgeAnswer : Type 0 where
  pub success : Bool
  pub purged_count : ℕ

module _ {B A : Type 0} where
  -- `throw new HttpException(text, INTERNAL_SERVER_ERROR)`, whatever was thrown.
  abbrev pub hide : String → Error → Action B A
  hide text e = raise (http 500 (str text))

  -- The same, but an `HttpException` is thrown on.
  abbrev pub hide_others : String → Error → Action B A
  hide_others text (http status response) = raise (http status response)
  hide_others text e = raise (http 500 (str text))

module _ {B M : Type 0} (channel : Option (Channel B M)) (parse : String → Option M)
    (parse_int : String → ℕ) where
  -- An operation of the service, which cannot do without a channel.
  abbrev pub with_channel : {A : Type 0} → (Channel B M → B → A × B) → Action B A
  with_channel operation b = elim channel [
    | none ↦ (err (plain "RabbitMQ channel not available"), b)
    | some c ↦ let (a, b') = operation c b in (ok a, b')
  ]

  unfoldable pub get_stats : Action B DlqStats
  get_stats =
      try_catch
        (with_channel (λ c b.
          (record { queue_name = "payment_queue.dlq"; message_count = c.check_queue b }, b)))
        (hide "Failed to get DLQ stats")

  -- `limit ? parseInt(limit, 10) : 10`
  unfoldable pub limit_of : Option String → ℕ
  limit_of none = 10
  limit_of (some text) = if text =ₛ "" then 10 else parse_int text

  unfoldable pub get_messages : Option String → Action B (Listing M)
  unfolding limit_of
  get_messages limit =
      try_catch
        (do
          messages ← with_channel (λ c. peek_messages c parse (limit_of limit))
          pure (record { count = length messages; messages = messages }))
        (hide "Failed to get DLQ messages")

  unfoldable pub reprocess_all_route : (M → Option String) → Action B ReprocessAnswer
  reprocess_all_route order_of =
      try_catch
        (do
          result ← with_channel (λ c. reprocess_all c parse order_of)
          pure (record { success = true; processed = result.processed; failed = result.failed }))
        (hide "Failed to reprocess all messages")

  unfoldable pub purge_route : Action B PurgeAnswer
  purge_route =
      try_catch
        (do
          count ← with_channel (λ c. purge_all c parse)
          pure (record { success = true; purged_count = count }))
        (hide "Failed to purge DLQ")

  -- What both routes for one order answer, by whether the service found it.
  unfoldable pub answer_found : String → String → Bool → Action B Answer
  answer_found order_id done true =
      pure (record { success = true; message = "Message " +ₛ order_id +ₛ done })
  answer_found order_id done false =
      raise (http 404 (str ("Message with orderId " +ₛ order_id +ₛ " not found in DLQ")))

  module _ (order_of : M → Option String) (order_id : String) where
    unfoldable pub reprocess_route : Action B Answer
    unfolding answer_found
    reprocess_route =
        try_catch
          (do
            found ← with_channel (λ c. reprocess_message c parse order_of order_id)
            answer_found order_id " sent back to main queue for reprocessing" found)
          (hide_others "Failed to reprocess message")

    unfoldable pub discard_route : Action B Answer
    unfolding answer_found
    discard_route =
        try_catch
          (do
            found ← with_channel (λ c. discard_message c parse order_of order_id)
            answer_found order_id " permanently discarded from DLQ" found)
          (hide_others "Failed to discard message")

-- An order that is behind another at the head of the queue is answered with 404, although it waits
-- there, and the queue stays as it was.
pub waiting_not_found :
    {B M : Type 0} (channel : Channel B M) (laws : IsChannel channel) (parse : String → Option M)
    (parse_int : String → ℕ) (order_of : M → Option String) (order_id : String) (msg : Delivery)
    (rest : List Delivery) (b : B)
    → channel.ready b ≡ msg ∷ rest
    → verdict channel parse order_of order_id (parse msg.content) ≢ chosen
    → let (answer, q) = reprocess_route (some channel) parse parse_int order_of order_id b in
      (answer ≡ err (http 404 (str ("Message with orderId " +ₛ order_id +ₛ " not found in DLQ"))))
      × (channel.ready q ≡ msg ∷ rest)
unfolding reprocess_route answer_found
waiting_not_found channel laws parse parse_int order_of order_id msg rest b head no_match =
    let (missed, there, _) =
      behind_head_unreached channel laws parse order_of order_id msg rest b head no_match in
    rw missed (refl, there)
