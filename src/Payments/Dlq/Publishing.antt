-- ===== src/Payments/Dlq/Publishing.antt =====
-- What `publishMessage` does over a channel that is open.
use study_microsservices_nod.Base.{
  ◌≡◌, refl, ap, ◌∙◌, String, Option, [], ◌∷◌, ◌++◌, Action, Error, try_catch, ok, pure, bind_ok,
  ◌>>=◌,
}
use study_microsservices_nod.Payments.Dlq.{Channel, IsChannel, publish_message}

caught :
    {S A : Type 0} (call : Action S A) (handler : Error → Action S A) (s : S) (a : A) (q : S)
    → call s ≡ (ok a, q)
    → try_catch call handler s ≡ (ok a, q)
caught call handler s a q h = rw h refl

module _ {B M : Type 0} (channel : Channel B M) (laws : IsChannel channel)
    (parse : String → Option M) (content : M) (b : B) where
  open channel use {ready, published, assert_exchange, publish}

  abbrev declared : B
  declared = (assert_exchange "payments" b).1

  abbrev sending : Action B (Unit {0})
  sending = publish "payments" "payment.order" content >>= λ sent. pure tt

  abbrev after : B
  after = (publish "payments" "payment.order" content declared).1

  sent_once : (assert_exchange "payments" >>= λ u. sending) b ≡ (ok tt, after)
  sent_once =
      let (sent, went) = laws.publishes "payments" "payment.order" content declared in
      bind_ok (assert_exchange "payments") (λ u. sending) b tt (laws.asserts "payments" b)
      ∙ bind_ok (publish "payments" "payment.order" content) (λ sent. pure tt) declared sent went

  publish_message_lem : publish_message channel parse content b ≡ after
  unfolding publish_message
  publish_message_lem =
      ap (λ x. x.1)
        (caught (assert_exchange "payments" >>= λ u. sending) (λ e. pure tt) b tt after sent_once)

  -- One message more has gone out, and the queue is as it was.
  pub publish_message-sent :
      let q = publish_message channel parse content b in
      (ready q ≡ ready b) × (published q ≡ published b ++ content ∷ [])
  publish_message-sent = rw publish_message_lem (
    laws.publish-ready _ _ content declared ∙ laws.assert_exchange-ready "payments" b,
    laws.publish-published _ _ content declared
        ∙ ap (λ sent. sent ++ content ∷ []) (laws.assert_exchange-published "payments" b),
  )
