-- ===== src/Payments/Messaging/Starting.antt =====
-- When the consumer starts.
use study_microsservices_nod.Base.{
  ℕ, zero, suc, ◌<◌, ◌≡◌, refl, ap, ◌∙◌, ◌⊎◌, inl, inr, arith, Bool, true, false, Option, none,
  some, List, Action, ok, gets, ◌>>=◌, Option-cases, bind_ok, continue,
}
use study_microsservices_nod.Broker.{Amqp, RabbitmqService, logged, logged_twice}
use study_microsservices_nod.Payments.Messaging.{
  get_channel, consume_payment_order, look, wait_for_connection, consume_if, start_consuming,
  subscribe_to_queue, max_attempts, subscribe_on, perform_all,
}
use study_microsservices_nod.Payments.Rabbitmq.{Command, subscribe_commands}

module _ {W C K R : Type 0} (amqp : Amqp W C K R)
    (pause : Action (RabbitmqService W C K) (Unit {0}))
    (in_time : (s : RabbitmqService W C K) → (pause s).0 ≡ ok tt) where
  -- The state after so many pauses.
  abbrev pub paused : ℕ → RabbitmqService W C K → RabbitmqService W C K
  paused zero s = s
  paused (suc n) s = paused n (pause s).1

  look_found :
      (again : Action (RabbitmqService W C K) Bool) (o : Option K) (channel : K)
      (s : RabbitmqService W C K)
      → o ≡ some channel
      → look amqp pause again o s ≡ (ok true, s)
  look_found again o channel s e = rw e refl

  look_missing :
      (again : Action (RabbitmqService W C K) Bool) (o : Option K) (s : RabbitmqService W C K)
      → o ≡ none
      → look amqp pause again o s ≡ again (pause s).1
  look_missing again o s e = rw e (bind_ok pause (λ _. again) s tt (in_time s))

  -- What holds of the looks from the next one on, and of this one, holds of all.
  earlier :
      (n : ℕ) (s : RabbitmqService W C K)
      → s.channel ≡ none
      → ((j : ℕ) → j < n → (paused j (pause s).1).channel ≡ none)
      → (j : ℕ) → j < suc n
      → (paused j s).channel ≡ none
  earlier n s closed later zero h = closed
  earlier n s closed later (suc j) h = later j (omega arith)

  -- The looks of `waitForConnection`: either one of them is the first to find a channel, and it answers
  -- true then; or none does, and it answers false after as many pauses.
  waits :
      (looks : ℕ) (s : RabbitmqService W C K)
      → ((k : ℕ) × (k < looks)
          × ((channel : K) × ((paused k s).channel ≡ some channel))
          × ((j : ℕ) → j < k → (paused j s).channel ≡ none)
          × (wait_for_connection amqp pause looks s ≡ (ok true, paused k s)))
        ⊎ (((k : ℕ) → k < looks → (paused k s).channel ≡ none)
            × (wait_for_connection amqp pause looks s ≡ (ok false, paused looks s)))
  unfolding wait_for_connection
  waits zero s = inr ((λ k h. absurd (omega arith)), refl)
  waits (suc looks) s = elim (Option-cases s.channel) [
    | inr (channel, open_now) ↦ inl (
      0,
      omega arith,
      (channel, open_now),
      (λ j h. absurd (omega arith)),
      look_found (wait_for_connection amqp pause looks) s.channel channel s open_now,
    )
    | inl closed ↦
        let next = look_missing (wait_for_connection amqp pause looks) s.channel s closed in
        elim (waits looks (pause s).1) [
          | inl (k, below, found, before, e) ↦
              inl (suc k, omega arith, found, earlier k s closed before, next ∙ e)
          | inr (never, e) ↦ inr (earlier looks s closed never, next ∙ e)
        ]
  ]

  settles :
      (s s' : RabbitmqService W C K) (answer : Bool)
      → wait_for_connection amqp pause max_attempts s ≡ (ok answer, s')
      → start_consuming amqp pause s ≡ logged (consume_if amqp pause answer) s'
  unfolding start_consuming
  settles s s' answer e = ap (λ r. logged (λ _. continue (consume_if amqp pause) r) s) e

  abbrev pub payment_commands : List Command
  payment_commands = subscribe_commands "payment_queue" "payments" "payment.order" 30000

  on_found :
      (o : Option K) (channel : K) (s : RabbitmqService W C K)
      → o ≡ some channel
      → logged (λ _. subscribe_on amqp payment_commands o s) s
        ≡ logged (perform_all amqp channel payment_commands) s
  on_found o channel s e = rw e refl

  consumes :
      (s : RabbitmqService W C K) (channel : K)
      → s.channel ≡ some channel
      → logged (consume_payment_order amqp) s ≡ logged (perform_all amqp channel payment_commands) s
  unfolding consume_payment_order subscribe_to_queue
  consumes s channel e =
      logged_twice (gets (get_channel amqp) >>= subscribe_on amqp payment_commands) s
      ∙ on_found s.channel channel s e

  -- Starting the consumer never throws. Either one of the ten looks at the channel is the first to
  -- find one, and then the queues are declared on it and `payment_queue` is consumed, call by call until
  -- one fails; or none finds one, and then nothing is declared or consumed.
  pub start_decided :
      (s : RabbitmqService W C K)
      → ((k : ℕ) × (k < 10)
          × ((j : ℕ) → j < k → (paused j s).channel ≡ none)
          × ((channel : K) × ((paused k s).channel ≡ some channel)
              × (start_consuming amqp pause s
                  ≡ logged (perform_all amqp channel payment_commands) (paused k s))))
        ⊎ (((k : ℕ) → k < 10 → (paused k s).channel ≡ none)
            × (start_consuming amqp pause s ≡ (ok tt, paused 10 s)))
  start_decided s = elim (waits 10 s) [
    | inl (k, below, (channel, open_now), before, e) ↦ inl (
      k,
      below,
      before,
      (channel, open_now, settles s (paused k s) true e ∙ consumes (paused k s) channel open_now),
    )
    | inr (never, e) ↦ inr (never, settles s (paused 10 s) false e)
  ]
