-- ===== src/Payments/Rabbitmq/Handling.antt =====
-- What becomes of a message that was handled.
use text.Mathlib.TextPositions.{len-append, slice-append_right, eq_refl}
use Prim.Native.String.{len}
use study_microsservices_nod.Base.{
  ℕ, ◌+◌, ◌-◌, ◌<◌, ◌≡◌, ◌≢◌, ◌↔◌, inl, inr, refl, String, Bool, true, Option, some, List, [], ◌∷◌,
  leb, ◌+ₛ◌, Action, ok, err, Error, All, arith, Option-cases, Result-cases,
}
use study_microsservices_nod.Payments.Dlq.{Death}
use study_microsservices_nod.Payments.Rabbitmq.{
  ends_with, get_retry_count, Message, acked, nacked, settle_failed, settle_handled, handle_parsed,
  handle_message,
}

ends_with-append : (s t : String) → ends_with (s +ₛ t) t ≡ true
ends_with-append s t =
    let enough : leb (len t) (len s + len t) ≡ true = ground arith in
    let rest : len s + len t - len t ≡ len s = omega arith in
    rw (len-append s t, enough, rest, slice-append_right s t) (eq_refl t)

-- The header of a message that has died in retry queues alone counts no retries.
abbrev pub DiedRetrying : Death → Type 0
DiedRetrying death = (name : String) × (death.queue ≡ name +ₛ ".retry")

retries_zero : (deaths : List Death) → All DiedRetrying deaths → get_retry_count deaths ≡ 0
unfolding get_retry_count
retries_zero [] h = refl
retries_zero (d ∷ ds) ((name, e), h) = rw (e, ends_with-append name ".retry") (retries_zero ds h)

module _ {S R M : Type 0} (parse : R → Option M) (on_message : M → Action S (Unit {0}))
    (max_retries : ℕ) where
  failed_not_acked :
      (connected : Bool) (msg : Message R)
      → settle_failed parse on_message max_retries connected msg ≢ acked
  unfolding settle_failed
  failed_not_acked connected msg = ground arith

  -- A message is acknowledged by the main branch exactly if it can be read and its callback succeeds.
  pub acked_iff :
      (connected : Bool) (msg : Message R) (s : S)
      → ((handle_message parse on_message max_retries connected msg s).0 ≡ acked)
        ↔ ((m : M) × (parse msg.content ≡ some m) × ((on_message m s).0 ≡ ok tt))
  unfolding handle_message handle_parsed settle_handled
  acked_iff connected msg s = elim (Option-cases (parse msg.content)) [
    | inl unread ↦ rw unread ((λ h. absurd (failed_not_acked connected msg h)), (λ (m, e, _). cc))
    | inr (m, reads) ↦ elim (Result-cases (on_message m s).0) [
      | inl (x, done) ↦ rw (reads, done) ((λ h. (m, refl, done)), (λ h. refl))
      | inr (e, fails) ↦
          rw (reads, fails)
            ((λ h. absurd (failed_not_acked connected msg h)), (λ (m', same, done). cc))
    ]
  ]

  -- The callback's changes are kept, however it settles.
  pub handle_message-state :
      (connected : Bool) (msg : Message R) (m : M) (s : S)
      → parse msg.content ≡ some m
      → (handle_message parse on_message max_retries connected msg s).1 ≡ (on_message m s).1
  unfolding handle_message handle_parsed
  handle_message-state connected msg m s reads = rw reads refl

  -- If retries are allowed at all: a message whose callback fails, and which has died in no queue but
  -- retry queues, is rejected, and not published to the dead-letter exchange by hand.
  pub first_failure_nacked :
      (connected : Bool) (msg : Message R) (m : M) (e : Error) (s : S)
      → 0 < max_retries
      → All DiedRetrying msg.x_death
      → parse msg.content ≡ some m
      → (on_message m s).0 ≡ err e
      → handle_message parse on_message max_retries connected msg s ≡ (nacked, (on_message m s).1)
  unfolding handle_message handle_parsed settle_handled settle_failed
  first_failure_nacked connected msg m e s some_retries died reads fails =
      rw (reads, fails, retries_zero msg.x_death died) (ground arith)
