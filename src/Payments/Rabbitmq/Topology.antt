-- ===== src/Payments/Rabbitmq/Topology.antt =====
-- Where a message goes that leaves a queue by rejection or by age, read off the declarations.
use text.Mathlib.TextLemmas.{append_cancel_left}
use text.Mathlib.TextPositions.{len-append, eq_refl}
use Prim.Native.String.{len}
use study_microsservices_nod.Base.{
  ℕ, ◌<◌, ◌≡◌, ◌≢◌, refl, ap, sym, String, false, Option, none, some, List, [], ◌∷◌, ◌=ₛ◌, ◌+ₛ◌,
  if◌then◌else◌, arith, eq_iff, ◌&&◌,
}
use study_microsservices_nod.Payments.Rabbitmq.{
  Command, assert_exchange, assert_queue, bind_queue, prefetch, consume, subscribe_commands,
}

-- The dead-letter exchange and routing key that are declared for a queue.
abbrev pub dead_letter_of : List Command → String → Option (String × String)
dead_letter_of [] queue = none
dead_letter_of (assert_queue name arguments ∷ cs) queue =
    if name =ₛ queue then arguments.dead_letter else dead_letter_of cs queue
dead_letter_of (assert_exchange x ∷ cs) queue = dead_letter_of cs queue
dead_letter_of (bind_queue q x k ∷ cs) queue = dead_letter_of cs queue
dead_letter_of (prefetch n ∷ cs) queue = dead_letter_of cs queue
dead_letter_of (consume q ∷ cs) queue = dead_letter_of cs queue

-- The queues that are bound to an exchange under a key without wildcards.
abbrev pub bound_to : List Command → String × String → List String
bound_to [] target = []
bound_to (bind_queue q x k ∷ cs) target =
    if (x =ₛ target.0) && (k =ₛ target.1) then q ∷ bound_to cs target else bound_to cs target
bound_to (assert_queue q a ∷ cs) target = bound_to cs target
bound_to (assert_exchange x ∷ cs) target = bound_to cs target
bound_to (prefetch n ∷ cs) target = bound_to cs target
bound_to (consume q ∷ cs) target = bound_to cs target

abbrev pub queues_at : List Command → Option (String × String) → List String
queues_at cs none = []
queues_at cs (some target) = bound_to cs target

abbrev pub next_queues : List Command → String → List String
next_queues cs queue = queues_at cs (dead_letter_of cs queue)

differ : (s t : String) → s ≢ t → (s =ₛ t) ≡ false
differ s t h = ground (arith, eq_iff s t)

longer : (s x : String) → 0 < len x → (s +ₛ x) ≢ s
longer s x h e = let n = ap len e in omega (arith, len-append s x, n)

tails_differ : (s x y : String) → (x =ₛ y) ≡ false → (s +ₛ x) ≢ (s +ₛ y)
tails_differ s x y h e =
    let same = append_cancel_left s x y e in ground (arith, eq_iff x y, same, h)

module _ (q x k : String) (delay : ℕ) where
  abbrev pub topology : List Command
  topology = subscribe_commands q x k delay

  -- The declared dead-letter targets.
  main_target : dead_letter_of topology q ≡ some (x +ₛ ".retry.dlx", k +ₛ ".retry")
  unfolding subscribe_commands
  main_target =
      rw
        (
          differ _ _ (longer q ".dlq" (omega arith)),
          differ _ _ (longer q ".retry" (omega arith)),
          eq_refl q,
        )
        refl

  retry_target : dead_letter_of topology (q +ₛ ".retry") ≡ some (x +ₛ ".dlx", k +ₛ ".dlq")
  unfolding subscribe_commands
  retry_target = rw (differ _ _ (tails_differ q ".dlq" ".retry" refl), eq_refl (q +ₛ ".retry")) refl

  dlq_target : dead_letter_of topology (q +ₛ ".dlq") ≡ none
  unfolding subscribe_commands
  dlq_target = rw (eq_refl (q +ₛ ".dlq")) refl

  bound_to_retry : bound_to topology (x +ₛ ".retry.dlx", k +ₛ ".retry") ≡ (q +ₛ ".retry") ∷ []
  unfolding subscribe_commands
  bound_to_retry =
      rw
        (
          differ _ _ (tails_differ x ".dlx" ".retry.dlx" refl),
          eq_refl (x +ₛ ".retry.dlx"),
          eq_refl (k +ₛ ".retry"),
          differ x (x +ₛ ".retry.dlx") (λ e. longer x ".retry.dlx" (omega arith) (sym e)),
        )
        refl

  bound_to_dlq : bound_to topology (x +ₛ ".dlx", k +ₛ ".dlq") ≡ (q +ₛ ".dlq") ∷ []
  unfolding subscribe_commands
  bound_to_dlq =
      rw
        (
          differ _ _ (tails_differ x ".retry.dlx" ".dlx" refl),
          eq_refl (x +ₛ ".dlx"),
          eq_refl (k +ₛ ".dlq"),
          differ x (x +ₛ ".dlx") (λ e. longer x ".dlx" (omega arith) (sym e)),
        )
        refl

  -- A message that leaves the main queue goes to the retry queue, from there to the dead-letter
  -- queue, and stays there. No dead-letter target leads back to the main queue, whatever the names
  -- and the delay.
  pub dead_letters_end :
      (next_queues topology q ≡ (q +ₛ ".retry") ∷ [])
      × (next_queues topology (q +ₛ ".retry") ≡ (q +ₛ ".dlq") ∷ [])
      × (next_queues topology (q +ₛ ".dlq") ≡ [])
      × ((q +ₛ ".retry") ≢ q)
      × ((q +ₛ ".dlq") ≢ q)
  dead_letters_end = (
    rw main_target bound_to_retry,
    rw retry_target bound_to_dlq,
    rw dlq_target refl,
    longer q ".retry" (omega arith),
    longer q ".dlq" (omega arith),
  )
