-- ===== src/Gateway/CircuitBreaker/Ending.antt =====
-- How a call through the breaker ends: for what it answers, and for its circuit.
use study_microsservices_nod.Base.{
  ℕ, suc, ◌+◌, ◌≤◌, ◌<◌, ◌≡◌, ◌≢◌, refl, ap, sym, ◌∙◌, ◌⊎◌, inl, inr, String, Option, none, some,
  ok, err, Error, Result, Action, get, leb, arith, Bool-cases, Option-cases,
}
use study_microsservices_nod.Gateway.Process.{
  Process, closed, opened, half_open, CircuitBreakerOptions, set_cell,
}
use study_microsservices_nod.Gateway.CircuitBreaker.{
  is_opened, get_or_create_circuit, failed, on_success, on_failure, fall_back, settle,
  execute_with_circuit_breaker,
}
use study_microsservices_nod.Gateway.CircuitBreaker.Laws.{
  opened_falls_back, first_call, opened_without_fallback, expired_probes, unopened_runs,
}

-- The failure is counted, and the circuit opens with a new time if enough are.
abbrev pub CountedFailure :
    {N : Type 0} → CircuitBreakerOptions → ℕ → Process N → Process N → Type 0
CountedFailure options r before after =
    ((after.cells r).failure_count ≡ suc (before.cells r).failure_count)
    × (after.clock ≡ before.clock)
    × (((options.failure_threshold ≤ suc (before.cells r).failure_count)
          × ((after.cells r).state ≡ opened)
          × ((after.cells r).next_attempt_time ≡ before.clock + options.reset_timeout))
        ⊎ ((suc (before.cells r).failure_count < options.failure_threshold)
            × ((after.cells r).state ≡ (before.cells r).state)))

failure-Counted :
    {N : Type 0} (options : CircuitBreakerOptions) (r : ℕ) (q : Process N)
    → CountedFailure options r q (on_failure r options q)
unfolding on_failure failed
failure-Counted options r q =
    elim (Bool-cases (leb options.failure_threshold (suc (q.cells r).failure_count))) [
      | inl enough ↦ rw enough (ground arith)
      | inr few ↦ rw few (ground arith)
    ]

module _ {N : Type 0} (key : String) (options : CircuitBreakerOptions) (p : Process N) where
  -- The call runs its operation: on a first call's new circuit, on a circuit that is not open, or on one
  -- whose time has come, which is then half-open. The circuit is at `r`, and the operation begins at `q`.
  abbrev pub Admitted : ℕ → Process N → Type 0
  Admitted r q =
      ((get key p.circuits ≡ none) × (get_or_create_circuit key options p ≡ (r, q)))
      ⊎ ((get key p.circuits ≡ some r) × ((p.cells r).state ≢ opened) × (p ≡ q))
      ⊎ ((get key p.circuits ≡ some r)
          × ((p.cells r).state ≡ opened)
          × ((p.cells r).next_attempt_time ≤ p.clock)
          × (set_cell r (record (p.cells r) { state = half_open }) p ≡ q))

  made_cell : get key p.circuits ≡ none → (get_or_create_circuit key options p).0 ≡ p.next_cell
  unfolding get_or_create_circuit
  made_cell miss = ground (arith, miss)

module _ {N T : Type 0} (key : String) (options : CircuitBreakerOptions) (p : Process N) where
  pub Admitted-runs :
      (operation : Action (Process N) T) (fallback : Option (Action (Process N) T)) (r : ℕ)
      (q : Process N)
      → Admitted key options p r q
      → execute_with_circuit_breaker operation key fallback options p
        ≡ settle r options fallback (operation q)
  Admitted-runs operation fallback r q (inl (miss, created)) =
      first_call key options p operation fallback miss
      ∙ ap (λ c. settle c options fallback (operation (get_or_create_circuit key options p).1))
          (sym (made_cell key options p miss))
      ∙ ap (λ c. settle c.0 options fallback (operation c.1)) created
  Admitted-runs operation fallback r q (inr (inl (hit, intact, same))) =
      unopened_runs key options p operation fallback r hit intact
      ∙ ap (λ s. settle r options fallback (operation s)) same
  Admitted-runs operation fallback r q (inr (inr (hit, broken, late, same))) =
      expired_probes key options p operation fallback r hit broken late
      ∙ ap (λ s. settle r options fallback (operation s)) same

  -- How a call ends by how its operation has: a value is answered, with the circuit closed and no failure
  -- counted; an error is counted, and then it is the fallback's call, or the error is thrown on.
  abbrev pub Ended :
      Option (Action (Process N) T) → ℕ → Result T × Process N → Result T × Process N → Type 0
  Ended fallback r x y =
      ((a : T) × (x.0 ≡ ok a)
        × (y.0 ≡ ok a)
        × ((y.1.cells r).state ≡ closed)
        × ((y.1.cells r).failure_count ≡ 0))
      ⊎ ((e : Error) × (q : Process N) × (x.0 ≡ err e)
          × CountedFailure options r x.1 q
          × (((fallback ≡ none) × (y ≡ (err e, q)))
              ⊎ ((f : Action (Process N) T) × (fallback ≡ some f) × (y ≡ f q))))

  settled-Ended :
      (fallback : Option (Action (Process N) T)) (r : ℕ) (x : Result T × Process N)
      → Ended fallback r x (settle r options fallback x)
  unfolding settle fall_back on_success
  settled-Ended fallback r (ok a, q) = ground arith
  settled-Ended none r (err e, q) =
      inr (e, on_failure r options q, refl, failure-Counted options r q, inl (refl, refl))
  settled-Ended (some f) r (err e, q) =
      inr (e, on_failure r options q, refl, failure-Counted options r q, inr (f, refl, refl))

  -- What a call under a key that has a circuit does, on every branch. If the circuit is open, its time
  -- has not come and there is a fallback, the call is the fallback's. Otherwise the operation runs: with
  -- the circuit half-open if its time has come, and on the process as it is if the circuit is not open,
  -- or has no fallback to give. Then a value is answered with the circuit closed and no failure counted;
  -- and for an error one more is counted, the circuit is open until the reset's time has gone by if that
  -- reaches the threshold and else keeps its state, and the fallback is called or the error thrown on.
  pub call_decided :
      (operation : Action (Process N) T) (fallback : Option (Action (Process N) T)) (r : ℕ)
      → get key p.circuits ≡ some r
      → let outcome = execute_with_circuit_breaker operation key fallback options p in
        (((p.cells r).state ≡ opened)
          × (p.clock < (p.cells r).next_attempt_time)
          × (f : Action (Process N) T) × (fallback ≡ some f)
          × (outcome ≡ f p))
        ⊎ (((p.cells r).state ≡ opened)
            × (p.clock < (p.cells r).next_attempt_time)
            × (fallback ≡ none)
            × Ended none r (operation p) outcome)
        ⊎ (((p.cells r).state ≡ opened)
            × ((p.cells r).next_attempt_time ≤ p.clock)
            × Ended fallback r
                (operation (set_cell r (record (p.cells r) { state = half_open }) p))
                outcome)
        ⊎ (((p.cells r).state ≢ opened) × Ended fallback r (operation p) outcome)
  call_decided operation fallback r hit = elim (Bool-cases (is_opened (p.cells r).state)) [
    | inr intact ↦
        let passes : (p.cells r).state ≢ opened = ground arith in
        inr (
          inr (
            inr (
              passes,
              rw (unopened_runs key options p operation fallback r hit passes)
                  (settled-Ended fallback r _),
            )))
    | inl broken ↦
        let is_open : (p.cells r).state ≡ opened = ground arith in
        elim (Bool-cases (leb (p.cells r).next_attempt_time p.clock)) [
          | inl late ↦
              let due : (p.cells r).next_attempt_time ≤ p.clock = ground arith in
              inr (
                inr (
                  inl (
                    is_open,
                    due,
                    rw (expired_probes key options p operation fallback r hit is_open due)
                        (settled-Ended fallback r _),
                  )))
          | inr soon ↦
              let early : p.clock < (p.cells r).next_attempt_time = ground arith in
              elim (Option-cases fallback) [
                | inl alone ↦ inr (
                    inl (
                      is_open,
                      early,
                      alone,
                      rw
                          (
                            alone,
                            opened_without_fallback key options p operation r hit is_open early,
                          )
                          (settled-Ended none r _),
                    ))
                | inr (f, given) ↦ inl (
                  is_open,
                  early,
                  f,
                  given,
                  rw given (opened_falls_back key options p operation f r hit is_open early),
                )
              ]
        ]
  ]
