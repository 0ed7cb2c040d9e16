-- ===== src/Gateway/Throttler/Limits.antt =====
-- Which requests the throttling guard refuses.
use study_microsservices_nod.Base.{
  ℕ, ◌<◌, ◌+◌, ◌-◌, ◌/◌, ◌≡◌, refl, String, Bool, true, ltb, none, some, get, get-insert, Action,
  Result, ok, err, Bool-cases, ◌⊎◌, inl, inr, arith,
}
use study_microsservices_nod.Gateway.Throttler.{
  Reading, Exchange, exceeds, too_many_requests, get_tracker, handle_request, answer, counted,
}

module _ {S H : Type 0} (generate_key : String → String → String)
    (increment : String → ℕ → ℕ → ℕ → String → Action S H) (number : H → Reading)
    (now : S → ℕ) where
  -- What `handleRequest` makes of the number of hits.
  abbrev pub Throttled : ℕ → ℕ → Reading → Result Bool × Exchange S → Type 0
  Throttled ttl limit hits y =
      ((n : ℕ) × (hits ≡ some n)
        × (limit < n)
        × (y.0 ≡ err too_many_requests)
        × (get "Retry-After" y.1.headers ≡ some (some ttl)))
      ⊎ ((y.0 ≡ ok true)
          × (get "X-RateLimit-Limit" y.1.headers ≡ some (some limit))
          × (get "X-RateLimit-Reset" y.1.headers ≡ some (some (now y.1.rest / 1000 + ttl)))
          × (((hits ≡ none) × (get "X-RateLimit-Remaining" y.1.headers ≡ some none))
              ⊎ ((n : ℕ) × (left : ℕ) × (hits ≡ some n)
                  × (n + left ≡ limit)
                  × (get "X-RateLimit-Remaining" y.1.headers ≡ some (some left)))))

  answers :
      (ttl limit : ℕ) (hits : Reading) (x : Exchange S)
      → Throttled ttl limit hits
          (answer generate_key increment number now ttl limit hits (exceeds hits limit) x)
  answers ttl limit none x =
      inr (refl, simp get-insert, simp get-insert, inl (refl, simp get-insert))
  answers ttl limit (some n) x = elim (Bool-cases (ltb limit n)) [
    | inl above ↦ rw above (inl (n, refl, ground arith, refl, simp get-insert))
    | inr within ↦ rw within (
        inr (
          refl,
          simp get-insert,
          simp get-insert,
          inr (n, limit - n, refl, ground arith, simp get-insert),
        ))
  ]

  -- A request that the storage has counted is refused with 429 and a `Retry-After` of the ttl if what the
  -- storage answered is a number above the limit. Otherwise it is let through with headers for the
  -- limit and for the reset, the seconds of the clock plus the ttl; and the header for what remains
  -- says how many requests are missing to the limit, or NaN if the storage answered no number.
  pub throttled :
      (ttl limit : ℕ) (x : Exchange S) (hits : H)
      → (counted generate_key increment number now ttl limit x x.rest).0 ≡ ok hits
      → Throttled ttl limit
          (number hits)
          (handle_request generate_key increment number now ttl limit x)
  unfolding handle_request get_tracker
  throttled ttl limit x hits e = rw e (answers ttl limit (number hits) _)
