-- ===== src/Gateway/Fallback/Laws.antt =====
-- What the cache gives back, and for how long.
use study_microsservices_nod.Base.{
  ℕ, ◌+◌, ◌≤◌, ◌<◌, ◌≡◌, String, none, true, Value, ok, arith, if◌then◌else◌, get, insert,
  get-insert_self, get-delete_self,
}
use study_microsservices_nod.Base.Values.{null, is_truthy}
use study_microsservices_nod.Gateway.Process.{Process}
use study_microsservices_nod.Gateway.Fallback.{
  get_cached_data, set_cached_data, create_cache_fallback,
}

module _ {N : Type 0} (key : String) (content : Value) (timeout : ℕ) (p : Process N) where
  -- The process when something was put into the cache and some time has passed.
  abbrev pub later : ℕ → Process N
  later elapsed = record (set_cached_data key content p) { clock = p.clock + elapsed }

  -- What was cached is given back for as long as the timeout, and the cache is left as it is.
  pub cached_in_time :
      (elapsed : ℕ)
      → elapsed ≤ timeout
      → get_cached_data key timeout (later elapsed) ≡ (content, later elapsed)
  unfolding get_cached_data set_cached_data
  cached_in_time elapsed early =
      ground
        (arith, get-insert_self key (record { content = content; timestamp = p.clock }) p.cache)

  -- After that it is gone: the answer is null, and the entry is deleted.
  pub cached_too_late :
      (elapsed : ℕ)
      → timeout < elapsed
      → let (answer, q) = get_cached_data key timeout (later elapsed) in
        (answer ≡ null) × (get key q.cache ≡ none)
  unfolding get_cached_data set_cached_data
  cached_too_late elapsed late = ground (
    arith,
    get-insert_self key (record { content = content; timestamp = p.clock }) p.cache,
    get-delete_self key (insert key (record { content = content; timestamp = p.clock }) p.cache),
  )

module _ {N : Type 0} (key : String) (default_data : Value) (timeout : ℕ) (p : Process N) where
  -- The fallback answers what is cached, if it is in time and truthy, and its default otherwise.
  pub cache_fallback_answer : (create_cache_fallback key default_data timeout p).0 ≡ (
      if is_truthy (get_cached_data key timeout p).0
      then ok (get_cached_data key timeout p).0
      else ok default_data)
  unfolding create_cache_fallback
  cache_fallback_answer = ground arith

  -- A fallback that is called again within the timeout, with nothing in between, answers the same:
  -- its default was cached like an answer of the service.
  pub cache_fallback_repeats :
      (elapsed : ℕ)
      → is_truthy default_data ≡ true
      → elapsed ≤ timeout
      → (get_cached_data key timeout p).0 ≡ null
      → let (first, q) = create_cache_fallback key default_data timeout p in
        (first ≡ ok default_data)
        × ((create_cache_fallback key default_data timeout
              (record q { clock = q.clock + elapsed })).0
            ≡ first)
  unfolding create_cache_fallback set_cached_data
  cache_fallback_repeats elapsed good early miss = ground (
    arith,
    cached_in_time key default_data timeout (get_cached_data key timeout p).1 elapsed early,
  )
