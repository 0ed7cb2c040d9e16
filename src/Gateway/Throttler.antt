-- ===== src/Gateway/Throttler.antt =====
-- api-gateway/src/guards/throttler.guard.ts. The storage of @nestjs/throttler and `generateKey` of its guard
-- are parameters, and so is `Number` of what the storage answers: `none` is NaN, with which every
-- comparison is false and every sum and maximum is NaN.
pub mod Limits
use study_microsservices_nod.Base.{
  ℕ, zero, suc, ◌+◌, ◌-◌, ◌/◌, ◌<◌, ◌≡◌, ◌↔◌, refl, String, Bool, true, false, ltb, leb, lt→ltb,
  ltb→lt, ◌+ₛ◌, Option, none, some, List, [], ◌∷◌, Map, insert, get, Action, Error, http, ok, err,
  pure, raise, gets, modify, ◌>>=◌, ◌>>◌, if◌then◌else◌, Option-cases, Bool-cases, Result-cases,
  ◌⊎◌, inl, inr, arith, bind_ok,
}
use study_microsservices_nod.Base.Values.{str}

-- A value of a header: a number, or NaN.
abbrev pub Reading : Type 0
Reading = Option ℕ

-- A request, with the text that `${…}` makes of its user agent, the headers of its response so far, and the rest.
pub record Exchange (S : Type 0) : Type 0 where
  pub ip : String
  pub user_agent : String
  pub headers : Map Reading
  pub rest : S

abbrev pub set_header : {S : Type 0} → String → Reading → Action (Exchange S) (Unit {0})
set_header name reading = modify (λ x. record x { headers = insert name reading x.headers })

unfoldable pub get_tracker : {S : Type 0} → Exchange S → String
get_tracker x = x.ip +ₛ "-" +ₛ x.user_agent

abbrev pub too_many_requests : Error
too_many_requests = http 429 (str "Too many requests. Please try again later.")

-- `hits > limit`
abbrev pub exceeds : Reading → ℕ → Bool
exceeds none limit = false
exceeds (some hits) limit = ltb limit hits

-- `Math.max(limit - hits, 0)`
abbrev pub remaining : Reading → ℕ → Reading
remaining none limit = none
remaining (some hits) limit = some (limit - hits)

-- `now` is in milliseconds.
module _ {S H : Type 0} (generate_key : String → String → String)
    (increment : String → ℕ → ℕ → ℕ → String → Action S H) (number : H → Reading)
    (now : S → ℕ) where
  abbrev pub on_rest : {A : Type 0} → Action S A → Action (Exchange S) A
  on_rest call x = let (result, rest) = call x.rest in (result, record x { rest = rest })

  -- The end of `handleRequest`, by whether there were too many hits.
  abbrev pub answer : ℕ → ℕ → Reading → Bool → Action (Exchange S) Bool
  answer ttl limit hits true = set_header "Retry-After" (some ttl) >> raise too_many_requests
  answer ttl limit hits false = do
    set_header "X-RateLimit-Limit" (some limit)
    set_header "X-RateLimit-Remaining" (remaining hits limit)
    time ← gets (λ x. now x.rest)
    set_header "X-RateLimit-Reset" (some (time / 1000 + ttl))
    pure true

  -- `handleRequest`, with the `ttl` and the `limit` of the request's properties.
  unfoldable pub handle_request : ℕ → ℕ → Action (Exchange S) Bool
  unfolding get_tracker
  handle_request ttl limit = do
    tracker ← gets get_tracker
    hits ← on_rest (increment (generate_key tracker "throttler") ttl limit 1 "throttler")
    answer ttl limit (number hits) (exceeds (number hits) limit)

  -- What the storage answers to a request.
  abbrev pub counted : ℕ → ℕ → Exchange S → Action S H
  counted ttl limit x =
      increment (generate_key (x.ip +ₛ "-" +ₛ x.user_agent) "throttler") ttl limit 1 "throttler"
