-- ===== src/Gateway/Tests/Throttled.antt =====
-- The throttling guard, over storages that answer a number, or a record that is none.
use study_microsservices_nod.Base.{ℕ, suc, ◌≡◌, refl, String, true, none, some, [], Action, ok, err}
use study_microsservices_nod.Gateway.Throttler.{Exchange, too_many_requests, handle_request}
use study_microsservices_nod.Gateway.Throttler.Limits.{Throttled, throttled}

abbrev key : String → String → String
key tracker name = name

-- It counts the requests.
abbrev increment : String → ℕ → ℕ → ℕ → String → Action ℕ ℕ
increment id ttl limit block name hits = (ok (suc hits), suc hits)

abbrev sixth : Exchange ℕ
sixth = record { ip = "10.0.0.1"; user_agent = "curl"; headers = []; rest = 5 }

refused :
    (handle_request key increment (λ n. some n) (λ s. 9000) 60000 5 sixth).0 ≡ err too_many_requests
unfolding handle_request
refused = refl

-- What the storage answers is not a number.
let_through : (handle_request key increment (λ n. none) (λ s. 9000) 60000 5 sixth).0 ≡ ok true
unfolding handle_request
let_through = refl

throttled_example :
    Throttled key increment
      (λ n. some n)
      (λ s. 9000)
      60000
      5
      (some 6)
      (handle_request key increment (λ n. some n) (λ s. 9000) 60000 5 sixth)
throttled_example = throttled key increment (λ n. some n) (λ s. 9000) 60000 5 sixth 6 refl
