-- ===== src/Gateway/Fallback.antt =====
-- api-gateway/src/common/fallback: the cache of answers and the canned answers.
pub mod Laws
use study_microsservices_nod.Base.{
  ℕ, ◌-◌, String, Option, none, some, Map, Value, Action, pure, raise, plain, ltb, if◌then◌else◌,
  get, insert, delete,
}
use study_microsservices_nod.Base.Values.{null, array, object, no_elements, no_members, is_truthy}
use study_microsservices_nod.Gateway.Process.{Process, CacheEntry}

-- Five minutes.
abbrev pub default_timeout : ℕ
default_timeout = 300000

module _ {N : Type 0} where
  fresh_or_gone : String → ℕ → Option CacheEntry → Process N → Value × Process N
  fresh_or_gone key timeout none p = (null, p)
  fresh_or_gone key timeout (some hit) p =
      if ltb timeout (p.clock - hit.timestamp)
      then (null, record p { cache = delete key p.cache })
      else (hit.content, p)

  unfoldable pub get_cached_data : String → ℕ → Process N → Value × Process N
  unfolding fresh_or_gone
  get_cached_data key timeout p = fresh_or_gone key timeout (get key p.cache) p

  unfoldable pub set_cached_data : String → Value → Process N → Process N
  set_cached_data key content p = record p {
    cache = insert key (record { content = content; timestamp = p.clock }) p.cache;
  }

  unfoldable pub create_cache_fallback : String → Value → ℕ → Action (Process N) Value
  unfolding get_cached_data set_cached_data
  create_cache_fallback key default_data timeout p =
      let (cached, q) = get_cached_data key timeout p in
      if is_truthy cached
      then pure cached q
      else pure default_data (set_cached_data key default_data q)

  unfoldable pub create_default_fallback : Value → Action (Process N) Value
  create_default_fallback default_data = pure default_data

  unfoldable pub create_error_fallback : String → Action (Process N) Value
  create_error_fallback error_message = raise (plain error_message)

  unfoldable pub create_empty_array_fallback : Action (Process N) Value
  create_empty_array_fallback = pure (array no_elements)

  unfoldable pub create_empty_object_fallback : Action (Process N) Value
  create_empty_object_fallback = pure (object no_members)
