-- ===== src/Cache/Manager/Responses.antt =====
-- The way of an HTTP response through the response cache.
use apigateway_distributed_s.Base.{
  ℕ, ◌+◌, ◌<◌, ◌≤◌, ◌≡◌, refl, ◌⊎◌, Bool, true, false, ◌&&◌, none, some, String, arith,
}
use apigateway_distributed_s.Base.Int.{ℤ, pos, negsuc, pos_part, ltb_ℤ}
use apigateway_distributed_s.Config.Types.{CacheConfig}
use apigateway_distributed_s.Cache.{Bytes, CacheError, redis_failed, marshal_failed, ok}
use apigateway_distributed_s.Cache.Memory as Memory
use apigateway_distributed_s.Cache.Memory.{
  GoCache, MemoryCache, Any, bytes, bytes_of, ttl_or_default,
}
use apigateway_distributed_s.Cache.Redis as Redis
use apigateway_distributed_s.Cache.Redis.{
  RedisServer, RedisCache, new_redis_cache, milliseconds, build_key, command, value_or_miss,
}
use apigateway_distributed_s.Cache.Manager.{
  Cache, redis_cache, memory_cache, Manager, Network, Store, Json, CachedResponse, new_manager, get,
  set, get_response_cache, cache_response, get_cached_response, store_in, read_from, read_into,
  decoded,
}
use apigateway_distributed_s.Cache.Manager.Named.{named, get_cache-new_manager}

default_kept : (d t : ℤ) → ltb_ℤ (pos 0) t ≡ true → ttl_or_default d t ≡ t
default_kept d (pos n) h = ground arith
default_kept d (negsuc n) h = refl

module _ {R C : Type 0} (redis : RedisServer R) (go_cache : GoCache C) where
  -- A value that was set is there until it expires.
  pub get-set :
      (c : Cache) (up up' : Network) (now later : ℕ) (key : String) (v : Bytes) (t : ℤ)
      (s : Store R C)
      → up.first ≡ true
      → up'.first ≡ true
      → ltb_ℤ (pos 0) t ≡ true
      → milliseconds later < milliseconds now + milliseconds (pos_part t)
      → (s' : Store R C) × (set redis go_cache c up now key v t s ≡ (s', ok tt))
        × (get redis go_cache c up' later key s' ≡ ok v)
  unfolding get set Redis.get Redis.set command Memory.get Memory.set bytes_of value_or_miss
  get-set (redis_cache c) up up' now later key v t s u u' positive early = (
    record s {
      redis =
          redis.set (milliseconds now) (build_key c key) v (ttl_or_default c.default_ttl t) s.redis;
    },
    rw u refl,
    rw
        (
          u',
          default_kept c.default_ttl t positive,
          redis.get-set (milliseconds now) (milliseconds later) (build_key c key) v t s.redis
              positive early,
        )
        refl,
  )
  get-set memory_cache up up' now later key v t s u u' positive early =
      let within : later ≤ now + pos_part t = omega arith in
      (
        record s { memory = Memory.set go_cache now key v t s.memory },
        refl,
        rw
            (
              default_kept s.memory.default_ttl t positive,
              go_cache.get-get_with_expiration later key
                  (go_cache.set now key (bytes v) t s.memory.cache),
              go_cache.get-set now later key (bytes v) t s.memory.cache positive within,
            )
            refl,
      )

  module _ (json : Json CachedResponse) where
    -- With a new manager, with or without Redis, a response that can be encoded and is cached for a
    -- positive time is stored without an error, and read back the same until it expires, whatever
    -- the caches held before, if Redis answers.
    pub get_cached_response-cache_response :
        (cfg : CacheConfig) (has_client : Bool) (up up' : Network) (now later : ℕ) (key : String)
        (response : CachedResponse) (text : Bytes) (t : ℤ) (s : Store R C)
        → json.marshal response ≡ some text
        → up.first ≡ true
        → up'.first ≡ true
        → ltb_ℤ (pos 0) t ≡ true
        → milliseconds later < milliseconds now + milliseconds (pos_part t)
        → (s' : Store R C) × (cache_response redis go_cache json
              (new_manager cfg has_client)
              up
              now
              key
              response
              t
              s
            ≡ some (s', ok tt))
          × (get_cached_response redis go_cache json (new_manager cfg has_client) up' later key s'
              ≡ some (ok response))
    unfolding cache_response get_cached_response get_response_cache store_in read_from read_into
        decoded
    get_cached_response-cache_response cfg has_client up up' now later key response text t s encoded
          u u' positive early =
        let c = named (cfg.enabled && has_client) cfg.ttl "responses" in
        let found = get_cache-new_manager cfg has_client "responses" in
        let (s', stored, read) = get-set c up up' now later key text t s u u' positive early in
        (
          s',
          rw (found, encoded, stored) refl,
          rw (found, read, json.unmarshal-marshal response text encoded) refl,
        )

    -- What a failed `CacheResponse` leaves: everything as before, or what one that Redis answers
    -- leaves.
    abbrev pub Failed :
        Manager
        → Network
        → ℕ
        → String
        → CachedResponse
        → ℤ
        → Store R C
        → Store R C
        → CacheError
        → Type 0
    Failed m up now key response t s s' e =
        ((json.marshal response ≡ none) × (e ≡ marshal_failed) × (s' ≡ s))
        ⊎ ((up.first ≡ false)
            × (e ≡ redis_failed)
            × ((s' ≡ s)
                ⊎ (cache_response redis go_cache json m (record up { first = true }) now key
                      response t s
                    ≡ some (s', ok tt))))
