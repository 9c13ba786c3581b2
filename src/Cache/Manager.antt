-- ===== src/Cache/Manager.antt =====
-- `Manager` of internal/cache/redis_cache.go: the caches by their names, over one Redis client or one
-- memory cache that they share. A cache is a value of the interface `Cache`, and what it holds is
-- in the store. The clock is in nanoseconds, and Redis reads the same clock in milliseconds.
pub mod Named
pub mod Responses
pub mod Clears
pub mod Apart
use apigateway_distributed_s.Base.{
  ℕ, ◌*◌, ◌≡◌, Bool, true, false, ◌&&◌, Option, none, some, List, [], ◌∷◌, String, length, ltb,
  if◌then◌else◌, Dict, lookup, insert,
}
use apigateway_distributed_s.Base.Int.{ℤ, pos}
use apigateway_distributed_s.Config.Types.{CacheConfig}
use apigateway_distributed_s.Cache.{
  Bytes, CacheError, cache_miss, marshal_failed, unmarshal_failed, Result, ok, error,
}
use apigateway_distributed_s.Cache.Memory as Memory
use apigateway_distributed_s.Cache.Memory.{GoCache, MemoryCache}
use apigateway_distributed_s.Cache.Redis as Redis
use apigateway_distributed_s.Cache.Redis.{RedisServer, RedisCache, new_redis_cache, milliseconds}

pub data Cache : Type 0 where
  redis_cache : RedisCache → Cache
  memory_cache : Cache

-- What the caches of a manager share.
pub record Store (R C : Type 0) : Type 0 where
  pub redis : R
  pub memory : MemoryCache C

pub record Manager : Type 0 where
  pub caches : Dict Cache
  pub default_ttl : ℤ

-- What the answers of the commands to Redis in one call are.
pub record Network : Type 0 where
  pub first : Bool
  pub second : Bool
  -- Is a command carried out that is not answered?
  pub ran : Bool

-- The interface `Cache`, by the type of the value.
module _ {R C : Type 0} (redis : RedisServer R) (go_cache : GoCache C) where
  unfoldable pub get : Cache → Network → ℕ → String → Store R C → Result Bytes
  unfolding Redis.get Memory.get
  get (redis_cache c) up now key s = Redis.get redis c up.first (milliseconds now) key s.redis
  get memory_cache up now key s = Memory.get go_cache now key s.memory

  unfoldable pub set :
      Cache → Network → ℕ → String → Bytes → ℤ → Store R C → Store R C × Result Unit
  unfolding Redis.set Memory.set
  set (redis_cache c) up now key value ttl s =
      let (r, done) = Redis.set redis c up.first up.ran (milliseconds now) key value ttl s.redis in
      (record s { redis = r }, done)
  set memory_cache up now key value ttl s =
      (record s { memory = Memory.set go_cache now key value ttl s.memory }, ok tt)

  unfoldable pub clear : Cache → Network → ℕ → Store R C → Store R C × Result Unit
  unfolding Redis.clear Memory.clear
  clear (redis_cache c) up now s =
      let (r, done) = Redis.clear redis c up.first up.second up.ran (milliseconds now) s.redis in
      (record s { redis = r }, done)
  clear memory_cache up now s = (record s { memory = Memory.clear go_cache s.memory }, ok tt)

abbrev pub hour : ℕ
hour = 3600 * 1000000000

abbrev pub minute : ℕ
minute = 60 * 1000000000

-- The four caches of a manager with Redis, and without.
abbrev pub redis_caches : ℤ → Dict Cache
redis_caches ttl =
    ("default", redis_cache (new_redis_cache "gateway" ttl))
    ∷ ("responses", redis_cache (new_redis_cache "gateway:responses" ttl))
    ∷ ("auth", redis_cache (new_redis_cache "gateway:auth" (pos hour)))
    ∷ ("ratelimit", redis_cache (new_redis_cache "gateway:ratelimit" (pos minute)))
    ∷ []

abbrev pub memory_caches : Dict Cache
memory_caches =
    ("default", memory_cache)
    ∷ ("responses", memory_cache)
    ∷ ("auth", memory_cache)
    ∷ ("ratelimit", memory_cache)
    ∷ []

-- The flag says whether there is a Redis client. The memory cache of the second case is the one that
-- `new_memory_cache` makes of the same configuration.
unfoldable pub new_manager : CacheConfig → Bool → Manager
new_manager cfg has_client = record {
  caches = if cfg.enabled && has_client then redis_caches cfg.ttl else memory_caches;
  default_ttl = cfg.ttl;
}

-- `none` is nil.
unfoldable pub cache_or : Option Cache → Option Cache → Option Cache
cache_or none fallback = fallback
cache_or (some c) fallback = some c

unfoldable pub get_cache : Manager → String → Option Cache
unfolding cache_or
get_cache m name = cache_or (lookup name m.caches) (lookup "default" m.caches)

unfoldable pub get_response_cache : Manager → Option Cache
unfolding get_cache
get_response_cache m = get_cache m "responses"

unfoldable pub get_auth_cache : Manager → Option Cache
unfolding get_cache
get_auth_cache m = get_cache m "auth"

unfoldable pub get_rate_limit_cache : Manager → Option Cache
unfolding get_cache
get_rate_limit_cache m = get_cache m "ratelimit"

-- encoding/json at a type. Documented: what it writes it reads back into a zero value.
pub record Json (V : Type 0) : Type 0 where
  pub zero_value : V
  pub marshal : V → Option Bytes
  pub unmarshal : Bytes → V → Option V
  pub unmarshal-marshal : (v : V) (b : Bytes) → marshal v ≡ some b → unmarshal b zero_value ≡ some v

-- `Timestamp` is a time in nanoseconds.
pub record CachedResponse : Type 0 where
  pub status_code : ℤ
  pub headers : Dict (List String)
  pub body : Bytes
  pub timestamp : ℕ

unfoldable pub decoded : {V : Type 0} → Option V → Result V
decoded none = error unmarshal_failed
decoded (some v) = ok v

module _ {R C V : Type 0} (redis : RedisServer R) (go_cache : GoCache C) (json : Json V) where
  -- The end of `CacheJSON`, on the cache and what was encoded; a nil cache panics, for which the
  -- answer is `none`.
  unfoldable pub store_in :
      Option Cache
      → Network
      → ℕ
      → String
      → Option Bytes
      → ℤ
      → Store R C
      → Option (Store R C × Result Unit)
  unfolding set
  store_in c up now key none ttl s = some (s, error marshal_failed)
  store_in none up now key (some encoded) ttl s = none
  store_in (some c) up now key (some encoded) ttl s =
      some (set redis go_cache c up now key encoded ttl s)

  unfoldable pub cache_json :
      Manager → Network → ℕ → String → String → V → ℤ → Store R C → Option (Store R C × Result Unit)
  unfolding store_in get_cache
  cache_json m up now name key value ttl s =
      store_in (get_cache m name) up now key (json.marshal value) ttl s

  -- The end of `GetJSON`, on what the cache answered.
  unfoldable pub read_into : Result Bytes → V → Result V
  unfolding decoded
  read_into (error e) target = error e
  read_into (ok encoded) target = decoded (json.unmarshal encoded target)

  unfoldable pub read_from : Option Cache → Network → ℕ → String → V → Store R C → Option (Result V)
  unfolding get read_into
  read_from none up now key target s = none
  read_from (some c) up now key target s =
      some (read_into (get redis go_cache c up now key s) target)

  -- The answer is the target after the call.
  unfoldable pub get_json :
      Manager → Network → ℕ → String → String → V → Store R C → Option (Result V)
  unfolding read_from get_cache
  get_json m up now name key target s = read_from (get_cache m name) up now key target s

module _ {R C : Type 0} (redis : RedisServer R) (go_cache : GoCache C)
    (json : Json CachedResponse) where
  unfoldable pub cache_response :
      Manager
      → Network
      → ℕ
      → String
      → CachedResponse
      → ℤ
      → Store R C
      → Option (Store R C × Result Unit)
  unfolding store_in get_response_cache
  cache_response m up now key response ttl s =
      store_in redis go_cache json (get_response_cache m) up now key (json.marshal response) ttl s

  unfoldable pub get_cached_response :
      Manager → Network → ℕ → String → Store R C → Option (Result CachedResponse)
  unfolding read_from get_response_cache
  get_cached_response m up now key s =
      read_from redis go_cache json (get_response_cache m) up now key json.zero_value s

-- Whether there is a cache, the number of caches, and the default duration.
unfoldable pub get_stats : Manager → Bool × ℕ × ℤ
get_stats m = (ltb 0 (length m.caches), length m.caches, m.default_ttl)
