-- ===== src/Cache.antt =====
-- internal/cache: the caches and their manager. `LRUCache` stands by itself; `MemoryCache` and
-- `RedisCache` are what the manager hands out, over go-cache and Redis as parameters.
pub mod Lru
pub mod Memory
pub mod Redis
pub mod Manager
use apigateway_distributed_s.Base.{ℕ, List}

abbrev pub Bytes : Type 0
Bytes = List ℕ

-- The errors of internal/cache/redis_cache.go: `ErrCacheMiss`, an error of Redis, and an error of
-- encoding/json in one or the other direction.
pub data CacheError : Type 0 where
  cache_miss : CacheError
  redis_failed : CacheError
  marshal_failed : CacheError
  unmarshal_failed : CacheError

pub data Result (A : Type 0) : Type 0 where
  ok : A → Result A
  error : CacheError → Result A
