-- ===== src/Cache/Manager/Named.antt =====
-- Which cache the manager hands out for a name.
use apigateway_distributed_s.Base.{
  ◌≡◌, refl, subst, Bool, true, false, ◌&&◌, some, String, str_eq, if◌then◌else◌, inl, inr,
  Bool-cases, eq_iff, arith, lookup,
}
use apigateway_distributed_s.Base.Int.{ℤ, pos}
use apigateway_distributed_s.Config.Types.{CacheConfig}
use apigateway_distributed_s.Cache.Redis.{new_redis_cache}
use apigateway_distributed_s.Cache.Manager.{
  Cache, redis_cache, memory_cache, hour, minute, redis_caches, memory_caches, new_manager,
  get_cache, cache_or,
}

-- The cache of a name; every other name has the default cache.
abbrev pub named : Bool → ℤ → String → Cache
named false ttl name = memory_cache
named true ttl name =
    if str_eq "responses" name
    then redis_cache (new_redis_cache "gateway:responses" ttl)
    else if str_eq "auth" name
    then redis_cache (new_redis_cache "gateway:auth" (pos hour))
    else if str_eq "ratelimit" name
    then redis_cache (new_redis_cache "gateway:ratelimit" (pos minute))
    else redis_cache (new_redis_cache "gateway" ttl)

with_redis :
    (ttl : ℤ) (name : String)
    → cache_or (lookup name (redis_caches ttl)) (lookup "default" (redis_caches ttl))
      ≡ some (named true ttl name)
unfolding lookup cache_or
with_redis ttl name = elim (Bool-cases (str_eq "default" name)) [
  | inl e ↦
      let same : "default" ≡ name = (eq_iff "default" name).0 e in
      subst
        (λ name.
          cache_or (lookup name (redis_caches ttl)) (lookup "default" (redis_caches ttl))
          ≡ some (named true ttl name))
        same refl
  | inr e ↦ ground arith
]

with_memory :
    (name : String)
    → cache_or (lookup name memory_caches) (lookup "default" memory_caches) ≡ some memory_cache
unfolding lookup cache_or
with_memory name = ground arith

-- A new manager has a cache for every name, the default one where it knows no other.
pub get_cache-new_manager :
    (cfg : CacheConfig) (has_client : Bool) (name : String)
    → get_cache (new_manager cfg has_client) name
      ≡ some (named (cfg.enabled && has_client) cfg.ttl name)
unfolding get_cache new_manager
get_cache-new_manager cfg has_client name = elim (Bool-cases (cfg.enabled && has_client)) [
  | inl on ↦ rw on (with_redis cfg.ttl name)
  | inr off ↦ rw off (with_memory name)
]
