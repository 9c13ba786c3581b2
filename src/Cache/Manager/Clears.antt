-- ===== src/Cache/Manager/Clears.antt =====
-- What the `Clear` of the default cache reaches.
use Prim.Native.Char.{code}
use text.Mathlib.TextLemmas.{cons-append, append_assoc}
use apigateway_distributed_s.Base.{
  ℕ, ◌≡◌, refl, sym, subst, ◌∙◌, inl, inr, Bool, true, false, ◌&&◌, Option, none, some, List, [],
  ◌∷◌, String, concat, str_eq, if◌then◌else◌, Bool-cases, Option-cases, arith, ◌==◌,
}
use apigateway_distributed_s.Base.Int.{ℤ, pos}
use apigateway_distributed_s.Config.Types.{CacheConfig}
use apigateway_distributed_s.Cache.{Bytes, cache_miss, error}
use apigateway_distributed_s.Cache.Memory as Memory
use apigateway_distributed_s.Cache.Memory.{GoCache, MemoryCache, bytes_of}
use apigateway_distributed_s.Cache.Redis as Redis
use apigateway_distributed_s.Cache.Redis.{
  RedisServer, RedisCache, new_redis_cache, milliseconds, build_key, value_or_miss, starts_with,
  is_among, is_plain, command, clear_keys,
}
use apigateway_distributed_s.Cache.Manager.{
  Cache, redis_cache, Network, Store, new_manager, get, clear, get_cache, hour, minute,
}
use apigateway_distributed_s.Cache.Manager.Named.{named, get_cache-new_manager}

pub starts_with-concat : (p s : String) → starts_with p (concat p s) ≡ true
starts_with-concat String.[] s = refl
starts_with-concat (String.◌∷◌ c p) s =
    let same : (code c == code c) ≡ true = ground arith in
    rw (cons-append c p s, same) (starts_with-concat p s)

-- All the prefixes of the manager begin like that of its default cache.
key_below :
    (name key : String)
    → starts_with "gateway:" (concat (concat "gateway:" name) (concat ":" key)) ≡ true
key_below name key =
    rw (append_assoc "gateway:" name (concat ":" key))
      (starts_with-concat "gateway:" (concat name (concat ":" key)))

default_below : (key : String) → starts_with "gateway:" (concat "gateway" (concat ":" key)) ≡ true
default_below key = rw (sym (append_assoc "gateway" ":" key)) (starts_with-concat "gateway:" key)

abbrev pub all_answer : Network
all_answer = record { first = true; second = true; ran = true }

both_none : (b : Bool) → ◌≡◌ {A = Option Bytes} (if b then none else none) none
both_none true = refl
both_none false = refl

module _ {R : Type 0} (redis : RedisServer R) where
  del_found :
      (now : ℕ) (ks : List String) (k : String) (r : R)
      → ((v : Bytes) → redis.get now k r ≡ some v → is_among k ks ≡ true)
      → redis.get now k (clear_keys redis true true ks r).0 ≡ none
  unfolding clear_keys command
  del_found now [] k r h = elim (Option-cases (redis.get now k r)) [
    | inl e ↦ e
    | inr (v, e) ↦ absurd (ground (arith, h v e))
  ]
  del_found now (j ∷ ks) k r h = elim (Option-cases (redis.get now k r)) [
    | inl e ↦ redis.get-del now (j ∷ ks) k r ∙ rw e (both_none (is_among k (j ∷ ks)))
    | inr (v, e) ↦ rw (redis.get-del now (j ∷ ks) k r, h v e) refl
  ]

  gone :
      (now : ℕ) (ttl : ℤ) (k : String) (r : R)
      → starts_with "gateway:" k ≡ true
      → redis.get now k (Redis.clear redis (new_redis_cache "gateway" ttl) true true true now r).0
        ≡ none
  unfolding Redis.clear build_key
  gone now ttl k r h =
      del_found now (redis.keys now "gateway:*" r) k r
        (λ v e. redis.keys-star now "gateway:" k v r refl e ∙ h)

-- A named cache of Redis, and how its keys begin.
named_below :
    (ttl : ℤ) (name key : String)
    → (c : RedisCache) × (named true ttl name ≡ redis_cache c)
      × (starts_with "gateway:" (build_key c key) ≡ true)
unfolding build_key
named_below ttl name key = elim (Bool-cases (str_eq "responses" name)) [
  | inl e ↦ (new_redis_cache "gateway:responses" ttl, rw e refl, key_below "responses" key)
  | inr e ↦ elim (Bool-cases (str_eq "auth" name)) [
    | inl f ↦ (new_redis_cache "gateway:auth" (pos hour), rw (e, f) refl, key_below "auth" key)
    | inr f ↦ elim (Bool-cases (str_eq "ratelimit" name)) [
      | inl g ↦ (
        new_redis_cache "gateway:ratelimit" (pos minute),
        rw (e, f, g) refl,
        key_below "ratelimit" key,
      )
      | inr g ↦ (new_redis_cache "gateway" ttl, rw (e, f, g) refl, default_below key)
    ]
  ]
]

module _ {R C : Type 0} (redis : RedisServer R) (go_cache : GoCache C) where
  cleared :
      (enabled : Bool) (ttl : ℤ) (now : ℕ) (name key : String) (s : Store R C)
      → get redis go_cache
          (named enabled ttl name)
          all_answer
          now
          key
          (clear redis go_cache (named enabled ttl "default") all_answer now s).0
        ≡ error cache_miss
  unfolding get clear Redis.get Memory.get Memory.clear value_or_miss bytes_of
  cleared false ttl now name key s =
      rw
        (
          go_cache.get-get_with_expiration now key (go_cache.flush s.memory.cache),
          go_cache.get-flush now key s.memory.cache,
        )
        refl
  cleared true ttl now name key s =
      let (c, e, h) = named_below ttl name key in
      rw (e, gone redis (milliseconds now) ttl (build_key c key) s.redis h) refl

-- With a new manager, with or without Redis, after `Clear` of the default cache every key of every
-- named cache is a miss, if Redis answers: the specialized caches are cleared with it.
pub get-clear_default :
    {R C : Type 0} (redis : RedisServer R) (go_cache : GoCache C) (cfg : CacheConfig)
    (has_client : Bool) (now : ℕ) (name key : String) (d c : Cache) (s : Store R C)
    → get_cache (new_manager cfg has_client) "default" ≡ some d
    → get_cache (new_manager cfg has_client) name ≡ some c
    → get redis go_cache c all_answer now key (clear redis go_cache d all_answer now s).0
      ≡ error cache_miss
get-clear_default redis go_cache cfg has_client now name key d c s default_is name_is =
    let on = cfg.enabled && has_client in
    let d_is : named on cfg.ttl "default" ≡ d =
      ground (arith, get_cache-new_manager cfg has_client "default") in
    let c_is : named on cfg.ttl name ≡ c =
      ground (arith, get_cache-new_manager cfg has_client name) in
    subst
      (λ c.
        get redis go_cache c all_answer now key (clear redis go_cache d all_answer now s).0
        ≡ error cache_miss)
      c_is
      (subst
        (λ d.
          get redis go_cache (named on cfg.ttl name) all_answer now key
            (clear redis go_cache d all_answer now s).0
          ≡ error cache_miss)
        d_is (cleared redis go_cache on cfg.ttl now name key s))
