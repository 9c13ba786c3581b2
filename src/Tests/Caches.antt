-- ===== src/Tests/Caches.antt =====
-- Runs of the caches on concrete inputs, and the theorems on them applied there.
use apigateway_distributed_s.Base.{
  ℕ, ◌≤◌, ◌≡◌, refl, true, false, arith, Dict, Option, none, some, List, [], ◌∷◌, String, length,
}
use apigateway_distributed_s.Base.Int.{ℤ, pos, negsuc}
use apigateway_distributed_s.Cache.{Bytes}
use apigateway_distributed_s.Cache.Lru.{LruCache, new_lru_cache}
use apigateway_distributed_s.Cache.Lru.Calls.{Call, gets, sets, Answer, value, done, run}
use apigateway_distributed_s.Cache.Lru.Spec.{answer, answers, entries_after}
use apigateway_distributed_s.Config.Types.{CacheConfig}
use apigateway_distributed_s.Cache.{cache_miss, ok, error}
use apigateway_distributed_s.Cache.Memory.{Any}
use apigateway_distributed_s.Cache.Redis as Redis
use apigateway_distributed_s.Cache.Redis.{new_redis_cache}
use apigateway_distributed_s.Cache.Manager.{
  set, cache_response, get_cache, redis_cache, Store, Network, Json, CachedResponse, new_manager,
  get, clear, get_cached_response, hour,
}
use apigateway_distributed_s.Cache.Manager.Named.{get_cache-new_manager}
use apigateway_distributed_s.Cache.Manager.Responses.{get_cached_response-cache_response}
use apigateway_distributed_s.Cache.Manager.Clears.{get-clear_default, all_answer}
use apigateway_distributed_s.Cache.Manager.Apart.{get-set_apart}
use apigateway_distributed_s.Tests.Stores.{map_cache, map_redis}
use apigateway_distributed_s.Cache.Lru.Steps.{Models}
use apigateway_distributed_s.Cache.Lru.Refines.{run-answers, new-Models}
use apigateway_distributed_s.Cache.Lru.Bounds.{run-le-capacity, run-set-get}

-- The third key pushes out the second, since the first was read after it.
abbrev busy : List Call
busy =
    sets 1 "a" (10 ∷ []) (pos 0)
    ∷ sets 2 "b" (20 ∷ []) (pos 5)
    ∷ gets 3 "a"
    ∷ sets 4 "c" (30 ∷ []) (pos 0)
    ∷ gets 5 "b"
    ∷ gets 6 "a"
    ∷ []

abbrev busy_answers : List Answer
busy_answers =
    done ∷ done ∷ value (some (10 ∷ [])) ∷ done ∷ value none ∷ value (some (10 ∷ [])) ∷ []

busy_lem : answers (pos 2) [] busy ≡ busy_answers
unfolding answers answer
busy_lem = refl

run-answers_example :
    (l' : LruCache) × (run (new_lru_cache (pos 2)) busy ≡ some (l', answers (pos 2) [] busy))
    × Models (pos 2) l' (entries_after (pos 2) [] busy)
run-answers_example = run-answers (pos 2) busy

run-le-capacity_example :
    (l' : LruCache) × (run (new_lru_cache (pos 2)) busy ≡ some (l', answers (pos 2) [] busy))
    × (length l'.items ≤ 2)
run-le-capacity_example = run-le-capacity (pos 2) busy

run-set-get_example :
    (l' : LruCache) × (run (new_lru_cache (pos 1)) (sets 1 "a" (10 ∷ []) (pos 5) ∷ gets 6 "a" ∷ [])
      ≡ some (l', done ∷ value (some (10 ∷ [])) ∷ []))
run-set-get_example =
    run-set-get (pos 1) (new_lru_cache (pos 1)) [] (new-Models (pos 1)) refl 1 6 "a" (10 ∷ [])
      (pos 5)

abbrev caching : CacheConfig
caching = record { enabled = true; ttl = pos 300000000000; max_size = pos 100 }

abbrev stored : Store (Dict (Bytes × Option ℕ)) (Dict (Any × Option ℕ))
stored = record {
  redis = ("gateway:auth:t", (1 ∷ [], none)) ∷ [];
  memory = record { cache = []; default_ttl = pos 300000000000 };
}

abbrev page : CachedResponse
page = record { status_code = pos 200; headers = []; body = 104 ∷ 105 ∷ []; timestamp = 7 }

-- An encoding of the responses without headers.
abbrev encode : ℤ → Dict (List String) → Bytes → ℕ → Option Bytes
encode (pos n) [] b t = some (n ∷ t ∷ b)
encode (pos n) (h ∷ hs) b t = none
encode (negsuc n) hs b t = none

abbrev decode : Bytes → Option CachedResponse
decode [] = none
decode (n ∷ []) = none
decode (n ∷ t ∷ b) = some (record { status_code = pos n; headers = []; body = b; timestamp = t })

decode-encode :
    (c : ℤ) (hs : Dict (List String)) (b : Bytes) (t : ℕ) (text : Bytes)
    → encode c hs b t ≡ some text
    → decode text ≡ some (record { status_code = c; headers = hs; body = b; timestamp = t })
decode-encode (pos n) [] b t [] e = absurd (ground arith)
decode-encode (pos n) [] b t (m ∷ []) e = absurd (ground arith)
decode-encode (pos n) [] b t (m ∷ u ∷ c) e = ground arith
decode-encode (pos n) (h ∷ hs) b t text e = absurd (ground arith)
decode-encode (negsuc n) hs b t text e = absurd (ground arith)

json : Json CachedResponse
json = record {
  zero_value = record { status_code = pos 0; headers = []; body = []; timestamp = 0 };
  marshal = λ r. encode r.status_code r.headers r.body r.timestamp;
  unmarshal = λ b r. decode b;
  unmarshal-marshal = λ r text e. decode-encode r.status_code r.headers r.body r.timestamp text e;
}

get_cache-new_manager_example :
    get_cache (new_manager caching true) "sessions"
    ≡ some (redis_cache (new_redis_cache "gateway" caching.ttl))
get_cache-new_manager_example = get_cache-new_manager caching true "sessions"

get_cached_response-cache_response_example :
    (s' : Store (Dict (Bytes × Option ℕ)) (Dict (Any × Option ℕ))) × (cache_response map_redis
        map_cache json
        (new_manager caching true)
        all_answer
        5000000
        "/a"
        page
        (pos 60000000000)
        stored
      ≡ some (s', ok tt))
    × (get_cached_response map_redis map_cache json
          (new_manager caching true)
          all_answer
          7000000
          "/a"
          s'
        ≡ some (ok page))
unfolding json
get_cached_response-cache_response_example =
    get_cached_response-cache_response map_redis map_cache json caching true all_answer all_answer
      5000000 7000000 "/a" page (200 ∷ 7 ∷ 104 ∷ 105 ∷ []) (pos 60000000000) stored refl refl refl
      refl (omega arith)

abbrev silent : Network
silent = record { first = false; second = false; ran = true }

-- Redis stores the response of a command that it does not answer.
abbrev stored_all_the_same : Store (Dict (Bytes × Option ℕ)) (Dict (Any × Option ℕ))
stored_all_the_same =
    (set map_redis map_cache (redis_cache (new_redis_cache "gateway:responses" caching.ttl))
      all_answer 5 "/a" (200 ∷ 7 ∷ 104 ∷ 105 ∷ []) (pos 60) stored).0

get-clear_default_example :
    get map_redis map_cache
      (redis_cache (new_redis_cache "gateway:auth" (pos hour)))
      all_answer
      5
      "t"
      (clear map_redis map_cache
        (redis_cache (new_redis_cache "gateway" caching.ttl))
        all_answer
        5
        stored).0
    ≡ error cache_miss
get-clear_default_example =
    get-clear_default map_redis map_cache caching true 5 "auth" "t"
      (redis_cache (new_redis_cache "gateway" caching.ttl))
      (redis_cache (new_redis_cache "gateway:auth" (pos hour))) stored
      (get_cache-new_manager caching true "default") (get_cache-new_manager caching true "auth")

get-set_apart_example :
    get map_redis map_cache
      (redis_cache (new_redis_cache "gateway:auth" (pos hour)))
      all_answer
      9
      "t"
      (set map_redis map_cache
        (redis_cache (new_redis_cache "gateway:responses" (pos 60)))
        all_answer
        5
        "t"
        (2 ∷ [])
        (pos 60)
        stored).0
    ≡ get map_redis map_cache
        (redis_cache (new_redis_cache "gateway:auth" (pos hour)))
        all_answer
        9
        "t"
        stored
get-set_apart_example =
    get-set_apart map_redis map_cache (new_redis_cache "gateway:responses" (pos 60))
      (new_redis_cache "gateway:auth" (pos hour)) all_answer all_answer 5 9 "t" "t" (2 ∷ [])
      (pos 60) stored refl
