-- ===== src/Cache/Redis.antt =====
-- `RedisCache` of internal/cache/redis_cache.go. Redis is a parameter, with the documented behaviour
-- of the commands that the cache sends. A flag says whether a command is answered: where it is
-- not, the method returns the error, and a second flag says whether Redis has carried the command
-- out all the same. The clock of Redis is in milliseconds,
-- and a duration in nanoseconds.
use Prim.Native.Char.{code}
use apigateway_distributed_s.Base.{
  ℕ, ◌+◌, ◌/◌, ◌<◌, ◌≡◌, Bool, true, false, not, ◌&&◌, ◌||◌, Option, none, some, List, [], ◌∷◌,
  String, concat, str_eq, ltb, ◌==◌, if◌then◌else◌,
}
use apigateway_distributed_s.Base.Int.{ℤ, pos, pos_part, ltb_ℤ}
use apigateway_distributed_s.Cache.{Bytes, cache_miss, redis_failed, Result, ok, error}
use apigateway_distributed_s.Cache.Memory.{ttl_or_default}

-- A text without the characters that a pattern of Redis gives a meaning.
abbrev pub is_plain : String → Bool
is_plain String.[] = true
is_plain (String.◌∷◌ c s) =
    not ((code c == b'*') || (code c == b'?') || (code c == b'[') || (code c == b'\\'))
    && is_plain s

abbrev pub starts_with : String → String → Bool
starts_with String.[] s = true
starts_with (String.◌∷◌ c p) String.[] = false
starts_with (String.◌∷◌ c p) (String.◌∷◌ d s) = (code c == code d) && starts_with p s

abbrev pub is_among : String → List String → Bool
is_among k [] = false
is_among k (j ∷ js) = str_eq j k || is_among k js

abbrev pub milliseconds : ℕ → ℕ
milliseconds n = n / 1000000

-- Documented: SET holds for the whole milliseconds of its expiration, or for ever if that is zero, and leaves the other keys;
-- DEL takes the keys it names; KEYS with a text and a star answers the keys that begin with the
-- text; EXISTS counts the keys it names that are there.
pub record RedisServer (R : Type 0) : Type 0 where
  pub get : ℕ → String → R → Option Bytes
  pub set : ℕ → String → Bytes → ℤ → R → R
  pub del : List String → R → R
  pub exists_count : ℕ → String → R → ℕ
  pub keys : ℕ → String → R → List String
  pub ttl : ℕ → String → R → ℤ
  pub get-set :
      (now later : ℕ) (k : String) (v : Bytes) (t : ℤ) (r : R)
      → ltb_ℤ (pos 0) t ≡ true
      → later < now + milliseconds (pos_part t)
      → get later k (set now k v t r) ≡ some v
  pub get-set_forever :
      (now later : ℕ) (k : String) (v : Bytes) (r : R)
      → get later k (set now k v (pos 0) r) ≡ some v
  pub get-set_other :
      (now later : ℕ) (k j : String) (v : Bytes) (t : ℤ) (r : R)
      → str_eq k j ≡ false
      → get later j (set now k v t r) ≡ get later j r
  pub get-del :
      (now : ℕ) (ks : List String) (k : String) (r : R)
      → get now k (del ks r) ≡ (if is_among k ks then none else get now k r)
  pub keys-star :
      (now : ℕ) (p k : String) (v : Bytes) (r : R)
      → is_plain p ≡ true
      → get now k r ≡ some v
      → is_among k (keys now (concat p "*") r) ≡ starts_with p k

pub record RedisCache : Type 0 where
  pub prefix : String
  pub default_ttl : ℤ

abbrev pub new_redis_cache : String → ℤ → RedisCache
new_redis_cache prefix default_ttl = record { prefix = prefix; default_ttl = default_ttl }

unfoldable pub build_key : RedisCache → String → String
build_key c key = if str_eq c.prefix "" then key else concat c.prefix (concat ":" key)

-- A reply of nil is a miss.
unfoldable pub value_or_miss : Option Bytes → Result Bytes
value_or_miss none = error cache_miss
value_or_miss (some v) = ok v

module _ {R : Type 0} (redis : RedisServer R) where
  -- What Redis is left as by a command, and the error of the reply.
  unfoldable pub command : Bool → Bool → R → R → R × Result Unit
  command true ran after before = (after, ok tt)
  command false ran after before = (if ran then after else before, error redis_failed)

  unfoldable pub get : RedisCache → Bool → ℕ → String → R → Result Bytes
  unfolding build_key value_or_miss
  get c false now key r = error redis_failed
  get c true now key r = value_or_miss (redis.get now (build_key c key) r)

  unfoldable pub set : RedisCache → Bool → Bool → ℕ → String → Bytes → ℤ → R → R × Result Unit
  unfolding build_key command
  set c up ran now key value ttl r =
      let stored = redis.set now (build_key c key) value (ttl_or_default c.default_ttl ttl) r in
      command up ran stored r

  unfoldable pub delete : RedisCache → Bool → Bool → String → R → R × Result Unit
  unfolding build_key command
  delete c up ran key r = command up ran (redis.del (build_key c key ∷ []) r) r

  unfoldable pub exists_key : RedisCache → Bool → ℕ → String → R → Result Bool
  unfolding build_key
  exists_key c false now key r = error redis_failed
  exists_key c true now key r = ok (ltb 0 (redis.exists_count now (build_key c key) r))

  -- The end of `Clear`, on the keys that were found; the flags are those of the DEL.
  unfoldable pub clear_keys : Bool → Bool → List String → R → R × Result Unit
  unfolding command
  clear_keys up ran [] r = (r, ok tt)
  clear_keys up ran (k ∷ ks) r = command up ran (redis.del (k ∷ ks) r) r

  -- The first flag is that of the KEYS, the others are those of the DEL.
  unfoldable pub clear : RedisCache → Bool → Bool → Bool → ℕ → R → R × Result Unit
  unfolding build_key clear_keys
  clear c false up ran now r = (r, error redis_failed)
  clear c true up ran now r = clear_keys up ran (redis.keys now (build_key c "*") r) r

  unfoldable pub get_ttl : RedisCache → Bool → ℕ → String → R → Result ℤ
  unfolding build_key
  get_ttl c false now key r = error redis_failed
  get_ttl c true now key r = ok (redis.ttl now (build_key c key) r)
