-- ===== src/Cache/Memory.antt =====
-- `MemoryCache` of internal/cache/memory_cache.go. The library go-cache is a parameter: its cache
-- holds values of any type with the time at which they expire. `NewMemoryCache` ignores its size.
use mathlib.Core.Option
use apigateway_distributed_s.Base.{
  ℕ, ◌+◌, ◌≤◌, ◌<◌, ◌≡◌, Bool, true, false, Option, none, some, String, length, str_eq, ltb, ◌==◌,
  if◌then◌else◌, Dict,
}
use apigateway_distributed_s.Base.Int.{ℤ, pos, negsuc, pos_part, ltb_ℤ, sub_ℕ}
use apigateway_distributed_s.Cache.{Bytes, cache_miss, Result, ok, error}

-- A value of type `interface{}`: a byte slice, or something else.
pub data Any : Type 0 where
  bytes : Bytes → Any
  other : Any

-- Documented: a set with a duration above zero holds until that much later, one below zero
-- for ever; the other keys stay; a delete takes one key and a flush all.
pub record GoCache (C : Type 0) : Type 0 where
  pub new : ℤ → C
  pub get_with_expiration : ℕ → String → C → Option (Any × Option ℕ)
  pub get : ℕ → String → C → Option Any
  pub set : ℕ → String → Any → ℤ → C → C
  pub delete : String → C → C
  pub flush : C → C
  pub items : ℕ → C → Dict Any
  pub get-get_with_expiration :
      (now : ℕ) (k : String) (c : C)
      → get now k c ≡ Option.map (λ e. e.0) (get_with_expiration now k c)
  pub get-new : (d : ℤ) (now : ℕ) (k : String) → get_with_expiration now k (new d) ≡ none
  pub get-set :
      (now later : ℕ) (k : String) (v : Any) (t : ℤ) (c : C)
      → ltb_ℤ (pos 0) t ≡ true
      → later ≤ now + pos_part t
      → get_with_expiration later k (set now k v t c) ≡ some (v, some (now + pos_part t))
  pub get-set_late :
      (now later : ℕ) (k : String) (v : Any) (t : ℤ) (c : C)
      → ltb_ℤ (pos 0) t ≡ true
      → now + pos_part t < later
      → get_with_expiration later k (set now k v t c) ≡ none
  pub get-set_forever :
      (now later : ℕ) (k : String) (v : Any) (t : ℤ) (c : C)
      → ltb_ℤ t (pos 0) ≡ true
      → get_with_expiration later k (set now k v t c) ≡ some (v, none)
  pub get-set_other :
      (now later : ℕ) (k j : String) (v : Any) (t : ℤ) (c : C)
      → str_eq k j ≡ false
      → get_with_expiration later j (set now k v t c) ≡ get_with_expiration later j c
  pub get-delete :
      (now : ℕ) (k j : String) (c : C)
      → get_with_expiration now j (delete k c)
        ≡ (if str_eq k j then none else get_with_expiration now j c)
  pub get-flush : (now : ℕ) (k : String) (c : C) → get_with_expiration now k (flush c) ≡ none

pub record MemoryCache (C : Type 0) : Type 0 where
  pub cache : C
  pub default_ttl : ℤ

-- `value.([]byte)`
unfoldable pub bytes_of : Option Any → Result Bytes
bytes_of none = error cache_miss
bytes_of (some (bytes b)) = ok b
bytes_of (some other) = error cache_miss

unfoldable pub is_found : Option Any → Bool
is_found none = false
is_found (some v) = true

abbrev pub ttl_or_default : ℤ → ℤ → ℤ
ttl_or_default default_ttl (pos n) = if n == 0 then default_ttl else pos n
ttl_or_default default_ttl (negsuc n) = negsuc n

unfoldable pub ttl_left : ℕ → Option (Any × Option ℕ) → Result ℤ
ttl_left now none = error cache_miss
ttl_left now (some (v, none)) = ok (negsuc 0)
ttl_left now (some (v, some t)) = if ltb t now then ok (pos 0) else ok (sub_ℕ t now)

module _ {C : Type 0} (go_cache : GoCache C) where
  unfoldable pub new_memory_cache : ℤ → ℤ → MemoryCache C
  new_memory_cache max_size default_ttl = record {
    cache = go_cache.new default_ttl;
    default_ttl = default_ttl;
  }

  unfoldable pub get : ℕ → String → MemoryCache C → Result Bytes
  unfolding bytes_of
  get now key m = bytes_of (go_cache.get now key m.cache)

  unfoldable pub set : ℕ → String → Bytes → ℤ → MemoryCache C → MemoryCache C
  set now key value ttl m = record m {
    cache = go_cache.set now key (bytes value) (ttl_or_default m.default_ttl ttl) m.cache;
  }

  unfoldable pub delete : String → MemoryCache C → MemoryCache C
  delete key m = record m { cache = go_cache.delete key m.cache }

  unfoldable pub exists_key : ℕ → String → MemoryCache C → Bool
  unfolding is_found
  exists_key now key m = is_found (go_cache.get now key m.cache)

  unfoldable pub clear : MemoryCache C → MemoryCache C
  clear m = record m { cache = go_cache.flush m.cache }

  unfoldable pub get_ttl : ℕ → String → MemoryCache C → Result ℤ
  unfolding ttl_left
  get_ttl now key m = ttl_left now (go_cache.get_with_expiration now key m.cache)

  -- The number of items and the default duration.
  unfoldable pub get_stats : ℕ → MemoryCache C → ℕ × ℤ
  get_stats now m = (length (go_cache.items now m.cache), m.default_ttl)
