-- ===== src/Cache/Manager/Apart.antt =====
-- When the entries of one Redis cache are out of reach of another.
use Prim.Native.Char.{code}
use text.Mathlib.TextLemmas.{cons-append}
use apigateway_distributed_s.Base.{
  ℕ, ◌≡◌, refl, ap, inl, inr, Bool, true, false, String, concat, str_eq, if◌then◌else◌, Bool-cases,
  arith, eq_iff, ◌==◌,
}
use apigateway_distributed_s.Base.Int.{ℤ}
use apigateway_distributed_s.Cache.{Bytes}
use apigateway_distributed_s.Cache.Memory.{GoCache, ttl_or_default}
use apigateway_distributed_s.Cache.Redis as Redis
use apigateway_distributed_s.Cache.Redis.{
  RedisServer, RedisCache, milliseconds, build_key, command, value_or_miss, starts_with,
}
use apigateway_distributed_s.Cache.Manager.{redis_cache, Network, Store, get, set}
use apigateway_distributed_s.Cache.Manager.Clears.{starts_with-concat}

-- The two texts have different characters at some place.
abbrev pub diverge : String → String → Bool
diverge String.[] q = false
diverge (String.◌∷◌ c p) String.[] = false
diverge (String.◌∷◌ c p) (String.◌∷◌ d q) = if code c == code d then diverge p q else true

starts_with-diverge : (p q s : String) → diverge p q ≡ true → starts_with p (concat q s) ≡ false
starts_with-diverge String.[] q s h = absurd (ground arith)
starts_with-diverge (String.◌∷◌ c p) String.[] s h = absurd (ground arith)
starts_with-diverge (String.◌∷◌ c p) (String.◌∷◌ d q) s h =
    rw (cons-append d q s) (elim (Bool-cases (code c == code d)) [
      | inl e ↦ rw e (starts_with-diverge p q s (ground arith))
      | inr e ↦ rw e refl
    ])

concat-diverge : (p q s t : String) → diverge p q ≡ true → str_eq (concat p s) (concat q t) ≡ false
concat-diverge p q s t h = elim (Bool-cases (str_eq (concat p s) (concat q t))) [
  | inr e ↦ e
  | inl e ↦
      let same = ap (starts_with p) ((eq_iff (concat p s) (concat q t)).0 e) in
      absurd (ground (arith, starts_with-concat p s, starts_with-diverge p q t h))
]

diverge_empty : (p : String) → diverge p "" ≡ false
diverge_empty String.[] = refl
diverge_empty (String.◌∷◌ c p) = refl

build_key-diverge :
    (c d : RedisCache) (k j : String)
    → diverge c.prefix d.prefix ≡ true
    → str_eq (build_key c k) (build_key d j) ≡ false
unfolding build_key
build_key-diverge c d k j h =
    let c_full : str_eq c.prefix "" ≡ false = elim (Bool-cases (str_eq c.prefix "")) [
      | inr e ↦ e
      | inl e ↦ absurd (ground (arith, ap (λ p. diverge p d.prefix) ((eq_iff c.prefix "").0 e)))
    ] in
    let d_full : str_eq d.prefix "" ≡ false = elim (Bool-cases (str_eq d.prefix "")) [
      | inr e ↦ e
      | inl e ↦
          absurd (
            ground
              (arith, diverge_empty c.prefix, ap (diverge c.prefix) ((eq_iff d.prefix "").0 e)))
    ] in
    rw (c_full, d_full) (concat-diverge c.prefix d.prefix (concat ":" k) (concat ":" j) h)

-- A `Set` in one Redis cache, answered or not, changes nothing that another reads, now or later, if
-- their prefixes have different characters at some place.
pub get-set_apart :
    {R C : Type 0} (redis : RedisServer R) (go_cache : GoCache C) (c d : RedisCache)
    (up up' : Network) (now later : ℕ) (k j : String) (v : Bytes) (t : ℤ) (s : Store R C)
    → diverge c.prefix d.prefix ≡ true
    → get redis go_cache
        (redis_cache d)
        up'
        later
        j
        (set redis go_cache (redis_cache c) up now k v t s).0
      ≡ get redis go_cache (redis_cache d) up' later j s
unfolding get set Redis.get Redis.set command
get-set_apart redis go_cache c d up up' now later k j v t s h =
    let other = ap value_or_miss (
      redis.get-set_other (milliseconds now) (milliseconds later) (build_key c k) (build_key d j) v
        (ttl_or_default c.default_ttl t) s.redis (build_key-diverge c d k j h)) in
    elim (Bool-cases up'.first) [
      | inr e ↦ rw e refl
      | inl e ↦ elim (Bool-cases up.first) [
        | inr f ↦ elim (Bool-cases up.ran) [
          | inr g ↦ rw (e, f, g) refl
          | inl g ↦ rw (e, f, g) other
        ]
        | inl f ↦ rw (e, f) other
      ]
    ]
