-- ===== src/LoadBalancer/Weighted/Sums.antt =====
-- Sums over the targets of a weighted balancer that pass a test of position and URL.
use apigateway_distributed_s.Base.{
  ℕ, zero, suc, ◌+◌, ◌*◌, ◌^◌, ◌<◌, ◌≤◌, length, ◌≡◌, refl, ◌⊎◌, inl, inr, Bool, true, false, some,
  List, [], ◌∷◌, map, arith, set, get_elem?, All, All-mono, if◌then◌else◌,
}
use apigateway_distributed_s.Base.Int.{
  ℤ, pos, negsuc, pos_part, neg_part, ◌+ℤ◌, +ℤ_parts, eq_of_parts,
}
use apigateway_distributed_s.LoadBalancer.Weighted.{WeightedTarget}

pub one_part-zero : (a : ℤ) → (pos_part a ≡ 0) ⊎ (neg_part a ≡ 0)
one_part-zero (pos n) = inr refl
one_part-zero (negsuc n) = inl refl

pub eq_of_parts-zero : (a : ℤ) → pos_part a ≡ 0 → neg_part a ≡ 0 → a ≡ pos 0
eq_of_parts-zero a h k = eq_of_parts a (pos 0) (omega arith)

module _ {ℓ} {U : Type ℓ} where
  abbrev pub lift : WeightedTarget U → WeightedTarget U
  lift t = record t { current_weight = t.current_weight +ℤ t.weight }

  -- What a target counts for in the test `p`.
  abbrev pub share : (ℕ → U → Bool) → (WeightedTarget U → ℕ) → ℕ → WeightedTarget U → ℕ
  share p f i t = if p i t.url then f t else 0

  abbrev pub total : (ℕ → U → Bool) → (WeightedTarget U → ℕ) → List (WeightedTarget U) → ℕ
  total p f [] = 0
  total p f (t ∷ ts) = share p f 0 t + total (λ i. p (suc i)) f ts

  pub total-set :
      (p : ℕ → U → Bool) (f : WeightedTarget U → ℕ) (ts : List (WeightedTarget U)) (i : ℕ)
      (t u : WeightedTarget U)
      → get_elem? ts i ≡ some t
      → total p f (set ts i u) + share p f i t ≡ total p f ts + share p f i u
  total-set p f [] i t u e = ground arith
  total-set p f (x ∷ ts) zero t u e = ground arith
  total-set p f (x ∷ ts) (suc i) t u e = omega (arith, total-set (λ j. p (suc j)) f ts i t u e)

  abbrev pub every : ℕ → U → Bool
  every i u = true

  abbrev pub wt : WeightedTarget U → ℕ
  wt t = pos_part t.weight

  abbrev pub up : WeightedTarget U → ℕ
  up t = pos_part t.current_weight

  abbrev pub down : WeightedTarget U → ℕ
  down t = neg_part t.current_weight

  -- The weight that the balancer distributes: what the code computes as `totalWeight`.
  abbrev pub whole : List (WeightedTarget U) → ℕ
  whole ts = total every wt ts

  abbrev pub IsWeighted : WeightedTarget U → Type 0
  IsWeighted t = (neg_part t.weight ≡ 0) × (0 < wt t)

  -- What a call adds to a target stays an int of 64 bits.
  abbrev pub Fits : WeightedTarget U → Type 0
  Fits t = (up (lift t) < 2 ^ 63) × (down (lift t) < 2 ^ 63)

  pub total-lift :
      (p : ℕ → U → Bool) (ts : List (WeightedTarget U))
      → All IsWeighted ts
      → total p up (map lift ts) + total p down ts
        ≡ total p down (map lift ts) + total p up ts + total p wt ts
  total-lift p [] v = refl
  total-lift p (t ∷ ts) v =
      ground (arith, total-lift (λ i. p (suc i)) ts v.1, +ℤ_parts t.current_weight t.weight)

  pub total-wt-lift :
      (p : ℕ → U → Bool) (ts : List (WeightedTarget U)) → total p wt (map lift ts) ≡ total p wt ts
  total-wt-lift p [] = refl
  total-wt-lift p (t ∷ ts) = omega (arith, total-wt-lift (λ i. p (suc i)) ts)

  pub total-eq-zero :
      (p : ℕ → U → Bool) (f : WeightedTarget U → ℕ) (ts : List (WeightedTarget U))
      → All (λ t. f t ≡ 0) ts
      → total p f ts ≡ 0
  total-eq-zero p f [] h = refl
  total-eq-zero p f (t ∷ ts) h = ground (arith, total-eq-zero (λ i. p (suc i)) f ts h.1)

  pub All-eq-zero :
      (f : WeightedTarget U → ℕ) (ts : List (WeightedTarget U))
      → total every f ts ≡ 0
      → All (λ t. f t ≡ 0) ts
  All-eq-zero f [] h = tt
  All-eq-zero f (t ∷ ts) h = (omega arith, All-eq-zero f ts (omega arith))

  pub total-le-length :
      (f : WeightedTarget U → ℕ) (w : ℕ) (ts : List (WeightedTarget U))
      → All (λ t. f t < w) ts
      → total every f ts ≤ length ts * w
  total-le-length f w [] h = omega arith
  total-le-length f w (t ∷ ts) h = grind (arith, total-le-length f w ts h.1, h.0)

  pub All-le-total :
      (f : WeightedTarget U → ℕ) (ts : List (WeightedTarget U))
      → All (λ t. f t ≤ total every f ts) ts
  All-le-total f [] = tt
  All-le-total f (t ∷ ts) = (
    omega arith,
    All-mono (λ u. f u ≤ total every f ts) (λ u. f u ≤ f t + total every f ts) ts
        (λ u h. omega (arith, h)) (All-le-total f ts),
  )

  -- The test of one position.
  abbrev pub at_position : ℕ → ℕ → U → Bool
  at_position zero zero u = true
  at_position zero (suc i) u = false
  at_position (suc j) zero u = false
  at_position (suc j) (suc i) u = at_position j i u

  total-none :
      (p : ℕ → U → Bool) (f : WeightedTarget U → ℕ) (ts : List (WeightedTarget U))
      → ((i : ℕ) (u : U) → p i u ≡ false)
      → total p f ts ≡ 0
  total-none p f [] h = refl
  total-none p f (t ∷ ts) h =
      ground (arith, h 0 t.url, total-none (λ i. p (suc i)) f ts (λ i. h (suc i)))

  pub total-at_position :
      (j : ℕ) (f : WeightedTarget U → ℕ) (ts : List (WeightedTarget U)) (t : WeightedTarget U)
      → get_elem? ts j ≡ some t
      → total (at_position j) f ts ≡ f t
  total-at_position j f [] t e = absurd (ground arith)
  total-at_position zero f (x ∷ ts) t e =
      ground (arith, total-none (λ i. at_position zero (suc i)) f ts (λ i u. refl))
  total-at_position (suc j) f (x ∷ ts) t e = omega (arith, total-at_position j f ts t e)
