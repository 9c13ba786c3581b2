-- ===== src/LoadBalancer/Weighted/Step.antt =====
-- One call of the weighted balancer, and the invariant that it keeps.
use native.Mathlib.Decide.{dec_lt}
use apigateway_distributed_s.Base.{
  ℕ, suc, ◌+◌, ◌*◌, ◌^◌, ◌<◌, ◌≤◌, length, length-set, length-map, get_elem?, All-of_get_elem?, ◌≡◌,
  refl, ◌∙◌, Option, some, List, [], ◌∷◌, map, arith, set, All, All-mono, All-map, All-set,
  All-get_elem?, Bool, if◌then◌else◌,
}
use apigateway_distributed_s.Base.Int.{pos, ◌-ℤ◌, int64, int64-fits, +ℤ_parts, -ℤ_parts}
use apigateway_distributed_s.LoadBalancer.Weighted.{
  WeightedTarget, WeightedRoundRobin, raise_all, lower_selected, pick_raised, next_pick,
}
use apigateway_distributed_s.LoadBalancer.Weighted.Sums.{
  lift, Fits, total-le-length, All-le-total, total, every, wt, up, down, whole, IsWeighted,
  one_part-zero, total-set, total-lift, total-wt-lift, total-eq-zero,
}
use apigateway_distributed_s.LoadBalancer.Weighted.Scan.{
  IsHighest, raise_all-lift, select-IsHighest,
}

-- The invariant: positive weights, current weights that sum to zero, none of them at `-w` or below,
-- and room for all of it in an int of 64 bits.
pub record Balanced {ℓ} {U : Type ℓ} (w : ℕ) (ts : List (WeightedTarget U)) : Type 0 where
  pub weighted : All IsWeighted ts
  pub sum : whole ts ≡ w
  pub even : total every up ts ≡ total every down ts
  pub low : All (λ t. down t < w) ts
  pub room : suc (length ts) * w < 2 ^ 63

module _ {ℓ} {U : Type ℓ} where
  abbrev pub lower : ℕ → WeightedTarget U → WeightedTarget U
  lower w b = record b { current_weight = b.current_weight -ℤ pos w }

  -- What a call does: it raises all, and lowers the highest by the sum of the weights.
  pub record Picks (w : ℕ) (ts : List (WeightedTarget U))
      (r : WeightedRoundRobin U × Option (ℕ × U)) : Type ℓ where
    pub position : ℕ
    pub best : WeightedTarget U
    pub is_highest : IsHighest (map lift ts) position best
    pub result : r ≡ (
      record { targets = set (map lift ts) position (lower w best) },
      some (position, best.url),
    )

  pub next_pick_lem :
      (t : WeightedTarget U) (ts : List (WeightedTarget U))
      → next_pick (record { targets = t ∷ ts }) ≡ pick_raised (raise_all (pos 0) (t ∷ ts))
  unfolding next_pick
  next_pick_lem t ts = refl

  -- What a call adds fits: a current weight is at most the sum of those below zero.
  lift-Fits : (w : ℕ) (ts : List (WeightedTarget U)) → Balanced w ts → All Fits ts
  lift-Fits w ts v = All-of_get_elem? Fits ts (λ i t e.
      let low : down t < w = All-get_elem? (λ t. down t < w) ts i t v.low e in
      let weight : wt t ≤ whole ts =
        All-get_elem? (λ t. wt t ≤ whole ts) ts i t (All-le-total wt ts) e in
      let high : up t ≤ total every up ts =
        All-get_elem? (λ t. up t ≤ total every up ts) ts i t (All-le-total up ts) e in
      let positive : IsWeighted t = All-get_elem? IsWeighted ts i t v.weighted e in
      let sum : total every down ts ≤ length ts * w = total-le-length down w ts v.low in
      let bound : w + length ts * w < 2 ^ 63 = grind (arith, v.room) in
      let parts = +ℤ_parts t.current_weight t.weight in
      let one = one_part-zero (lift t).current_weight in
      let even = v.even in
      let all = v.sum in
      (
        omega (arith, parts, one, low, weight, high, positive.0, sum, bound, even, all),
        omega (arith, parts, one, low, weight, high, positive.0, sum, bound, even, all),
      ))

  -- The highest current weight is positive: the raised ones sum to `w`.
  best_pos :
      (w : ℕ) (ts : List (WeightedTarget U)) (j : ℕ) (b : WeightedTarget U)
      → 0 < w
      → Balanced w ts
      → IsHighest (map lift ts) j b
      → 0 < up b
  best_pos w ts j b h v high = elim (dec_lt 0 (up b)) [
    | yes p ↦ p
    | no p ↦
        let none_up : All (λ t. up t ≡ 0) (map lift ts) =
          All-mono _ _ (map lift ts) (λ t l. omega (arith, one_part-zero t.current_weight))
            high.highest in
        absurd (
          omega (
            arith,
            total-eq-zero every up (map lift ts) none_up,
            total-lift every ts v.weighted,
            v.even,
            v.sum,
          ))
  ]

  low-lift :
      (w : ℕ) (ts : List (WeightedTarget U))
      → All IsWeighted ts
      → All (λ t. down t < w) ts
      → All (λ t. down (lift t) < w) ts
  low-lift w [] v l = tt
  low-lift w (t ∷ ts) v l = (
    omega (arith, +ℤ_parts t.current_weight t.weight, one_part-zero (lift t).current_weight),
    low-lift w ts v.1 l.1,
  )

  lower-fits :
      (w : ℕ) (ts : List (WeightedTarget U)) (j : ℕ) (b : WeightedTarget U)
      → Balanced w ts
      → get_elem? (map lift ts) j ≡ some b
      → w + w < 2 ^ 63
      → int64 (b.current_weight -ℤ pos w) ≡ b.current_weight -ℤ pos w
  lower-fits w ts j b v there two =
      let high : up b < 2 ^ 63 =
        All-get_elem? (λ t. up t < 2 ^ 63) (map lift ts) j b
          (All-map (λ t. up t < 2 ^ 63) lift ts
            (All-mono Fits (λ t. up (lift t) < 2 ^ 63) ts (λ t f. f.0) (lift-Fits w ts v)))
          there in
      let low : down b < w =
        All-get_elem? (λ t. down t < w) (map lift ts) j b
          (All-map (λ t. down t < w) lift ts (low-lift w ts v.weighted v.low)) there in
      let parts = -ℤ_parts b.current_weight (pos w) in
      let one = one_part-zero (b.current_weight -ℤ pos w) in
      int64-fits (b.current_weight -ℤ pos w) (omega (arith, parts, one, high, low, two))
        (omega (arith, parts, one, high, low, two))

  pub next_pick-Picks :
      (w : ℕ) (t : WeightedTarget U) (ts : List (WeightedTarget U))
      → Balanced w (t ∷ ts)
      → Picks w (t ∷ ts) (next_pick (record { targets = t ∷ ts }))
  unfolding lower_selected
  next_pick-Picks w t ts v =
      let (j, b, found, high) = select-IsHighest (lift t) (map lift ts) in
      let sum : 0 + whole (t ∷ ts) ≡ w = omega (arith, v.sum) in
      let two : w + w < 2 ^ 63 = grind (arith, v.room) in
      let raised =
        raise_all-lift 0 (t ∷ ts) v.weighted (lift-Fits w (t ∷ ts) v) (omega (arith, sum, two)) in
      record {
        position = j;
        best = b;
        is_highest = high;
        result =
            rw (next_pick_lem t ts, raised, sum, found, lower-fits w (t ∷ ts) j b v high.there two)
              refl;
      }

  module _ (w : ℕ) (ts : List (WeightedTarget U)) (j : ℕ) (b : WeightedTarget U) where
    abbrev pub after : List (WeightedTarget U)
    after = set (map lift ts) j (lower w b)

    -- What a call does to the current weights that count in the test `p`.
    pub total-after :
        (p : ℕ → U → Bool)
        → Balanced w ts
        → IsHighest (map lift ts) j b
        → total p up after + total p down ts + (if p j b.url then w else 0)
          ≡ total p down after + total p up ts + total p wt ts
    total-after p v high = ground (
      arith,
      total-set p up (map lift ts) j b (lower w b) high.there,
      total-set p down (map lift ts) j b (lower w b) high.there,
      total-lift p ts v.weighted,
      -ℤ_parts b.current_weight (pos w),
    )

    pub total-wt-after :
        (p : ℕ → U → Bool) → IsHighest (map lift ts) j b → total p wt after ≡ total p wt ts
    total-wt-after p high =
        omega (arith, total-set p wt (map lift ts) j b (lower w b) high.there, total-wt-lift p ts)

    length-after : length after ≡ length ts
    length-after = length-set (map lift ts) j (lower w b) ∙ length-map lift ts

    pub after-Balanced : 0 < w → Balanced w ts → IsHighest (map lift ts) j b → Balanced w after
    after-Balanced h v high = record {
      weighted =
          All-set IsWeighted (map lift ts) j (lower w b) raised_weighted
            (All-get_elem? IsWeighted (map lift ts) j b raised_weighted high.there);
      sum = total-wt-after every high ∙ v.sum;
      even = omega (arith, total-after every v high, v.even, v.sum);
      low =
          All-set (λ t. down t < w) (map lift ts) j (lower w b)
            (All-map (λ t. down t < w) lift ts (low-lift w ts v.weighted v.low))
            (omega (
              arith,
              best_pos w ts j b h v high,
              -ℤ_parts b.current_weight (pos w),
              one_part-zero b.current_weight,
              one_part-zero (lower w b).current_weight,
            ));
      room = rw length-after v.room;
    }
      where
        raised_weighted : All IsWeighted (map lift ts)
        raised_weighted = All-map IsWeighted lift ts v.weighted
