-- ===== src/LoadBalancer/Weighted/Scan.antt =====
-- The two loops of the weighted balancer's `NextTarget`.
use native.Mathlib.Nat.{add-zero, add_assoc}
use apigateway_distributed_s.Base.{
  ℕ, suc, ◌+◌, ◌^◌, ◌<◌, ◌≡◌, refl, ◌⊎◌, inl, inr, none, some, List, [], ◌∷◌, map, arith, get_elem?,
  All, Bool-cases,
}
use apigateway_distributed_s.Base.Int.{
  ℤ, pos, pos_part, neg_part, ◌+ℤ◌, ◌≤ℤ◌, ltb_ℤ, int64, int64-fits, +ℤ_parts, eq_of_parts,
}
use apigateway_distributed_s.LoadBalancer.Weighted.{WeightedTarget, raise_all, select}
use apigateway_distributed_s.LoadBalancer.Weighted.Sums.{
  lift, wt, whole, IsWeighted, Fits, one_part-zero,
}

add_weight :
    (a : ℕ) (w : ℤ)
    → neg_part w ≡ 0
    → a + pos_part w < 2 ^ 63
    → int64 (pos a +ℤ w) ≡ pos (a + pos_part w)
add_weight a w h k =
    let sum : pos a +ℤ w ≡ pos (a + pos_part w) =
      eq_of_parts _ _ (omega (arith, +ℤ_parts (pos a) w, one_part-zero (pos a +ℤ w))) in
    rw sum (int64-fits (pos (a + pos_part w)) k (omega arith))

module _ {ℓ} {U : Type ℓ} where
  pub raise_all-lift :
      (a : ℕ) (ts : List (WeightedTarget U))
      → All IsWeighted ts
      → All Fits ts
      → a + whole ts < 2 ^ 63
      → raise_all (pos a) ts ≡ (pos (a + whole ts), map lift ts)
  unfolding raise_all
  raise_all-lift a [] v f h = rw add-zero refl
  raise_all-lift a (t ∷ ts) v f h =
      rw
        (
          add_weight a t.weight v.0.0 (omega (arith, h)),
          int64-fits (t.current_weight +ℤ t.weight) f.0.0 f.0.1,
          raise_all-lift (a + wt t) ts v.1 f.1 (omega (arith, h)),
          add_assoc a (wt t) (whole ts),
        )
        refl

  -- `b` is the target at `j`, with the highest current weight.
  pub record IsHighest (ts : List (WeightedTarget U)) (j : ℕ) (b : WeightedTarget U) : Type ℓ where
    pub there : get_elem? ts j ≡ some b
    pub highest : All (λ t. t.current_weight ≤ℤ b.current_weight) ts

  select_from :
      (i : ℕ) (ts : List (WeightedTarget U)) (k : ℕ) (b : WeightedTarget U)
      → (j : ℕ) × (c : WeightedTarget U) × (select i (some (k, b)) ts ≡ some (j, c))
        × (b.current_weight ≤ℤ c.current_weight)
        × All (λ t. t.current_weight ≤ℤ c.current_weight) ts
        × (((j ≡ k) × (c ≡ b)) ⊎ ((m : ℕ) × (j ≡ i + m) × (get_elem? ts m ≡ some c)))
  unfolding select
  select_from i [] k b = (k, b, refl, omega arith, tt, inl (refl, refl))
  select_from i (t ∷ ts) k b = elim (Bool-cases (ltb_ℤ b.current_weight t.current_weight)) [
    | inl better ↦
        let (j, c, found, above, all, from) = select_from (suc i) ts i t in
        (
          j,
          c,
          rw better found,
          ground arith,
          (above, all),
          elim from [
            | inl (e, f) ↦ inr (0, omega arith, ground arith)
            | inr (m, e, at_m) ↦ inr (suc m, omega arith, at_m)
          ],
        )
    | inr worse ↦
        let (j, c, found, above, all, from) = select_from (suc i) ts k b in
        (
          j,
          c,
          rw worse found,
          above,
          (ground arith, all),
          elim from [ inl e ↦ inl e | inr (m, e, at_m) ↦ inr (suc m, omega arith, at_m) ],
        )
  ]

  pub select-IsHighest :
      (t : WeightedTarget U) (ts : List (WeightedTarget U))
      → (j : ℕ) × (b : WeightedTarget U) × (select 0 none (t ∷ ts) ≡ some (j, b))
        × IsHighest (t ∷ ts) j b
  unfolding select
  select-IsHighest t ts =
      let (j, c, found, above, all, from) = select_from 1 ts 0 t in
      (
        j,
        c,
        found,
        record {
          there = elim from [
            | inl (e, f) ↦ rw (e, f) refl
            | inr (m, e, at_m) ↦ let e' : j ≡ suc m = omega arith in rw e' at_m
          ];
          highest = (above, all);
        },
      )
