-- ===== src/LoadBalancer/Weighted/Totals.antt =====
-- The current weights of a weighted balancer after any number of calls, in sums over the targets
-- that pass a test.
use apigateway_distributed_s.Base.{
  ℕ, zero, suc, ◌+◌, ◌*◌, ◌<◌, ◌≡◌, refl, Bool, true, false, Option, none, some, List, [], ◌∷◌, ◌∙◌,
  arith, count_if, if◌then◌else◌,
}
use apigateway_distributed_s.LoadBalancer.Weighted.{WeightedTarget, WeightedRoundRobin, next_picks}
use apigateway_distributed_s.LoadBalancer.Weighted.Sums.{total, wt, up, down}
use apigateway_distributed_s.LoadBalancer.Weighted.Step.{
  Balanced, after, next_pick-Picks, total-after, total-wt-after, after-Balanced,
}

-- The sums before and after a call, and those after the calls that follow, put together.
sums_step :
    (b : Bool) (w c k x u₁ d₁ u d u₀ d₀ : ℕ)
    → u₁ + d + w * c ≡ d₁ + u + k * x
    → u + d₀ + (if b then w else 0) ≡ d + u₀ + x
    → u₁ + d₀ + w * (if b then suc c else c) ≡ d₁ + u₀ + suc k * x
sums_step true w c k x u₁ d₁ u d u₀ d₀ h e = omega arith
sums_step false w c k x u₁ d₁ u d u₀ d₀ h e = omega arith

module _ {ℓ} {U : Type ℓ} where
  -- Does an answer pass a test of position and URL?
  abbrev pub passes : (ℕ → U → Bool) → Option (ℕ × U) → Bool
  passes p none = false
  passes p (some (i, u)) = p i u

  abbrev pub served : (ℕ → U → Bool) → ℕ → WeightedRoundRobin U → ℕ
  served p k wrr = count_if (passes p) (next_picks k wrr).1

  -- After `k` calls the current weights that count in `p` are `k` times their weights, less `w`
  -- for each answer that passes.
  pub next_picks-total :
      (k : ℕ) (w : ℕ) (ts : List (WeightedTarget U))
      → 0 < w
      → Balanced w ts
      → Balanced w (next_picks k (record { targets = ts })).0.targets
        × ((p : ℕ → U → Bool)
            → let us = (next_picks k (record { targets = ts })).0.targets in
              (total p up us + total p down ts + w * served p k (record { targets = ts })
                ≡ total p down us + total p up ts + k * total p wt ts)
              × (total p wt us ≡ total p wt ts))
  unfolding next_picks
  next_picks-total zero w ts h v = (v, λ p. (omega arith, refl))
  next_picks-total (suc k) w [] h v = absurd (omega (arith, v.sum))
  next_picks-total (suc k) w (t ∷ ts) h v =
      let P = next_pick-Picks w t ts v in
      let us = after w (t ∷ ts) P.position P.best in
      let (still, rest) =
        next_picks-total k w us h (after-Balanced w (t ∷ ts) P.position P.best h v P.is_highest) in
      rw P.result (
        still,
        λ p.
            let same = total-wt-after w (t ∷ ts) P.position P.best p P.is_highest in
            (
              sums_step (p P.position P.best.url) w (served p k (record { targets = us })) k
                  (total p wt (t ∷ ts)) _ _ (total p up us) (total p down us) _ _
                  (rw same at (rest p).0)
                  (total-after w (t ∷ ts) P.position P.best p v P.is_highest),
              (rest p).1 ∙ same,
            ),
      )
