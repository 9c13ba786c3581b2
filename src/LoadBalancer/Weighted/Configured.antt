-- ===== src/LoadBalancer/Weighted/Configured.antt =====
-- The weights that a weighted balancer is configured with, by position, and what its constructor
-- makes of them.
use apigateway_distributed_s.Base.{
  ℕ, suc, ◌+◌, ◌≡◌, refl, ap, inl, inr, Bool, Bool-cases, none, some, List, [], ◌∷◌, length,
  get_elem?, if◌then◌else◌,
}
use apigateway_distributed_s.Base.Int.{ℤ, pos, pos_part, ltb_ℤ}
use apigateway_distributed_s.LoadBalancer.Weighted.{weigh, weight_or_default}
use apigateway_distributed_s.LoadBalancer.Weighted.Sums.{total, wt}

-- The weight that the target at a position is configured with: its entry of `weights`, or 1 where
-- there is none or it is not positive.
abbrev pub configured : List ℤ → ℕ → ℕ
configured weights i = elim (get_elem? weights i) [
  | none ↦ 1
  | some w ↦ if ltb_ℤ (pos 0) w then pos_part w else 1
]

module _ {ℓ} {U : Type ℓ} where
  -- The weights of the targets that pass a test of position and URL, summed.
  abbrev pub shares : (ℕ → U → Bool) → List U → (ℕ → ℕ) → ℕ
  shares p [] weight = 0
  shares p (u ∷ urls) weight =
      (if p 0 u then weight 0 else 0) + shares (λ i. p (suc i)) urls (λ i. weight (suc i))

  pub total-weigh :
      (p : ℕ → U → Bool) (urls : List U) (ws : List ℤ)
      → total p wt (weigh urls ws) ≡ shares p urls (configured ws)
  unfolding weigh weight_or_default
  total-weigh p [] ws = refl
  total-weigh p (u ∷ urls) [] =
      ap (λ n. (if p 0 u then 1 else 0) + n) (total-weigh (λ i. p (suc i)) urls [])
  total-weigh p (u ∷ urls) (w ∷ ws) = elim (Bool-cases (ltb_ℤ (pos 0) w)) [
    | inl e ↦
        rw e
          (ap (λ n. (if p 0 u then pos_part w else 0) + n) (total-weigh (λ i. p (suc i)) urls ws))
    | inr e ↦ rw e (ap (λ n. (if p 0 u then 1 else 0) + n) (total-weigh (λ i. p (suc i)) urls ws))
  ]

  pub length-weigh : (urls : List U) (ws : List ℤ) → length (weigh urls ws) ≡ length urls
  unfolding weigh
  length-weigh [] ws = refl
  length-weigh (u ∷ urls) ws = ap suc (length-weigh urls (weight_or_default ws).1)
