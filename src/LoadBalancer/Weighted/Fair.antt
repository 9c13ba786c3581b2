-- ===== src/LoadBalancer/Weighted/Fair.antt =====
-- Weighted round robin is fair: over one cycle, as many calls as the weights sum to, each target is
-- answered as often as its weight says, and the balancer is back where it started.
use native.Mathlib.Decide.{dec_lt}
use apigateway_distributed_s.Base.{
  ℕ, zero, suc, ◌+◌, ◌*◌, ◌^◌, length, ◌<◌, ◌≡◌, refl, ◌⊎◌, Bool, Option, List, [], ◌∷◌, ◌∙◌, sym,
  ap, map, arith, All, All-mono, All-get_elem?, All-of_get_elem?, count_if, map-set,
}
use apigateway_distributed_s.Base.Int.{ℤ, pos, pos_part, neg_part}
use apigateway_distributed_s.LoadBalancer.Weighted.{
  WeightedTarget, WeightedRoundRobin, weigh, weight_or_default, new_weighted_round_robin,
  next_picks,
}
use apigateway_distributed_s.LoadBalancer.Weighted.Sums.{
  total, every, at_position, wt, up, down, whole, lift, IsWeighted, one_part-zero, total-eq-zero,
  All-eq-zero, total-at_position, eq_of_parts-zero,
}
use apigateway_distributed_s.LoadBalancer.Weighted.Step.{
  Balanced, lower, next_pick-Picks, after-Balanced,
}
use apigateway_distributed_s.LoadBalancer.Weighted.Configured.{
  configured, shares, total-weigh, length-weigh,
}
use apigateway_distributed_s.LoadBalancer.Weighted.Totals.{passes, served, next_picks-total}

-- A multiple of `w` that is above `-w` is not negative.
down-zero : (w c x u d : ℕ) → (u ≡ 0) ⊎ (d ≡ 0) → d < w → u + w * c ≡ d + w * x → d ≡ 0
down-zero w c x u d one low e = elim (dec_lt x c) [
  | yes p ↦ absurd (grind arith)
  | no p ↦ grind arith
]

count_of_product : (w c x : ℕ) → 0 < w → w * c ≡ w * x → c ≡ x
count_of_product w c x h e = elim (dec_lt c x) [
  | yes p ↦ absurd (grind arith)
  | no p ↦ elim (dec_lt x c) [ yes q ↦ absurd (grind arith) | no q ↦ omega arith ]
]

module _ {ℓ} {U : Type ℓ} where
  abbrev IsFresh : WeightedTarget U → Type 0
  IsFresh t = IsWeighted t × (t.current_weight ≡ pos 0)

  abbrev statics : WeightedTarget U → U × ℤ
  statics t = (t.url, t.weight)

  weigh-IsFresh : (urls : List U) (ws : List ℤ) → All IsFresh (weigh urls ws)
  unfolding weigh weight_or_default
  weigh-IsFresh [] ws = tt
  weigh-IsFresh (url ∷ urls) [] = (((refl, omega arith), refl), weigh-IsFresh urls [])
  weigh-IsFresh (url ∷ urls) (w ∷ ws) = (
    ((ground (arith, one_part-zero w), ground (arith, one_part-zero w)), refl),
    weigh-IsFresh urls ws,
  )

  IsFresh-Balanced :
      (ts : List (WeightedTarget U))
      → 0 < whole ts
      → All IsFresh ts
      → suc (length ts) * whole ts < 2 ^ 63
      → Balanced (whole ts) ts
  IsFresh-Balanced ts h v room =
      let no_up =
        total-eq-zero every up ts
          (All-mono IsFresh (λ t. up t ≡ 0) ts (λ t f. ap pos_part f.1) v) in
      let no_down =
        total-eq-zero every down ts
          (All-mono IsFresh (λ t. down t ≡ 0) ts (λ t f. ap neg_part f.1) v) in
      record {
        weighted = All-mono IsFresh IsWeighted ts (λ t f. f.0) v;
        sum = refl;
        even = no_up ∙ sym no_down;
        low =
            All-mono IsFresh (λ t. down t < whole ts) ts
              (λ t f. let e : down t ≡ 0 = ap neg_part f.1 in omega arith) v;
        room = room;
      }

  lift-statics : (ts : List (WeightedTarget U)) → map statics (map lift ts) ≡ map statics ts
  lift-statics [] = refl
  lift-statics (t ∷ ts) = ap (◌∷◌ (statics t)) (lift-statics ts)

  -- No call changes a URL or a weight.
  next_picks-statics :
      (k w : ℕ) (ts : List (WeightedTarget U))
      → 0 < w
      → Balanced w ts
      → map statics (next_picks k (record { targets = ts })).0.targets ≡ map statics ts
  unfolding next_picks
  next_picks-statics zero w ts h v = refl
  next_picks-statics (suc k) w [] h v = absurd (omega (arith, v.sum))
  next_picks-statics (suc k) w (t ∷ ts) h v =
      let P = next_pick-Picks w t ts v in
      rw P.result (
        next_picks-statics k w _ h (after-Balanced w (t ∷ ts) P.position P.best h v P.is_highest)
        ∙ map-set statics (map lift (t ∷ ts)) P.position P.best (lower w P.best) P.is_highest.there
            refl
        ∙ lift-statics (t ∷ ts))

  eq_of_statics :
      (us ts : List (WeightedTarget U))
      → map statics us ≡ map statics ts
      → All (λ t. t.current_weight ≡ pos 0) us
      → All (λ t. t.current_weight ≡ pos 0) ts
      → us ≡ ts
  eq_of_statics [] [] e h k = refl
  eq_of_statics [] (t ∷ ts) e h k = cc
  eq_of_statics (u ∷ us) [] e h k = cc
  eq_of_statics (u ∷ us) (t ∷ ts) e h k =
      let rest : us ≡ ts = eq_of_statics us ts (ground arith) h.1 k.1 in
      ground (arith, rest, h.0, k.0)

  module _ (ts : List (WeightedTarget U)) (h : 0 < whole ts) (v : All IsFresh ts)
      (room : suc (length ts) * whole ts < 2 ^ 63) where
    abbrev cycle : WeightedRoundRobin U × List (Option (ℕ × U))
    cycle = next_picks (whole ts) (record { targets = ts })

    no_up : (p : ℕ → U → Bool) → total p up ts ≡ 0
    no_up p = total-eq-zero p up ts (All-mono IsFresh (λ t. up t ≡ 0) ts (λ t f. ap pos_part f.1) v)

    no_down : (p : ℕ → U → Bool) → total p down ts ≡ 0
    no_down p =
        total-eq-zero p down ts (All-mono IsFresh (λ t. down t ≡ 0) ts (λ t f. ap neg_part f.1) v)

    ends_Balanced : Balanced (whole ts) cycle.0.targets
    ends_Balanced = (next_picks-total (whole ts) (whole ts) ts h (IsFresh-Balanced ts h v room)).0

    ends_total :
        (p : ℕ → U → Bool)
        → total p up cycle.0.targets + whole ts * served p (whole ts) (record { targets = ts })
          ≡ total p down cycle.0.targets + whole ts * total p wt ts
    ends_total p = omega (
      arith,
      ((next_picks-total (whole ts) (whole ts) ts h (IsFresh-Balanced ts h v room)).1 p).0,
      no_up p,
      no_down p,
    )

    ends_down : All (λ t. down t ≡ 0) cycle.0.targets
    ends_down =
        All-of_get_elem? (λ t. down t ≡ 0) cycle.0.targets
          λ i t e.
            down-zero (whole ts) (served (at_position i) (whole ts) (record { targets = ts }))
              (total (at_position i) wt ts) (up t) (down t) (one_part-zero t.current_weight)
              (All-get_elem? (λ t. down t < whole ts) cycle.0.targets i t ends_Balanced.low e)
              (rw
                (
                  ← total-at_position i up cycle.0.targets t e,
                  ← total-at_position i down cycle.0.targets t e,
                )
                (ends_total (at_position i)))

    ends_up : All (λ t. up t ≡ 0) cycle.0.targets
    ends_up =
        All-eq-zero up cycle.0.targets
          (ends_Balanced.even ∙ total-eq-zero every down cycle.0.targets ends_down)

    -- After a cycle every current weight is zero again.
    ends_zero : All (λ t. t.current_weight ≡ pos 0) cycle.0.targets
    ends_zero =
        All-of_get_elem? (λ t. t.current_weight ≡ pos 0) cycle.0.targets
          λ i t e.
            eq_of_parts-zero t.current_weight
              (All-get_elem? (λ t. up t ≡ 0) cycle.0.targets i t ends_up e)
              (All-get_elem? (λ t. down t ≡ 0) cycle.0.targets i t ends_down e)

    cycle_fair :
        (cycle.0 ≡ record { targets = ts })
        × ((p : ℕ → U → Bool) → count_if (passes p) cycle.1 ≡ total p wt ts)
    cycle_fair = (
      ap (λ us. record { targets = us })
          (eq_of_statics cycle.0.targets ts
            (next_picks-statics (whole ts) (whole ts) ts h (IsFresh-Balanced ts h v room)) ends_zero
            (All-mono IsFresh (λ t. t.current_weight ≡ pos 0) ts (λ t f. f.1) v)),
      λ p. count_of_product (whole ts) _ (total p wt ts) h (
          omega (
            arith,
            ends_total p,
            total-eq-zero p up cycle.0.targets ends_up,
            total-eq-zero p down cycle.0.targets ends_down,
          )),
    )

  no_target_fair :
      (ts : List (WeightedTarget U))
      → whole ts ≡ 0
      → All IsFresh ts
      → (next_picks (whole ts) (record { targets = ts }) ≡ (record { targets = ts }, []))
        × ((p : ℕ → U → Bool) → 0 ≡ total p wt ts)
  unfolding next_picks
  no_target_fair [] e v = (refl, λ p. refl)
  no_target_fair (t ∷ ts) e v = absurd (omega arith)

  -- A balancer built from any URLs and weights, where the sum of the weights fits 64 bits as often as
  -- there are targets and once more, and called as often as the weights sum to, is back in its first
  -- state; and for every test of a target's position and URL the answers that pass it are as many as
  -- the configured weights of the targets that pass it: each target is answered as often as its
  -- weight says, which is 1 where no positive weight is configured.
  pub next_picks-fair :
      (urls : List U) (weights : List ℤ) (p : ℕ → U → Bool)
      → suc (length urls) * shares every urls (configured weights) < 2 ^ 63
      → let wrr = new_weighted_round_robin urls weights in
        let r = next_picks (shares every urls (configured weights)) wrr in
        (r.0 ≡ wrr) × (count_if (passes p) r.1 ≡ shares p urls (configured weights))
  unfolding new_weighted_round_robin
  next_picks-fair urls weights p room =
      let ts = weigh urls weights in
      let v = weigh-IsFresh urls weights in
      let room' : suc (length ts) * whole ts < 2 ^ 63 =
        rw (length-weigh urls weights, total-weigh every urls weights) room in
      rw (← total-weigh every urls weights, ← total-weigh p urls weights)
        (elim (dec_lt 0 (whole ts)) [
          | yes h ↦ (let r = cycle_fair ts h v room' in (r.0, r.1 p))
          | no h ↦ (let r = no_target_fair ts (omega arith) v in rw r.0 (refl, r.1 p))
        ])
