-- ===== src/LoadBalancer/Contract/Weighted.antt =====
-- The weighted balancer keeps the contract, whatever its weights.
use mathlib.Core.List.{map-append}
use mathlib.Core.Option
use apigateway_distributed_s.Base.{
  ℕ, ◌<◌, ◌≡◌, refl, sym, ap, ◌∙◌, none, some, List, [], ◌∷◌, String, arith, length, get_elem?, map,
  map-set, some_injective, get_elem?-map,
}
use apigateway_distributed_s.Base.Int.{ℤ, pos, ◌+ℤ◌, ◌-ℤ◌, int64}
use apigateway_distributed_s.LoadBalancer.Weighted
use apigateway_distributed_s.LoadBalancer.Weighted.{
  WeightedRoundRobin, WeightedTarget, raise, raise_all, lower_selected, pick_raised, next_pick,
}
use apigateway_distributed_s.LoadBalancer.Weighted.Scan.{select-IsHighest}
use apigateway_distributed_s.LoadBalancer.Weighted.Step.{next_pick_lem}
use apigateway_distributed_s.LoadBalancer.Target.{map-remove_first}
use apigateway_distributed_s.LoadBalancer.Laws.{IsLoadBalancer, AlwaysAnswers}

module _ {ℓ} {U : Type ℓ} where
  abbrev url : WeightedTarget U → U
  url t = t.url

  raise_all-url : (a : ℤ) (ts : List (WeightedTarget U)) → map url (raise_all a ts).1 ≡ map url ts
  unfolding raise_all
  raise_all-url a [] = refl
  raise_all-url a (t ∷ ts) = ap (◌∷◌ t.url) (raise_all-url (int64 (a +ℤ t.weight)) ts)

  -- What a call answers and leaves, on the list of URLs.
  picked :
      (a : ℤ) (t : WeightedTarget U) (ts : List (WeightedTarget U))
      → (j : ℕ) × (u : U) × ((pick_raised (a, t ∷ ts)).1 ≡ some (j, u))
        × (get_elem? (map url (t ∷ ts)) j ≡ some u)
        × (map url (pick_raised (a, t ∷ ts)).0.targets ≡ map url (t ∷ ts))
  unfolding lower_selected
  picked a t ts =
      let (j, b, found, is) = select-IsHighest t ts in
      (
        j,
        b.url,
        rw found refl,
        get_elem?-map url (t ∷ ts) j b is.there,
        rw found (
            map-set url (t ∷ ts) j b (record b { current_weight = int64 (b.current_weight -ℤ a) })
              is.there refl),
      )

  raise_cons :
      (a : ℤ) (t : WeightedTarget U) (ts : List (WeightedTarget U))
      → raise_all a (t ∷ ts) ≡ (
        (raise_all (int64 (a +ℤ t.weight)) ts).0,
        raise t ∷ (raise_all (int64 (a +ℤ t.weight)) ts).1,
      )
  unfolding raise_all
  raise_cons a t ts = refl

  next_target_lem :
      (wrr : WeightedRoundRobin U)
      → Weighted.next_target wrr ≡ ((next_pick wrr).0, Option.map (λ p. p.1) (next_pick wrr).1)
  unfolding Weighted.next_target
  next_target_lem wrr = refl

  next :
      (t : WeightedTarget U) (ts : List (WeightedTarget U))
      → (j : ℕ) × (u : U) × ((Weighted.next_target (record { targets = t ∷ ts })).1 ≡ some u)
        × (get_elem? (map url (t ∷ ts)) j ≡ some u)
        × (map url (Weighted.next_target (record { targets = t ∷ ts })).0.targets
            ≡ map url (t ∷ ts))
  next t ts =
      let rest = raise_all (int64 (pos 0 +ℤ t.weight)) ts in
      let same : map url (raise t ∷ rest.1) ≡ map url (t ∷ ts) =
        ap (◌∷◌ t.url) (raise_all-url (int64 (pos 0 +ℤ t.weight)) ts) in
      let (j, u, found, there, kept) = picked rest.0 (raise t) rest.1 in
      (
        j,
        u,
        rw
            (
              next_target_lem (record { targets = t ∷ ts }),
              next_pick_lem t ts,
              raise_cons (pos 0) t ts,
              found,
            )
            refl,
        rw same at there,
        rw
            (
              next_target_lem (record { targets = t ∷ ts }),
              next_pick_lem t ts,
              raise_cons (pos 0) t ts,
            )
            (kept ∙ same),
      )

  next_empty :
      Weighted.next_target {U = U} (record { targets = [] }) ≡ (record { targets = [] }, none)
  unfolding Weighted.next_target
  next_empty = refl

  keep_at :
      (ts : List (WeightedTarget U))
      → map url (Weighted.next_target (record { targets = ts })).0.targets ≡ map url ts
  keep_at [] = rw next_empty refl
  keep_at (t ∷ ts) = (next t ts).4

  member_at :
      (ts : List (WeightedTarget U)) (u : U)
      → (Weighted.next_target (record { targets = ts })).1 ≡ some u
      → (j : ℕ) × (get_elem? (map url ts) j ≡ some u)
  member_at [] u e = absurd (ground (arith, next_empty))
  member_at (t ∷ ts) u e =
      let (j, v, found, there, kept) = next t ts in
      (j, there ∙ ap some (some_injective v u (sym found ∙ e)))

  answers_at :
      (ts : List (WeightedTarget U))
      → 0 < length (map url ts)
      → (u : U) × ((Weighted.next_target (record { targets = ts })).1 ≡ some u)
  answers_at [] h = absurd (omega arith)
  answers_at (t ∷ ts) h = let (j, u, found, there, kept) = next t ts in (u, found)

  -- `WeightedRoundRobin` is a load balancer: it adds at the end, removes the first match, and
  -- answers one of its targets, and a call leaves the list of URLs as it is.
  pub weighted-IsLoadBalancer :
      (to_string : U → String)
      → IsLoadBalancer to_string Weighted.next_target Weighted.add_target
          (Weighted.remove_target to_string)
          Weighted.get_targets
  unfolding Weighted.get_targets Weighted.add_target Weighted.remove_target
  weighted-IsLoadBalancer to_string = record {
    add = λ s u. map-append url s.targets _;
    remove = λ s u. map-remove_first to_string url (to_string u) s.targets;
    keep = λ s. keep_at s.targets;
    member = λ s u. member_at s.targets u;
  }

  -- `WeightedRoundRobin` answers a target whenever it has one, whatever the weights.
  pub weighted-AlwaysAnswers : AlwaysAnswers {U = U} Weighted.next_target Weighted.get_targets
  unfolding Weighted.get_targets
  weighted-AlwaysAnswers = record { answers = λ s. answers_at s.targets }
