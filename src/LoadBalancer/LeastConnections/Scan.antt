-- ===== src/LoadBalancer/LeastConnections/Scan.antt =====
-- The loop of `LeastConnections.NextTarget`: it finds a healthy target with the fewest connections,
-- if there is a healthy one.
use apigateway_distributed_s.Base.{
  ℕ, suc, ◌+◌, ◌≡◌, refl, sym, ap, ◌⊎◌, inl, inr, true, false, Option, none, some, List, [], ◌∷◌,
  arith, get_elem?, All, Bool-cases,
}
use apigateway_distributed_s.Base.Int.{◌≤ℤ◌, ltb_ℤ}
use apigateway_distributed_s.LoadBalancer.LeastConnections.{ConnectionTarget, consider, select}

module _ {ℓ} {U : Type ℓ} where
  abbrev pub IsUnhealthy : ConnectionTarget U → Type 0
  IsUnhealthy t = t.healthy ≡ false

  abbrev pub NoBusier : ConnectionTarget U → ConnectionTarget U → Type 0
  NoBusier b t = t.healthy ≡ true → b.connections ≤ℤ t.connections

  -- `b` is healthy, stands at `j`, and has the fewest connections of the healthy targets.
  pub record IsLeast (ts : List (ConnectionTarget U)) (j : ℕ) (b : ConnectionTarget U)
      : Type ℓ where
    pub there : get_elem? ts j ≡ some b
    pub alive : b.healthy ≡ true
    pub least : All (NoBusier b) ts

  consider_ill :
      (i : ℕ) (t : ConnectionTarget U) (s : Option (ℕ × ConnectionTarget U))
      → t.healthy ≡ false
      → consider i t s ≡ s
  unfolding consider
  consider_ill i t s h = rw h refl

  consider_first :
      (i : ℕ) (t : ConnectionTarget U) → t.healthy ≡ true → consider i t none ≡ some (i, t)
  unfolding consider
  consider_first i t h = ground arith

  consider_better :
      (i : ℕ) (t : ConnectionTarget U) (k : ℕ) (b : ConnectionTarget U)
      → t.healthy ≡ true
      → ltb_ℤ t.connections b.connections ≡ true
      → consider i t (some (k, b)) ≡ some (i, t)
  unfolding consider
  consider_better i t k b h e = ground arith

  consider_worse :
      (i : ℕ) (t : ConnectionTarget U) (k : ℕ) (b : ConnectionTarget U)
      → ltb_ℤ t.connections b.connections ≡ false
      → consider i t (some (k, b)) ≡ some (k, b)
  unfolding consider
  consider_worse i t k b e = ground arith

  select_from :
      (i : ℕ) (ts : List (ConnectionTarget U)) (k : ℕ) (b : ConnectionTarget U)
      → b.healthy ≡ true
      → (j : ℕ) × (c : ConnectionTarget U) × (select i (some (k, b)) ts ≡ some (j, c))
        × (c.connections ≤ℤ b.connections)
        × (c.healthy ≡ true)
        × All (NoBusier c) ts
        × (((j ≡ k) × (c ≡ b)) ⊎ ((m : ℕ) × (j ≡ i + m) × (get_elem? ts m ≡ some c)))
  unfolding select
  select_from i [] k b h = (k, b, refl, omega arith, h, tt, inl (refl, refl))
  select_from i (t ∷ ts) k b h = elim (Bool-cases t.healthy) [
    | inr ill ↦
        let (j, c, found, below, alive, all, from) = select_from (suc i) ts k b h in
        (
          j,
          c,
          rw (consider_ill i t (some (k, b)) ill) found,
          below,
          alive,
          ((λ e. cc), all),
          later i k ts j c b t from,
        )
    | inl well ↦ elim (Bool-cases (ltb_ℤ t.connections b.connections)) [
      | inl better ↦
          let (j, c, found, below, alive, all, from) = select_from (suc i) ts i t well in
          (
            j,
            c,
            rw (consider_better i t k b well better) found,
            ground arith,
            alive,
            ((λ _. below), all),
            elim from [
              | inl (e, f) ↦ inr (0, omega arith, ground arith)
              | inr (m, e, at_m) ↦ inr (suc m, omega arith, at_m)
            ],
          )
      | inr worse ↦
          let (j, c, found, below, alive, all, from) = select_from (suc i) ts k b h in
          (
            j,
            c,
            rw (consider_worse i t k b worse) found,
            below,
            alive,
            ((λ _. ground arith), all),
            later i k ts j c b t from,
          )
    ]
  ]
    where
      later :
          (i k : ℕ) (ts : List (ConnectionTarget U)) (j : ℕ) (c b t : ConnectionTarget U)
          → ((j ≡ k) × (c ≡ b)) ⊎ ((m : ℕ) × (j ≡ suc i + m) × (get_elem? ts m ≡ some c))
          → ((j ≡ k) × (c ≡ b)) ⊎ ((m : ℕ) × (j ≡ i + m) × (get_elem? (t ∷ ts) m ≡ some c))
      later i k ts j c b t (inl e) = inl e
      later i k ts j c b t (inr (m, e, at_m)) = inr (suc m, omega arith, at_m)

  -- Either every target is unhealthy and the loop finds none, or it finds a least one.
  pub select_cases_from :
      (i : ℕ) (ts : List (ConnectionTarget U))
      → ((select i none ts ≡ none) × All IsUnhealthy ts)
        ⊎ ((m : ℕ) × (b : ConnectionTarget U) × (select i none ts ≡ some (i + m, b))
            × IsLeast ts m b)
  unfolding select
  select_cases_from i [] = inl (refl, tt)
  select_cases_from i (t ∷ ts) = elim (Bool-cases t.healthy) [
    | inr ill ↦ elim (select_cases_from (suc i) ts) [
      | inl (found, all) ↦ inl (rw (consider_ill i t none ill) found, (ill, all))
      | inr (m, b, found, is) ↦
          let e : i + suc m ≡ suc i + m = omega arith in
          inr (
            suc m,
            b,
            rw (consider_ill i t none ill, e) found,
            record { there = is.there; alive = is.alive; least = ((λ w. cc), is.least) },
          )
    ]
    | inl well ↦
        let (j, c, found, below, alive, all, from) = select_from (suc i) ts i t well in
        elim from [
          | inl (e, f) ↦
              let e' : j ≡ i + 0 = omega arith in
              inr (
                0,
                c,
                rw (consider_first i t well, ← e') found,
                record { there = ap some (sym f); alive = alive; least = ((λ _. below), all) },
              )
          | inr (m, e, at_m) ↦
              let e' : j ≡ i + suc m = omega arith in
              inr (
                suc m,
                c,
                rw (consider_first i t well, ← e') found,
                record { there = at_m; alive = alive; least = ((λ _. below), all) },
              )
        ]
  ]
