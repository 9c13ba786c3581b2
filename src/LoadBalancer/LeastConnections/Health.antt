-- ===== src/LoadBalancer/LeastConnections/Health.antt =====
-- The health marks of `LeastConnections`, which `HealthChecker` asks for.
use apigateway_distributed_s.Base.{
  ◌≡◌, refl, ◌∙◌, inl, inr, Bool, true, false, some, List, [], ◌∷◌, String, arith, All,
  All-get_elem?, str_eq, eq_iff, if◌then◌else◌, Bool-cases, some_injective,
}
use apigateway_distributed_s.LoadBalancer.Target.{Distinct, update_first}
use apigateway_distributed_s.LoadBalancer.LeastConnections.{
  ConnectionTarget, LeastConnections, next_target, mark_healthy, mark_unhealthy, health_of,
  is_healthy,
}
use apigateway_distributed_s.LoadBalancer.LeastConnections.Least.{next_target-IsLeast}

module _ {ℓ} {U : Type ℓ} (to_string : U → String) where
  abbrev url_of : ConnectionTarget U → String
  url_of t = to_string t.url

  -- Does a target print this URL?
  abbrev pub is_known : String → List (ConnectionTarget U) → Bool
  is_known target [] = false
  is_known target (t ∷ ts) = if str_eq (to_string t.url) target then true else is_known target ts

  abbrev marked : Bool → ConnectionTarget U → ConnectionTarget U
  marked h t = record t { healthy = h }

  health-update :
      (h : Bool) (target other : String) (ts : List (ConnectionTarget U))
      → health_of to_string other (update_first url_of target (marked h) ts) ≡ (
          if str_eq target other
          then (if is_known target ts then h else false)
          else health_of to_string other ts)
  unfolding health_of update_first
  health-update h target other [] = ground (arith, eq_iff target other)
  health-update h target other (t ∷ ts) = ground (
    arith,
    eq_iff target other,
    eq_iff (to_string t.url) target,
    eq_iff (to_string t.url) other,
    health-update h target other ts,
  )

  -- `MarkHealthy` makes its target healthy if the balancer has it, and changes no other's health.
  pub is_healthy-mark_healthy :
      (lc : LeastConnections U) (u v : U)
      → is_healthy to_string (mark_healthy to_string lc u) v ≡ (
          if str_eq (to_string u) (to_string v)
          then is_known (to_string u) lc.targets
          else is_healthy to_string lc v)
  unfolding is_healthy mark_healthy
  is_healthy-mark_healthy lc u v =
      health-update true (to_string u) (to_string v) lc.targets ∙ ground arith

  -- `MarkUnhealthy` makes its target unhealthy, and changes no other's health.
  pub is_healthy-mark_unhealthy :
      (lc : LeastConnections U) (u v : U)
      → is_healthy to_string (mark_unhealthy to_string lc u) v
        ≡ (if str_eq (to_string u) (to_string v) then false else is_healthy to_string lc v)
  unfolding is_healthy mark_unhealthy
  is_healthy-mark_unhealthy lc u v =
      health-update false (to_string u) (to_string v) lc.targets ∙ ground arith

  -- Every target with this URL is unhealthy.
  abbrev IsDown : String → ConnectionTarget U → Type 0
  IsDown target t = str_eq (url_of t) target ≡ true → t.healthy ≡ false

  others-IsDown :
      (s target : String) (ts : List (ConnectionTarget U))
      → str_eq s target ≡ true
      → All (λ u. str_eq s (url_of u) ≡ false) ts
      → All (IsDown target) ts
  others-IsDown s target [] e d = tt
  others-IsDown s target (t ∷ ts) e d = (
    λ h.
        absurd
          (ground (arith, eq_iff s target, eq_iff (url_of t) target, eq_iff s (url_of t), d.0)),
    others-IsDown s target ts e d.1,
  )

  update-IsDown :
      (target : String) (ts : List (ConnectionTarget U))
      → Distinct url_of ts
      → All (IsDown target) (update_first url_of target (marked false) ts)
  unfolding update_first
  update-IsDown target [] d = tt
  update-IsDown target (t ∷ ts) d = elim (Bool-cases (str_eq (url_of t) target)) [
    | inl hit ↦ rw hit ((λ _. refl), others-IsDown (url_of t) target ts hit d.0)
    | inr miss ↦ rw miss ((λ h. absurd (ground arith)), update-IsDown target ts d.1)
  ]

  -- Where the targets print distinct URLs, a target that was marked unhealthy is not answered.
  pub next_target-mark_unhealthy :
      (lc : LeastConnections U) (u v : U)
      → Distinct url_of lc.targets
      → (next_target (mark_unhealthy to_string lc u)).1 ≡ some v
      → str_eq (to_string v) (to_string u) ≡ false
  unfolding mark_unhealthy
  next_target-mark_unhealthy lc u v d e =
      elim (next_target-IsLeast (mark_unhealthy to_string lc u)) [
        | inl (found, _) ↦ absurd (ground arith)
        | inr (j, b, is, found) ↦
            let down =
              All-get_elem? (IsDown (to_string u)) _ j b (update-IsDown (to_string u) lc.targets d)
                is.there in
            let same : b.url ≡ v = some_injective b.url v (ground arith) in
            rw (← same) (elim (Bool-cases (str_eq (to_string b.url) (to_string u))) [
              | inl hit ↦ cc (down hit, is.alive)
              | inr miss ↦ miss
            ])
      ]
