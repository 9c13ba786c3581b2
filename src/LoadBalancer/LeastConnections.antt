-- ===== src/LoadBalancer/LeastConnections.antt =====
-- `LeastConnections` of pkg/loadbalancer/load_balancer.go. A connection count is an int64, whose
-- increment wraps; the code keeps a pointer to the target that it selects, and the model its
-- position in the list, since each entry of the list is an object of its own. `U` stands for
-- `*url.URL` and `to_string` for its `String()`.
pub mod Scan
pub mod Least
pub mod Health
use apigateway_distributed_s.Base.{
  ℕ, zero, suc, ◌-◌, ◌^◌, Bool, true, false, not, Option, none, some, List, [], ◌∷◌, ◌++◌, String,
  map, set, str_eq, if◌then◌else◌,
}
use apigateway_distributed_s.Base.Int.{ℤ, pos, negsuc, ◌+ℤ◌, ◌-ℤ◌, ltb_ℤ}
use apigateway_distributed_s.LoadBalancer.Target.{remove_first, update_first}

pub record ConnectionTarget {ℓ} (U : Type ℓ) : Type ℓ where
  pub url : U
  pub connections : ℤ
  pub healthy : Bool

pub record LeastConnections {ℓ} (U : Type ℓ) : Type ℓ where
  pub targets : List (ConnectionTarget U)

-- `atomic.AddInt64(p, 1)`
unfoldable pub increment : ℤ → ℤ
unfolding ◌+ℤ◌
increment n = if ltb_ℤ n (pos (2 ^ 63 - 1)) then n +ℤ pos 1 else negsuc (2 ^ 63 - 1)

-- `atomic.AddInt64(p, -1)`, under the guard that the count is positive.
unfoldable pub decrement_pos : ℤ → ℤ
unfolding ◌-ℤ◌
decrement_pos n = if ltb_ℤ (pos 0) n then n -ℤ pos 1 else n

module _ {ℓ} {U : Type ℓ} where
  abbrev pub new_target : U → ConnectionTarget U
  new_target url = record { url = url; connections = pos 0; healthy = true }

  unfoldable pub new_least_connections : List U → LeastConnections U
  new_least_connections urls = record { targets = map new_target urls }

  -- `selected == nil || target.Connections < selected.Connections`
  abbrev pub is_better : ConnectionTarget U → Option (ℕ × ConnectionTarget U) → Bool
  is_better t none = true
  is_better t (some (_, best)) = ltb_ℤ t.connections best.connections

  -- The body of the loop: an unhealthy target is passed over.
  unfoldable pub consider :
      ℕ → ConnectionTarget U → Option (ℕ × ConnectionTarget U) → Option (ℕ × ConnectionTarget U)
  consider i t selected =
      if not t.healthy then selected else if is_better t selected then some (i, t) else selected

  -- The loop over the targets, from position `i` on.
  unfoldable pub select :
      ℕ
      → Option (ℕ × ConnectionTarget U)
      → List (ConnectionTarget U)
      → Option (ℕ × ConnectionTarget U)
  select i selected [] = selected
  select i selected (t ∷ ts) = select (suc i) (consider i t selected) ts

  unfoldable pub connect :
      LeastConnections U → Option (ℕ × ConnectionTarget U) → LeastConnections U × Option U
  unfolding increment
  connect lc none = (lc, none)
  connect lc (some (i, best)) = (
    record {
      targets = set lc.targets i (record best { connections = increment best.connections });
    },
    some best.url,
  )

  unfoldable pub next_target : LeastConnections U → LeastConnections U × Option U
  unfolding consider select connect
  next_target lc = elim lc.targets [
    | [] ↦ (lc, none)
    | t ∷ ts ↦ connect lc (select 0 none (t ∷ ts))
  ]

  unfoldable pub add_target : LeastConnections U → U → LeastConnections U
  add_target lc target = record { targets = lc.targets ++ new_target target ∷ [] }

  unfoldable pub get_targets : LeastConnections U → List U
  get_targets lc = map (λ t. t.url) lc.targets

  module _ (to_string : U → String) where
    unfoldable pub remove_target : LeastConnections U → U → LeastConnections U
    remove_target lc target = record {
      targets = remove_first (λ t. to_string t.url) (to_string target) lc.targets;
    }

    abbrev pub update :
        LeastConnections U → U → (ConnectionTarget U → ConnectionTarget U) → LeastConnections U
    update lc target f = record {
      targets = update_first (λ t. to_string t.url) (to_string target) f lc.targets;
    }

    unfoldable pub release_connection : LeastConnections U → U → LeastConnections U
    unfolding update_first decrement_pos
    release_connection lc target =
        update lc target (λ t. record t { connections = decrement_pos t.connections })

    unfoldable pub mark_healthy : LeastConnections U → U → LeastConnections U
    unfolding update_first
    mark_healthy lc target = update lc target (λ t. record t { healthy = true })

    unfoldable pub mark_unhealthy : LeastConnections U → U → LeastConnections U
    unfolding update_first
    mark_unhealthy lc target = update lc target (λ t. record t { healthy = false })

    -- The health of the first match, and false where there is none.
    unfoldable pub health_of : String → List (ConnectionTarget U) → Bool
    health_of target [] = false
    health_of target (t ∷ ts) =
        if str_eq (to_string t.url) target then t.healthy else health_of target ts

    unfoldable pub is_healthy : LeastConnections U → U → Bool
    unfolding health_of
    is_healthy lc target = health_of (to_string target) lc.targets
