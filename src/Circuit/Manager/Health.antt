-- ===== src/Circuit/Manager/Health.antt =====
-- What the health check of the manager tells.
use mathlib.Core.List.{Memᴰ}
use mathlib.Core.List.Memᴰ
use apigateway_distributed_s.Base.{
  Option, List, some, some_injective, subst, All, sym, ◌≡◌, refl, ◌∙◌, ◌≢◌, ◌↔◌, inl, inr, Bool,
  true, false, none, String, [], ◌∷◌, arith, if◌then◌else◌, Dict,
}
use apigateway_distributed_s.Circuit.Breaker.{
  State, closed, half_open, opened, GoBreaker, CircuitBreaker, state, is_open, is_opened,
}
use apigateway_distributed_s.Circuit.Manager.{Manager, open_breakers, health_check}

module _ {B W R E : Type 0} (go : GoBreaker B W R E) where
  not_opened : (cb : CircuitBreaker B) → (is_open go cb ≡ false) ↔ (state go cb ≢ opened)
  unfolding is_open
  not_opened cb = split (state go cb)
    where
      split : (s : State) → (is_opened s ≡ false) ↔ (s ≢ opened)
      split closed = (λ e. ground arith, λ n. refl)
      split half_open = (λ e. ground arith, λ n. refl)
      split opened = (λ e. absurd (ground arith), λ n. absurd (n refl))

  open_breakers-none :
      (m : Dict (CircuitBreaker B)) → (open_breakers go m ≡ []) ↔ All (λ e. state go e.1 ≢ opened) m
  unfolding open_breakers
  open_breakers-none [] = (λ e. tt, λ a. refl)
  open_breakers-none ((k, cb) ∷ m) =
      let rest = open_breakers-none m in
      (split (is_open go cb) (not_opened cb).0 rest.0, λ a. rw ((not_opened cb).1 a.0) (rest.1 a.1))
    where
      split :
          (b : Bool)
          → (b ≡ false → state go cb ≢ opened)
          → (open_breakers go m ≡ [] → All (λ e. state go e.1 ≢ opened) m)
          → (if b then k ∷ open_breakers go m else open_breakers go m) ≡ []
          → (state go cb ≢ opened) × All (λ e. state go e.1 ≢ opened) m
      split true n f e = absurd (ground arith)
      split false n f e = (n refl, f e)

  is_open_iff : (cb : CircuitBreaker B) → (is_open go cb ≡ true) ↔ (state go cb ≡ opened)
  unfolding is_open
  is_open_iff cb = split (state go cb)
    where
      split : (s : State) → (is_opened s ≡ true) ↔ (s ≡ opened)
      split closed = (λ e. absurd (ground arith), λ e. absurd (ground arith))
      split half_open = (λ e. absurd (ground arith), λ e. absurd (ground arith))
      split opened = (λ e. refl, λ e. refl)

  -- There is an open breaker of the name.
  abbrev pub HasOpen : String → Dict (CircuitBreaker B) → Type 0
  HasOpen name m =
      (cb : CircuitBreaker B) × Memᴰ {A = String × CircuitBreaker B} (name, cb) m
      × (state go cb ≡ opened)

  open_breakers-HasOpen :
      (name : String) (m : Dict (CircuitBreaker B))
      → Memᴰ name (open_breakers go m) ↔ HasOpen name m
  unfolding open_breakers
  open_breakers-HasOpen name [] = (λ h. absurd (Memᴰ.not-nil h), λ h. absurd (Memᴰ.not-nil h.1))
  open_breakers-HasOpen name ((k, cb) ∷ m) =
      split (is_open go cb) refl (open_breakers-HasOpen name m)
    where
      later : HasOpen name m → HasOpen name ((k, cb) ∷ m)
      later (c, there, up) = (c, Memᴰ.tail there, up)

      split :
          (b : Bool)
          → is_open go cb ≡ b
          → Memᴰ name (open_breakers go m) ↔ HasOpen name m
          → Memᴰ name (if b then k ∷ open_breakers go m else open_breakers go m)
            ↔ HasOpen name ((k, cb) ∷ m)
      split true e rest = (
        λ h. elim (Memᴰ.cases_cons h) [
          | inl same ↦ (cb, Memᴰ.head (λ i. (same i, cb)), (is_open_iff cb).0 e)
          | inr there ↦ later (rest.0 there)
        ],
        λ (c, h, up). elim (Memᴰ.cases_cons h) [
          | inl same ↦ Memᴰ.head (λ i. (same i).0)
          | inr there ↦ Memᴰ.tail (rest.1 (c, there, up))
        ],
      )
      split false e rest = (
        λ h. later (rest.0 h),
        λ (c, h, up). elim (Memᴰ.cases_cons h) [
          | inl same ↦ absurd ((not_opened cb).0 e (sym (λ i. state go (same i).1) ∙ up))
          | inr there ↦ rest.1 (c, there, up)
        ],
      )

  -- The health check passes exactly when no breaker of the manager is open, and otherwise its error
  -- lists exactly the names of the open breakers.
  pub health_check-eq-none_iff :
      (m : Manager B)
      → ((health_check go m ≡ none) ↔ All (λ e. state go e.1 ≢ opened) m.breakers)
        × ((names : List String) (name : String)
            → health_check go m ≡ some names
            → Memᴰ name names ↔ HasOpen name m.breakers)
  unfolding health_check
  health_check-eq-none_iff m =
      let iff = open_breakers-none m.breakers in
      (
        (λ e. iff.0 (ground arith), λ a. rw (iff.1 a, health_check) refl),
        λ names name e.
            subst (λ l. Memᴰ name l ↔ HasOpen name m.breakers)
              (listed (open_breakers go m.breakers) names e)
              (open_breakers-HasOpen name m.breakers),
      )
    where
      listed :
          (l names : List String)
          → elim l as (λ _. Option (List String)) [ [] ↦ none | n ∷ ns ↦ some (n ∷ ns) ]
            ≡ some names
          → l ≡ names
      listed [] names e = absurd (ground arith)
      listed (n ∷ ns) names e = some_injective (n ∷ ns) names e
