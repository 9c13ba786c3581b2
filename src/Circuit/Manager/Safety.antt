-- ===== src/Circuit/Manager/Safety.antt =====
-- What the manager guarantees of a call through a breaker, and of its statistics.
use mathlib.Core.List.{append-nil, append_assoc}
use apigateway_distributed_s.Base.{
  All, Unique, ap, sym, ◌++◌, map, lookup, Bool-cases, count_if, length-map, ℕ, ◌≡◌, refl, ◌∙◌, ◌≢◌,
  inl, inr, Bool, true, false, none, String, [], ◌∷◌, length, arith, Option-cases, str_eq, eq_iff,
  Dict, insert, lookup-insert,
}
use apigateway_distributed_s.Circuit.Breaker.{
  State, closed, half_open, opened, Outcome, GoBreaker, CircuitBreaker, execute, state,
}
use apigateway_distributed_s.Circuit.Manager.{
  Manager, BreakerInfo, get_breaker, info_of, count_states, collect_states, get_all_states,
  get_stats, execute_with_breaker,
}

module _ {B W R E : Type 0} (go : GoBreaker B W R E) where
  -- A call through one breaker leaves every other breaker as it is.
  pub get_breaker-execute_with_breaker :
      (m : Manager B) (name other : String) (fn : W → W × Outcome R E) (w : W)
      → name ≢ other
      → get_breaker (execute_with_breaker go m name fn w).0 other ≡ get_breaker m other
  unfolding execute_with_breaker get_breaker
  get_breaker-execute_with_breaker m name other fn w differ =
      elim (Option-cases (get_breaker m name)) [
        | inl none_found ↦ rw (none_found, execute_with_breaker) refl
        | inr (cb, found) ↦
            rw (found, execute_with_breaker)
              (ground (
                arith,
                lookup-insert name other (execute go cb fn w).0 m.breakers,
                eq_iff name other,
              ))
      ]

  abbrev pub same_state : State → State → Bool
  same_state closed t = elim t [ closed ↦ true | _ ↦ false ]
  same_state half_open t = elim t [ half_open ↦ true | _ ↦ false ]
  same_state opened t = elim t [ opened ↦ true | _ ↦ false ]

  -- The number of the manager's breakers in a state.
  abbrev pub in_state : State → Manager B → ℕ
  in_state s m = count_if (λ e. same_state s (state go e.1)) m.breakers

  str_eq-state_string :
      (s t : State) → str_eq (go.state_string t) (go.state_string s) ≡ same_state s t
  str_eq-state_string closed closed = rw go.string-closed refl
  str_eq-state_string closed half_open = rw (go.string-closed, go.string-half_open) refl
  str_eq-state_string closed opened = rw (go.string-closed, go.string-opened) refl
  str_eq-state_string half_open closed = rw (go.string-closed, go.string-half_open) refl
  str_eq-state_string half_open half_open = rw go.string-half_open refl
  str_eq-state_string half_open opened = rw (go.string-half_open, go.string-opened) refl
  str_eq-state_string opened closed = rw (go.string-closed, go.string-opened) refl
  str_eq-state_string opened half_open = rw (go.string-half_open, go.string-opened) refl
  str_eq-state_string opened opened = rw go.string-opened refl

  abbrev infos : Dict (CircuitBreaker B) → Dict BreakerInfo
  infos m = map (λ e. (e.0, info_of go e.0 e.1)) m

  abbrev Apart : Dict BreakerInfo → Dict (CircuitBreaker B) → Type 0
  Apart states m = All (λ e. lookup e.0 states ≡ none) m

  insert_new :
      (k : String) (i : BreakerInfo) (states : Dict BreakerInfo)
      → lookup k states ≡ none
      → insert k i states ≡ states ++ (k, i) ∷ []
  unfolding insert lookup
  insert_new k i [] h = refl
  insert_new k i ((j, x) ∷ states) h = ground (arith, insert_new k i states)

  Apart-insert :
      (k : String) (i : BreakerInfo) (states : Dict BreakerInfo) (m : Dict (CircuitBreaker B))
      → lookup k m ≡ none
      → Apart states m
      → Apart (insert k i states) m
  unfolding lookup
  Apart-insert k i states [] h apart = tt
  Apart-insert k i states ((j, cb) ∷ m) h apart = (
    ground (arith, eq_iff k j, eq_iff j k, lookup-insert k j i states, apart.0),
    Apart-insert k i states m (ground arith) apart.1,
  )

  collect_states-append :
      (m : Dict (CircuitBreaker B)) (states : Dict BreakerInfo)
      → Unique m
      → Apart states m
      → collect_states go m states ≡ states ++ infos m
  unfolding collect_states
  collect_states-append [] states u apart = sym (append-nil states)
  collect_states-append ((k, cb) ∷ m) states u apart =
      collect_states-append m (insert k (info_of go k cb) states) u.1
        (Apart-insert k (info_of go k cb) states m u.0 apart.1)
      ∙ ap (λ s. s ++ infos m) (insert_new k (info_of go k cb) states apart.0)
      ∙ append_assoc states ((k, info_of go k cb) ∷ []) (infos m)

  count_states-infos :
      (s : State) (name : String) (m : Dict (CircuitBreaker B))
      → go.state_string s ≡ name
      → count_states name (infos m) ≡ count_if (λ e. same_state s (state go e.1)) m
  unfolding count_states
  count_states-infos s name [] e = refl
  count_states-infos s name ((k, cb) ∷ m) e =
      let same : str_eq (go.state_string (state go cb)) name ≡ same_state s (state go cb) =
        ap (str_eq (go.state_string (state go cb))) (sym e) ∙ str_eq-state_string s (state go cb) in
      elim (Bool-cases (same_state s (state go cb))) [
        | inl yes_ ↦ rw (same, yes_, count_states-infos s name m e) (omega arith)
        | inr no_ ↦ rw (same, no_, count_states-infos s name m e) refl
      ]

  none_there : (m : Dict (CircuitBreaker B)) → Apart [] m
  unfolding lookup
  none_there [] = tt
  none_there (e ∷ m) = (refl, none_there m)

  -- If no name is there twice, as in a map, the statistics tell how many breakers the manager has,
  -- and how many of them are open, half-open and closed.
  pub get_stats-in_state :
      (m : Manager B)
      → Unique m.breakers
      → let stats = get_stats go m in
        (stats.total_breakers ≡ length m.breakers)
        × (stats.opened ≡ in_state opened m)
        × (stats.half_open ≡ in_state half_open m)
        × (stats.closed ≡ in_state closed m)
  unfolding get_stats get_all_states
  get_stats-in_state m u =
      let states : get_all_states go m ≡ infos m.breakers =
        collect_states-append m.breakers [] u (none_there m.breakers) in
      rw states (
        length-map _ m.breakers,
        count_states-infos opened "open" m.breakers go.string-opened,
        count_states-infos half_open "half-open" m.breakers go.string-half_open,
        count_states-infos closed "closed" m.breakers go.string-closed,
      )
