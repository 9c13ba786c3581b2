-- ===== src/LoadBalancer/LeastConnections/Least.antt =====
-- What `LeastConnections.NextTarget` answers, and that `ReleaseConnection` undoes it.
use apigateway_distributed_s.Base.{
  ℕ, ◌+◌, ◌-◌, ◌^◌, ◌≡◌, refl, ap, ◌∙◌, ◌⊎◌, inl, inr, none, some, List, [], ◌∷◌, String, arith,
  set, get_elem?, All, All-get_elem?, get_elem?-set_self, set-set, set_self, lt_of_get_elem?,
  some_injective,
}
use apigateway_distributed_s.Base.Int.{ℤ, pos, ◌≤ℤ◌}
use apigateway_distributed_s.LoadBalancer.Target.{
  Distinct, update_first, update_first-at, Distinct-set,
}
use apigateway_distributed_s.LoadBalancer.LeastConnections.{
  ConnectionTarget, LeastConnections, increment, decrement_pos, select, connect, next_target,
  release_connection,
}
use apigateway_distributed_s.LoadBalancer.LeastConnections.Scan.{
  IsUnhealthy, IsLeast, select_cases_from,
}

decrement-increment : (n : ℤ) → pos 0 ≤ℤ n → n ≤ℤ pos (2 ^ 63 - 2) → decrement_pos (increment n) ≡ n
unfolding increment decrement_pos
decrement-increment n h k = ground arith

module _ {ℓ} {U : Type ℓ} where
  abbrev pub busier : ConnectionTarget U → ConnectionTarget U
  busier b = record b { connections = increment b.connections }

  next_target_nonempty :
      (t : ConnectionTarget U) (ts : List (ConnectionTarget U))
      → next_target (record { targets = t ∷ ts })
        ≡ connect (record { targets = t ∷ ts }) (select 0 none (t ∷ ts))
  unfolding next_target
  next_target_nonempty t ts = refl

  next_target_empty :
      next_target {U = U} (record { targets = [] }) ≡ (record { targets = [] }, none)
  unfolding next_target
  next_target_empty = refl

  IsLeast-of :
      (ts : List (ConnectionTarget U))
      → ((next_target (record { targets = ts }) ≡ (record { targets = ts }, none))
          × All IsUnhealthy ts)
        ⊎ ((j : ℕ) × (b : ConnectionTarget U) × IsLeast ts j b
            × (next_target (record { targets = ts })
                ≡ (record { targets = set ts j (busier b) }, some b.url)))
  unfolding connect
  IsLeast-of [] = inl (next_target_empty, tt)
  IsLeast-of (t ∷ ts) = elim (select_cases_from 0 (t ∷ ts)) [
    | inl (found, all) ↦ inl (rw (next_target_nonempty t ts, found) refl, all)
    | inr (j, b, found, is) ↦
        let e : 0 + j ≡ j = omega arith in
        inr (j, b, is, rw (next_target_nonempty t ts, found, e) refl)
  ]

  -- A call answers nil and changes nothing if every target is unhealthy, and only then; otherwise
  -- it answers a healthy target that no healthy one has fewer connections than, and counts one more
  -- connection for it, while all other targets stay as they are.
  pub next_target-IsLeast :
      (lc : LeastConnections U)
      → ((next_target lc ≡ (lc, none)) × All IsUnhealthy lc.targets)
        ⊎ ((j : ℕ) × (b : ConnectionTarget U) × IsLeast lc.targets j b
            × (next_target lc ≡ (record { targets = set lc.targets j (busier b) }, some b.url)))
  next_target-IsLeast lc = IsLeast-of lc.targets

  -- A count that can go up and down again without wrapping.
  abbrev pub InRange : ConnectionTarget U → Type 0
  InRange t = (pos 0 ≤ℤ t.connections) × (t.connections ≤ℤ pos (2 ^ 63 - 2))

  module _ (to_string : U → String) where
    abbrev url_of : ConnectionTarget U → String
    url_of t = to_string t.url

    abbrev release_one : ConnectionTarget U → ConnectionTarget U
    release_one t = record t { connections = decrement_pos t.connections }

    release_lem :
        (ts : List (ConnectionTarget U)) (u : U)
        → release_connection to_string (record { targets = ts }) u
          ≡ record { targets = update_first url_of (to_string u) release_one ts }
    unfolding release_connection
    release_lem ts u = refl

    release_at :
        (ts : List (ConnectionTarget U)) (j : ℕ) (b : ConnectionTarget U)
        → Distinct url_of ts
        → get_elem? ts j ≡ some b
        → InRange b
        → release_connection to_string (record { targets = set ts j (busier b) }) b.url
          ≡ record { targets = ts }
    release_at ts j b d e r =
        let b' = busier b in
        let inside = lt_of_get_elem? ts j e in
        let again : record b { connections = decrement_pos (increment b.connections) } ≡ b =
          ap (λ n. record b { connections = n }) (decrement-increment b.connections r.0 r.1) in
        release_lem (set ts j b') b.url
        ∙ ap (λ us. record { targets = us })
            (update_first-at url_of release_one (set ts j b') j b'
                (Distinct-set url_of ts j b b' e refl d) (get_elem?-set_self ts j b' inside)
              ∙ set-set ts j b' (release_one b')
              ∙ ap (set ts j) again
              ∙ set_self ts j b e)

    -- Where the targets print distinct URLs and the counts are in range, to release the target
    -- that `NextTarget` answered gives the balancer back as it was before the call.
    pub release_connection-next_target :
        (lc : LeastConnections U) (u : U)
        → Distinct url_of lc.targets
        → All InRange lc.targets
        → (next_target lc).1 ≡ some u
        → release_connection to_string (next_target lc).0 u ≡ lc
    release_connection-next_target lc u d r e = elim (next_target-IsLeast lc) [
      | inl (found, _) ↦ absurd (ground arith)
      | inr (j, b, is, found) ↦
          let same : b.url ≡ u = some_injective b.url u (ground arith) in
          rw (found, ← same)
            (release_at lc.targets j b d is.there (All-get_elem? InRange lc.targets j b r is.there))
    ]
