-- ===== src/Proxy/Serve/Outage.antt =====
-- What a failed exchange leaves of a least-connections balancer, which is the one that takes health
-- marks.
use apigateway_distributed_s.Base.{
  if◌then◌else◌, ◌≡◌, refl, sym, ap, subst, ◌∙◌, ◌⊎◌, inl, inr, Bool, false, none, some, List, [],
  ◌∷◌, map, arith, All, All-get_elem?, Bool-cases, eq_refl, str_eq, some_injective,
}
use apigateway_distributed_s.LoadBalancer.Target.{Distinct, update_first, Distinct-set}
use apigateway_distributed_s.LoadBalancer.LeastConnections
use apigateway_distributed_s.LoadBalancer.LeastConnections.{ConnectionTarget, LeastConnections}
use apigateway_distributed_s.LoadBalancer.LeastConnections.Scan.{IsUnhealthy}
use apigateway_distributed_s.LoadBalancer.LeastConnections.Least.{busier, next_target-IsLeast}
use apigateway_distributed_s.LoadBalancer.LeastConnections.Health.{next_target-mark_unhealthy}
use apigateway_distributed_s.LoadBalancer.Random.{Generator}
use apigateway_distributed_s.Proxy.Balancer.{least_connections, next_target, mark_unhealthy}
use apigateway_distributed_s.Proxy.Serve.{
  end_late, Url, ReverseProxy, Exchange, failed, http_error, handle_proxy_error, deliver, forward,
  exchange, times_out, serve_target, serve_http,
}
use apigateway_distributed_s.Proxy.Serve.Visits.{Visit, serve, serve_all}

module _ {U : Type 0} where
  -- With no healthy target there is no answer and no change.
  silent :
      (lc : LeastConnections U)
      → All IsUnhealthy lc.targets
      → LeastConnections.next_target lc ≡ (lc, none)
  silent lc ill = elim (next_target-IsLeast lc) [
    | inl (found, _) ↦ found
    | inr (j, b, is, found) ↦
        absurd (ground (arith, All-get_elem? IsUnhealthy lc.targets j b ill is.there, is.alive))
  ]

  one_next :
      (t : ConnectionTarget U)
      → (LeastConnections.next_target (record { targets = t ∷ [] })
          ≡ (record { targets = t ∷ [] }, none))
        ⊎ (LeastConnections.next_target (record { targets = t ∷ [] })
            ≡ (record { targets = busier t ∷ [] }, some t.url))
  unfolding LeastConnections.next_target LeastConnections.select LeastConnections.consider
      LeastConnections.connect
  one_next t = elim (Bool-cases t.healthy) [
    | inl up ↦ inr (rw (LeastConnections.consider, up) refl)
    | inr down ↦ inl (rw (LeastConnections.consider, down) refl)
  ]

module _ {U G : Type 0} (url : Url U) (generator : Generator G) where
  -- A choice of the balancer leaves the URLs distinct.
  distinct_after :
      (lc : LeastConnections U)
      → Distinct (λ t. url.to_string t.url) lc.targets
      → Distinct (λ t. url.to_string t.url) (LeastConnections.next_target lc).0.targets
  distinct_after lc d = elim (next_target-IsLeast lc) [
    | inl (found, _) ↦ rw found d
    | inr (j, b, is, found) ↦
        rw found (Distinct-set (λ t. url.to_string t.url) lc.targets j b (busier b) is.there refl d)
  ]

  -- What the exchange of a visit with a target gives.
  abbrev pub exchange_of : Visit U → U → Exchange
  exchange_of v u = exchange url generator u v.time v.upstream v.request

  -- The proxy after a visit whose exchange with the target has ended: behind the answer to the
  -- client, if the exchange timed out.
  abbrev pub settled : ReverseProxy U G → Visit U → U → ReverseProxy U G
  settled rp v u =
      let rp' = (serve url generator rp v).0 in
      if times_out url generator rp v.late
      then end_late url generator rp' u v.time v.upstream v.request
      else rp'

  serve-silent :
      (rp : ReverseProxy U G) (lc : LeastConnections U) (v : Visit U)
      → rp.load_balancer ≡ least_connections lc
      → All IsUnhealthy lc.targets
      → serve url generator rp v ≡ (rp, http_error 503)
  unfolding serve_http next_target serve_target
  serve-silent rp lc v is ill = rw (is, silent lc ill) refl

  serve_all-silent :
      (rp : ReverseProxy U G) (lc : LeastConnections U) (vs : List (Visit U))
      → rp.load_balancer ≡ least_connections lc
      → All IsUnhealthy lc.targets
      → serve_all url generator rp vs ≡ (rp, map (λ v. http_error 503) vs)
  unfolding serve_all
  serve_all-silent rp lc [] is ill = refl
  serve_all-silent rp lc (v ∷ vs) is ill =
      rw (serve-silent rp lc v is ill, serve_all-silent rp lc vs is ill) refl

  end_late-failed :
      (rp : ReverseProxy U G) (v : Visit U) (u : U) (t : Bool)
      → exchange_of v u ≡ failed t
      → (end_late url generator rp u v.time v.upstream v.request).load_balancer
        ≡ mark_unhealthy url.to_string rp.load_balancer u
  unfolding end_late deliver handle_proxy_error
  end_late-failed rp v u t fails =
      ap (λ x. (deliver url generator rp u v.time x).0.load_balancer) fails

  -- A failed exchange leaves the mark on the target that was asked.
  serve-failed :
      (rp : ReverseProxy U G) (lc : LeastConnections U) (v : Visit U) (u : U) (t : Bool)
      → rp.load_balancer ≡ least_connections lc
      → (LeastConnections.next_target lc).1 ≡ some u
      → exchange_of v u ≡ failed t
      → (settled rp v u).load_balancer
        ≡ least_connections
            (LeastConnections.mark_unhealthy url.to_string (LeastConnections.next_target lc).0 u)
  unfolding serve_http next_target serve_target forward end_late deliver handle_proxy_error
      mark_unhealthy
  serve-failed rp lc v u t is asked fails = elim (Bool-cases (times_out url generator rp v.late)) [
    | inl e ↦
        rw (is, asked, e)
          (end_late-failed
            (record rp { load_balancer = least_connections (LeastConnections.next_target lc).0 }) v
            u t fails)
    | inr e ↦ rw (is, asked, e, fails) refl
  ]

  -- With a least-connections balancer whose targets print distinct URLs, the request after the end of
  -- a failed exchange is not sent to the target that failed, whether the client was answered before
  -- that end, by the proxy's own timeout, or not.
  pub next_target-serve_failed :
      (rp : ReverseProxy U G) (lc : LeastConnections U) (v : Visit U) (u w : U) (t : Bool)
      → rp.load_balancer ≡ least_connections lc
      → Distinct (λ t. url.to_string t.url) lc.targets
      → (LeastConnections.next_target lc).1 ≡ some u
      → exchange_of v u ≡ failed t
      → (next_target generator (settled rp v u).load_balancer).1 ≡ some w
      → str_eq (url.to_string w) (url.to_string u) ≡ false
  unfolding next_target
  next_target-serve_failed rp lc v u w t is distinct asked fails again =
      next_target-mark_unhealthy url.to_string (LeastConnections.next_target lc).0 u w
        (distinct_after lc distinct)
        (ap (λ b. (next_target generator b).1) (sym (serve-failed rp lc v u t is asked fails))
          ∙ again)

  only_one :
      (t : ConnectionTarget U) (u : U)
      → (LeastConnections.next_target (record { targets = t ∷ [] })).1 ≡ some u
      → All IsUnhealthy
          (LeastConnections.mark_unhealthy url.to_string
            (LeastConnections.next_target (record { targets = t ∷ [] })).0
            u).targets
  unfolding LeastConnections.mark_unhealthy update_first
  only_one t u h = elim (one_next t) [
    | inl found ↦ absurd (ground arith)
    | inr found ↦
        let same : t.url ≡ u = some_injective t.url u (ground arith) in
        rw found (
          subst
            (λ u. All IsUnhealthy (
              update_first (λ t. url.to_string t.url) (url.to_string u)
                (λ t. record t { healthy = false }) (busier t ∷ [])))
            same (rw (eq_refl (url.to_string t.url)) (refl, tt)))
  ]

  -- With a least-connections balancer of one target, after the end of a failed exchange every
  -- later request is answered with the status 503 and leaves the proxy as it is, whatever the target
  -- does by then.
  pub serve_all-serve_failed :
      (rp : ReverseProxy U G) (target : ConnectionTarget U) (v : Visit U) (u : U) (t : Bool)
      (vs : List (Visit U))
      → rp.load_balancer ≡ least_connections (record { targets = target ∷ [] })
      → (LeastConnections.next_target (record { targets = target ∷ [] })).1 ≡ some u
      → exchange_of v u ≡ failed t
      → serve_all url generator (settled rp v u) vs ≡ (settled rp v u, map (λ v. http_error 503) vs)
  serve_all-serve_failed rp target v u t vs is asked fails =
      serve_all-silent (settled rp v u) _ vs
        (serve-failed rp (record { targets = target ∷ [] }) v u t is asked fails)
        (only_one target u asked)
