-- ===== src/Proxy/Serve/Visits.antt =====
-- Requests one after the other, and what they leave of the balancer.
use apigateway_distributed_s.Base.{
  ◌≡◌, refl, ◌∙◌, Bool, Bool-cases, inl, inr, Option, none, some, List, [], ◌∷◌, String,
}
use apigateway_distributed_s.LoadBalancer.Random.{Generator}
use apigateway_distributed_s.Proxy.Balancer.{get_targets, next_target}
use apigateway_distributed_s.Proxy.Balancer.Targets.{
  balancer-IsLoadBalancer, get_targets-mark_unhealthy,
}
use apigateway_distributed_s.Proxy.Headers.{Request}
use apigateway_distributed_s.Proxy.Serve.{
  Url, ReverseProxy, Exchange, answered, broken_off, failed, Sent, handle_proxy_error, deliver,
  forward, times_out, serve_target, serve_http,
}

-- A request at a time, whether it is late, and what its target does with it.
pub record Visit (U : Type 0) : Type 0 where
  pub time : String
  pub late : Bool
  pub upstream : U → Request → Exchange
  pub request : Request

module _ {U G : Type 0} (url : Url U) (generator : Generator G) where
  abbrev pub serve : ReverseProxy U G → Visit U → ReverseProxy U G × Sent
  serve rp v = serve_http url generator rp v.time v.late v.upstream v.request

  unfoldable pub serve_all : ReverseProxy U G → List (Visit U) → ReverseProxy U G × List Sent
  serve_all rp [] = (rp, [])
  serve_all rp (v ∷ vs) =
      let (rp', sent) = serve rp v in let (rp'', rest) = serve_all rp' vs in (rp'', sent ∷ rest)

  deliver-targets :
      (rp : ReverseProxy U G) (u : U) (time : String) (e : Exchange)
      → get_targets (deliver url generator rp u time e).0.load_balancer
        ≡ get_targets rp.load_balancer
  unfolding deliver handle_proxy_error
  deliver-targets rp u time (answered resp) = refl
  deliver-targets rp u time (broken_off resp) = refl
  deliver-targets rp u time (failed t) = get_targets-mark_unhealthy url.to_string rp.load_balancer u

  serve_target-targets :
      (rp : ReverseProxy U G) (t : Option U) (v : Visit U)
      → get_targets
          (serve_target url generator rp t v.time v.late v.upstream v.request).0.load_balancer
        ≡ get_targets rp.load_balancer
  unfolding serve_target forward
  serve_target-targets rp none v = refl
  serve_target-targets rp (some u) v = elim (Bool-cases (times_out url generator rp v.late)) [
    | inl e ↦ rw e refl
    | inr e ↦ rw e (deliver-targets rp u v.time _)
  ]

  serve-targets :
      (rp : ReverseProxy U G) (v : Visit U)
      → get_targets (serve rp v).0.load_balancer ≡ get_targets rp.load_balancer
  unfolding serve_http
  serve-targets rp v =
      serve_target-targets
        (record rp { load_balancer = (next_target generator rp.load_balancer).0 })
        (next_target generator rp.load_balancer).1 v
      ∙ (balancer-IsLoadBalancer generator url.to_string).keep rp.load_balancer

  -- Requests change no list of targets, whichever balancer there is, whether they are answered, fail
  -- or are late.
  pub get_targets-serve_all :
      (rp : ReverseProxy U G) (vs : List (Visit U))
      → get_targets (serve_all rp vs).0.load_balancer ≡ get_targets rp.load_balancer
  unfolding serve_all
  get_targets-serve_all rp [] = refl
  get_targets-serve_all rp (v ∷ vs) = get_targets-serve_all (serve rp v).0 vs ∙ serve-targets rp v
