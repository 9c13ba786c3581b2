-- ===== src/Proxy/Serve/Whole.antt =====
-- Visits whose responses do not break off end without a panic.
use apigateway_distributed_s.Base.{
  ◌≡◌, Bool, true, false, refl, inl, inr, Bool-cases, Option, none, some, String, arith,
}
use apigateway_distributed_s.LoadBalancer.Random.{Generator}
use apigateway_distributed_s.Proxy.Balancer.{next_target}
use apigateway_distributed_s.Proxy.Headers.{Request}
use apigateway_distributed_s.Proxy.Serve.{
  Url, ReverseProxy, Sent, aborted, Exchange, answered, broken_off, failed, deliver,
  handle_proxy_error, serve_target, forward, serve_http, times_out,
}
use apigateway_distributed_s.Proxy.Serve.Visits.{Visit, serve}

abbrev pub is_aborted : Sent → Bool
is_aborted s = elim s [ aborted ↦ true | _ ↦ false ]

abbrev pub breaks_off : Exchange → Bool
breaks_off e = elim e [ broken_off resp ↦ true | _ ↦ false ]

-- No response to the visit breaks off, whichever target it reaches.
abbrev pub Completes : {U : Type 0} → Visit U → Type 0
Completes {U = U} v = (u : U) (req : Request) → breaks_off (v.upstream u req) ≡ false

module _ {U G : Type 0} (url : Url U) (generator : Generator G) where
  deliver-whole :
      (rp : ReverseProxy U G) (u : U) (time : String) (e : Exchange)
      → breaks_off e ≡ false
      → is_aborted (deliver url generator rp u time e).1 ≡ false
  unfolding deliver handle_proxy_error
  deliver-whole rp u time (answered resp) h = refl
  deliver-whole rp u time (broken_off resp) h = absurd (ground arith)
  deliver-whole rp u time (failed t) h = refl

  serve_target-whole :
      (rp : ReverseProxy U G) (t : Option U) (v : Visit U)
      → Completes v
      → is_aborted (serve_target url generator rp t v.time v.late v.upstream v.request).1 ≡ false
  unfolding serve_target forward
  serve_target-whole rp none v h = refl
  serve_target-whole rp (some u) v h = elim (Bool-cases (times_out url generator rp v.late)) [
    | inl e ↦ rw e refl
    | inr e ↦ rw e (deliver-whole rp u v.time _ (h u _))
  ]

  pub serve-whole :
      (rp : ReverseProxy U G) (v : Visit U)
      → Completes v
      → is_aborted (serve url generator rp v).1 ≡ false
  unfolding serve_http
  serve-whole rp v h =
      serve_target-whole (record rp { load_balancer = (next_target generator rp.load_balancer).0 })
        (next_target generator rp.load_balancer).1 v h
