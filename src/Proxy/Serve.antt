-- ===== src/Proxy/Serve.antt =====
-- `ReverseProxy` of internal/proxy/reverse_proxy.go. `U` stands for `*url.URL` of Go's net/url, whose
-- `Parse`, `String` and host are parameters, and so is what the upstream does with a request. Logs
-- and metrics are left out. The code keeps its number of retries and never reads it.
pub mod Made
pub mod Visits
pub mod Outage
pub mod Whole
use apigateway_distributed_s.Base.{
  ℕ, Bool, true, false, ◌&&◌, Option, none, some, List, [], ◌∷◌, String, ◌⊎◌, inl, inr,
  if◌then◌else◌,
}
use apigateway_distributed_s.Base.Int.{ℤ, pos, ltb_ℤ}
use apigateway_distributed_s.Config.Types.{ServiceConfig}
use apigateway_distributed_s.LoadBalancer.Random.{Generator}
use apigateway_distributed_s.Proxy.Balancer.{Balancer, new_balancer, next_target, mark_unhealthy}
use apigateway_distributed_s.Proxy.Headers.{Request, Response, modify_request, modify_response}

pub record Url (U : Type 0) : Type 0 where
  pub parse : String → Option U
  pub to_string : U → String
  pub host : U → String
  -- The director of `httputil.NewSingleHostReverseProxy`.
  pub direct : U → Request → Request

pub record ReverseProxy (U G : Type 0) : Type 0 where
  pub load_balancer : Balancer U G
  pub timeout : ℤ
  pub retries : ℤ
  pub service_name : String

-- What comes of a request to a target: a response, a response whose body breaks off, or an error with
-- whether it is a timeout.
pub data Exchange : Type 0 where
  answered : Response → Exchange
  broken_off : Response → Exchange
  failed : Bool → Exchange

-- How `ServeHTTP` ends: with a response for the client, with the error of a status, or with the panic
-- `http.ErrAbortHandler`, which `httputil.ReverseProxy` documents for a body that it cannot copy.
pub data Sent : Type 0 where
  passed_on : Response → Sent
  aborted : Sent
  http_error : ℕ → Sent

-- The targets, or the first text that does not parse.
unfoldable pub parse_all : {U : Type 0} → Url U → List String → List U ⊎ String
parse_all url [] = inl []
parse_all url (s ∷ ss) = elim (url.parse s) [
  | none ↦ inr s
  | some u ↦ elim (parse_all url ss) [ inl us ↦ inl (u ∷ us) | inr bad ↦ inr bad ]
]

module _ {U G : Type 0} (url : Url U) (generator : Generator G) where
  unfoldable pub new_reverse_proxy : String → ServiceConfig → G → ReverseProxy U G ⊎ String
  unfolding parse_all new_balancer
  new_reverse_proxy name cfg seed = elim (parse_all url cfg.urls) [
    | inr bad ↦ inr bad
    | inl targets ↦ inl (record {
      load_balancer = new_balancer cfg.load_balancer seed targets;
      timeout = cfg.timeout;
      retries = cfg.retries;
      service_name = name;
    })
  ]

  unfoldable pub handle_proxy_error : ReverseProxy U G → U → Bool → ReverseProxy U G × Sent
  unfolding mark_unhealthy
  handle_proxy_error rp target is_timeout =
      let rp' = record rp {
        load_balancer = mark_unhealthy url.to_string rp.load_balancer target;
      } in
      (rp', http_error (if is_timeout then 504 else 502))

  -- `proxy.ServeHTTP`, on what came of the exchange.
  unfoldable pub deliver : ReverseProxy U G → U → String → Exchange → ReverseProxy U G × Sent
  unfolding handle_proxy_error modify_response
  deliver rp target time (answered resp) = (rp, passed_on (modify_response time resp))
  deliver rp target time (broken_off resp) = (rp, aborted)
  deliver rp target time (failed is_timeout) = handle_proxy_error rp target is_timeout

  abbrev pub exchange : U → String → (U → Request → Exchange) → Request → Exchange
  exchange target time upstream req =
      upstream target (modify_request time (url.host target) (url.direct target req))

  abbrev pub times_out : ReverseProxy U G → Bool → Bool
  times_out rp late = ltb_ℤ (pos 0) rp.timeout && late

  -- With a timeout that the exchange exceeds, `http.TimeoutHandler` answers 503 before the exchange
  -- ends, which is `end_late`.
  unfoldable pub forward :
      ReverseProxy U G
      → U
      → String
      → Bool
      → (U → Request → Exchange)
      → Request
      → ReverseProxy U G × Sent
  unfolding deliver
  forward rp target time late upstream req =
      if times_out rp late
      then (rp, http_error 503)
      else deliver rp target time (exchange target time upstream req)

  -- What an exchange that timed out leaves of the proxy, at whatever time it ends: the error handler
  -- runs, and the answer or the panic goes nowhere.
  unfoldable pub end_late :
      ReverseProxy U G → U → String → (U → Request → Exchange) → Request → ReverseProxy U G
  unfolding deliver
  end_late rp target time upstream req =
      (deliver rp target time (exchange target time upstream req)).0

  -- `ServeHTTP` on the answer of the load balancer.
  unfoldable pub serve_target :
      ReverseProxy U G
      → Option U
      → String
      → Bool
      → (U → Request → Exchange)
      → Request
      → ReverseProxy U G × Sent
  unfolding forward
  serve_target rp none time late upstream req = (rp, http_error 503)
  serve_target rp (some target) time late upstream req = forward rp target time late upstream req

  unfoldable pub serve_http :
      ReverseProxy U G
      → String
      → Bool
      → (U → Request → Exchange)
      → Request
      → ReverseProxy U G × Sent
  unfolding next_target serve_target
  serve_http rp time late upstream req =
      let (lb, target) = next_target generator rp.load_balancer in
      serve_target (record rp { load_balancer = lb }) target time late upstream req
