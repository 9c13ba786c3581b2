-- ===== src/Tests/Gateways.antt =====
-- The theorem on the circuit breakers of the gateway, with a breaker that opens after failures in a
-- row.
use apigateway_distributed_s.Base.{
  ℕ, suc, All, ◌≡◌, refl, false, none, some, List, [], ◌∷◌, String, Dict, true, leb, if◌then◌else◌,
  arith, lookup, str_eq, subst, inl, inr, Bool-cases,
}
use apigateway_distributed_s.Circuit.Breaker.{
  State, closed, half_open, opened, no_counts, Outcome, returned, panicked, GoBreaker,
  CircuitBreaker, state,
}
use apigateway_distributed_s.Proxy.Serve.Visits.{Visit}
use apigateway_distributed_s.Circuit.Manager.{get_breaker}
use apigateway_distributed_s.Gateway.Requests.{Work, Gateway, proxy_requests}
use apigateway_distributed_s.Proxy.Serve.Whole.{Completes}
use apigateway_distributed_s.Gateway.Requests.Breakers.{
  TripsOnFailures, AllClosed, without_breakers, proxy_requests-AllClosed,
}
use apigateway_distributed_s.Gateway.Services.{new_gateway, initialize_services}
use apigateway_distributed_s.Gateway.Services.Breakers.{proxy_requests-initialize_services}
use apigateway_distributed_s.Config.Types.{ServiceConfig}
use apigateway_distributed_s.Tests.Services.{service, breaker_off}
use apigateway_distributed_s.Tests.Balancers.{counting}
use apigateway_distributed_s.Tests.Proxies.{text_url, proxy_of, two, broken}

-- The state of a breaker with so many failures in a row.
abbrev pub state_at : ℕ → State
state_at n = if leb 5 n then opened else closed

abbrev pub count_failure :
    {W : Type 0} → ℕ → W × Outcome String String → ℕ × W × Outcome String String
count_failure n (w, returned r none) = (0, w, returned r none)
count_failure n (w, returned r (some e)) = (suc n, w, returned r (some e))
count_failure n (w, panicked) = (suc n, w, panicked)

abbrev pub fragile : {W : Type 0} → GoBreaker ℕ W String String
fragile = record {
  new_circuit_breaker = λ settings. 0;
  execute = λ b fn w.
      if leb 5 b
      then (b, w, returned "" (some "circuit breaker is open"))
      else count_failure b (fn w);
  state = state_at;
  counts = λ b. record no_counts { consecutive_failures = b };
  state_string = λ s. elim s [ closed ↦ "closed" | half_open ↦ "half-open" | opened ↦ "open" ];
  nil = "";
  string-closed = refl;
  string-half_open = refl;
  string-opened = refl;
}

fragile-TripsOnFailures : {W : Type 0} → TripsOnFailures (fragile {W = W})
fragile-TripsOnFailures = record {
  closed_runs = λ b fn w h. runs b fn w h;
  closed_success = λ b fn w r h e. stays b fn w r h e;
}
  where
    low : (b : ℕ) → state_at b ≡ closed → leb 5 b ≡ false
    low b h = ground arith

    counted :
        {W : Type 0} (b : ℕ) (x : W × Outcome String String)
        → ((count_failure b x).1 ≡ x.0) × ((count_failure b x).2 ≡ x.1)
    counted b (w, returned r none) = (refl, refl)
    counted b (w, returned r (some e)) = (refl, refl)
    counted b (w, panicked) = (refl, refl)

    reset_at :
        {W : Type 0} (b : ℕ) (x : W × Outcome String String) (r : String)
        → x.1 ≡ returned r none
        → (count_failure b x).0 ≡ 0
    reset_at b (w, returned r none) r' h = refl
    reset_at b (w, returned r (some e)) r' h = absurd (ground arith)
    reset_at b (w, panicked) r' h = absurd (ground arith)

    runs :
        {W : Type 0} (b : ℕ) (fn : W → W × Outcome String String) (w : W)
        → state_at b ≡ closed
        → (((fragile {W = W}).execute b fn w).1 ≡ (fn w).0)
          × (((fragile {W = W}).execute b fn w).2 ≡ (fn w).1)
    runs b fn w h = rw (low b h) (counted b (fn w))

    stays :
        {W : Type 0} (b : ℕ) (fn : W → W × Outcome String String) (w : W) (r : String)
        → state_at b ≡ closed
        → (fn w).1 ≡ returned r none
        → state_at ((fragile {W = W}).execute b fn w).0 ≡ closed
    stays b fn w r h e = rw (low b h, reset_at b (fn w) r e) refl

-- Four failures were counted elsewhere, one short of the fifth.
abbrev gateway : Gateway ℕ String ℕ
gateway = record {
  circuit_manager = record { breakers = ("users", record { breaker = some 4 }) ∷ [] };
  proxy_manager = record { proxies = ("users", proxy_of two) ∷ [] };
}

gateway-AllClosed : AllClosed fragile text_url counting fragile-TripsOnFailures gateway
unfolding get_breaker lookup state
gateway-AllClosed name cb found = elim (Bool-cases (str_eq "users" name)) [
  | inl e ↦ closed_here cb (ground (arith, found))
  | inr e ↦ absurd (ground (arith, found))
]
  where
    closed_here :
        (cb : CircuitBreaker ℕ)
        → record { breaker = some 4 } ≡ cb
        → state (fragile {W = Work String ℕ}) cb ≡ closed
    closed_here cb h = subst (λ cb. state (fragile {W = Work String ℕ}) cb ≡ closed) h refl

abbrev requests : List (String × Visit String)
requests = ("/users/1", broken) ∷ ("/orders", broken) ∷ ("users", broken) ∷ []

requests-Completes : All (λ r. Completes r.1) requests
requests-Completes = (λ u req. refl, (λ u req. refl, (λ u req. refl, tt)))

proxy_requests-AllClosed_example :
    ((proxy_requests fragile text_url counting gateway requests).1
      ≡ (proxy_requests fragile text_url counting
          (without_breakers fragile text_url counting fragile-TripsOnFailures gateway)
          requests).1)
    × AllClosed fragile text_url counting fragile-TripsOnFailures
        (proxy_requests fragile text_url counting gateway requests).0
proxy_requests-AllClosed_example =
    proxy_requests-AllClosed fragile text_url counting fragile-TripsOnFailures gateway requests
      requests-Completes gateway-AllClosed

abbrev guarded : ServiceConfig
guarded = record service { circuit_breaker = record breaker_off { enabled = true } }

-- The last service ends the setup with an error.
abbrev configured : Dict ServiceConfig
configured =
    ("users", guarded) ∷ ("orders", service) ∷ ("broken", record guarded { urls = "" ∷ [] }) ∷ []

initialize_services_value :
    (initialize_services fragile text_url counting (λ name. 0) configured new_gateway).1 ≡ some ""
unfolding initialize_services
initialize_services_value = refl

proxy_requests-initialize_services_example :
    let g : Gateway ℕ String ℕ =
      (initialize_services fragile text_url counting (λ name. 0) configured new_gateway).0 in
    ((proxy_requests fragile text_url counting g requests).1
      ≡ (proxy_requests fragile text_url counting
          (without_breakers fragile text_url counting fragile-TripsOnFailures g)
          requests).1)
    × AllClosed fragile text_url counting fragile-TripsOnFailures
        (proxy_requests fragile text_url counting g requests).0
proxy_requests-initialize_services_example =
    proxy_requests-initialize_services fragile text_url counting (λ name. 0) fragile-TripsOnFailures
      (λ settings. refl) configured requests requests-Completes
