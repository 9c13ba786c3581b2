-- ===== src/Proxy/Headers/Rewrites.antt =====
-- What the target sees of a request, and the client of a response.
use apigateway_distributed_s.Base.{
  ◌≡◌, refl, sym, ap, ◌∙◌, inl, inr, Bool, false, ◌||◌, none, List, [], ◌∷◌, String, str_eq,
  if◌then◌else◌, Bool-cases, arith, lookup, lookup-insert, lookup-delete, eq_iff,
}
use apigateway_distributed_s.Proxy.Headers.{
  Header, first_of, header_get, header_set, header_del, Request, Response, modify_response,
}

header_get-header_set :
    (j k v : String) (h : Header)
    → header_get k (header_set j v h) ≡ (if str_eq j k then v else header_get k h)
unfolding header_get header_set first_of
header_get-header_set j k v h = elim (Bool-cases (str_eq j k)) [
  | inl e ↦ rw (lookup-insert j k (v ∷ []) h, e) refl
  | inr e ↦ rw (lookup-insert j k (v ∷ []) h, e) refl
]

abbrev pub is_one_of : String → List String → Bool
is_one_of k [] = false
is_one_of k (j ∷ js) = str_eq j k || is_one_of k js

header_get-header_del :
    (j k : String) (h : Header)
    → header_get k (header_del j h) ≡ (if str_eq j k then "" else header_get k h)
unfolding header_get header_del first_of
header_get-header_del j k h = elim (Bool-cases (str_eq j k)) [
  | inl e ↦ rw (lookup-delete j k h, e) refl
  | inr e ↦ rw (lookup-delete j k h, e) refl
]

-- A header that is set only where it is empty.
header_get-default :
    (j k v : String) (h : Header)
    → header_get k (if str_eq (header_get j h) "" then header_set j v h else h) ≡ (
        if str_eq j k
        then (if str_eq (header_get j h) "" then v else header_get j h)
        else header_get k h)
header_get-default j k v h = elim (Bool-cases (str_eq (header_get j h) "")) [
  | inl e ↦ rw e (header_get-header_set j k v h)
  | inr e ↦ rw e (elim (Bool-cases (str_eq j k)) [
    | inl same ↦ rw same (ap (λ i. header_get i h) (sym ((eq_iff j k).0 same)))
    | inr other ↦ rw other refl
  ])
]

abbrev forwarded_names : List String
forwarded_names =
    "X-Forwarded-For" ∷ "X-Forwarded-Host" ∷ "X-Forwarded-Proto" ∷ "X-Gateway" ∷ "X-Gateway-Time"
    ∷ []

-- The request that `modifyRequest` leaves: for the host of the target, from the client that an
-- earlier proxy named or else that of the connection, with the protocol of the connection, and
-- otherwise as it came.
pub record IsForwarded (time target_host : String) (req req' : Request) : Type 0 where
  pub to_target : req'.host ≡ target_host
  pub for_client : header_get "X-Forwarded-For" req'.header ≡ (
      if str_eq (header_get "X-Forwarded-For" req.header) ""
      then req.remote_addr
      else header_get "X-Forwarded-For" req.header)
  pub for_host : header_get "X-Forwarded-Host" req'.header ≡ header_get "Host" req.header
  pub for_proto : header_get "X-Forwarded-Proto" req'.header ≡ (if req.tls then "https" else "http")
  pub by_gateway : header_get "X-Gateway" req'.header ≡ "api-gateway"
  pub at_time : header_get "X-Gateway-Time" req'.header ≡ time
  pub others :
      (k : String)
      → is_one_of k forwarded_names ≡ false
      → header_get k req'.header ≡ header_get k req.header

-- The response that a client gets: with an origin, the names of the gateway and without that of
-- the server, and otherwise as it came.
pub record IsCleaned (time : String) (resp resp' : Response) : Type 0 where
  pub same_status : resp'.status_code ≡ resp.status_code
  pub no_server : lookup "Server" resp'.header ≡ none
  pub origin : header_get "Access-Control-Allow-Origin" resp'.header ≡ (
      if str_eq (header_get "Access-Control-Allow-Origin" resp.header) ""
      then "*"
      else header_get "Access-Control-Allow-Origin" resp.header)
  pub by_gateway : header_get "X-Gateway" resp'.header ≡ "api-gateway"
  pub at_time : header_get "X-Gateway-Time" resp'.header ≡ time
  pub others :
      (k : String)
      → is_one_of k ("Access-Control-Allow-Origin" ∷ "X-Gateway" ∷ "X-Gateway-Time" ∷ "Server" ∷ [])
        ≡ false
      → header_get k resp'.header ≡ header_get k resp.header

header_get-modify_response :
    (time : String) (resp : Response) (k : String)
    → header_get k (modify_response time resp).header ≡ (
        if str_eq "Server" k
        then ""
        else if str_eq "X-Gateway-Time" k
        then time
        else if str_eq "X-Gateway" k
        then "api-gateway"
        else if str_eq "Access-Control-Allow-Origin" k
        then (if str_eq (header_get "Access-Control-Allow-Origin" resp.header) ""
            then "*"
            else header_get "Access-Control-Allow-Origin" resp.header)
        else header_get k resp.header)
unfolding modify_response
header_get-modify_response time resp k =
    simp (header_get-header_del, header_get-header_set, header_get-default)

-- Every response comes back as `IsCleaned` says.
pub modify_response-IsCleaned :
    (time : String) (resp : Response) → IsCleaned time resp (modify_response time resp)
unfolding modify_response header_del
modify_response-IsCleaned time resp =
    let at = header_get-modify_response time resp in
    record {
      same_status = refl;
      no_server = lookup-delete "Server" "Server" _;
      origin = at "Access-Control-Allow-Origin";
      by_gateway = at "X-Gateway";
      at_time = at "X-Gateway-Time";
      others = λ k h. at k ∙ ground arith;
    }
