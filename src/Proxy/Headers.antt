-- ===== src/Proxy/Headers.antt =====
-- `modifyRequest` and `modifyResponse` of internal/proxy/reverse_proxy.go, on what they read and write
-- of a request and a response. The keys of a header are in the canonical form, as net/http keeps
-- them. The time is given as the text that the code makes of it.
pub mod Rewrites
use apigateway_distributed_s.Base.{
  ℕ, Bool, Option, none, some, List, [], ◌∷◌, String, str_eq, if◌then◌else◌, Dict, lookup, insert,
  delete,
}

abbrev pub Header : Type 0
Header = Dict (List String)

-- `Header.Get`: the first value, or the empty text.
unfoldable pub first_of : Option (List String) → String
first_of none = ""
first_of (some []) = ""
first_of (some (v ∷ vs)) = v

unfoldable pub header_get : String → Header → String
unfolding first_of
header_get key h = first_of (lookup key h)

unfoldable pub header_set : String → String → Header → Header
header_set key value h = insert key (value ∷ []) h

unfoldable pub header_del : String → Header → Header
header_del key h = delete key h

pub record Request : Type 0 where
  pub host : String
  pub header : Header
  pub remote_addr : String
  pub tls : Bool

pub record Response : Type 0 where
  pub status_code : ℕ
  pub header : Header

unfoldable pub modify_request : String → String → Request → Request
modify_request time target_host req =
    let from_client =
      if str_eq (header_get "X-Forwarded-For" req.header) ""
      then header_set "X-Forwarded-For" req.remote_addr req.header
      else req.header in
    let with_host = header_set "X-Forwarded-Host" (header_get "Host" from_client) from_client in
    let with_http = header_set "X-Forwarded-Proto" "http" with_host in
    let with_proto =
      if req.tls then header_set "X-Forwarded-Proto" "https" with_http else with_http in
    let with_gateway = header_set "X-Gateway" "api-gateway" with_proto in
    record req { host = target_host; header = header_set "X-Gateway-Time" time with_gateway }

unfoldable pub modify_response : String → Response → Response
modify_response time resp =
    let with_origin =
      if str_eq (header_get "Access-Control-Allow-Origin" resp.header) ""
      then header_set "Access-Control-Allow-Origin" "*" resp.header
      else resp.header in
    let with_gateway = header_set "X-Gateway" "api-gateway" with_origin in
    let with_time = header_set "X-Gateway-Time" time with_gateway in
    record resp { header = header_del "Server" with_time }
