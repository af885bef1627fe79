-- ===== src/Examples/Edge.antt =====
-- Where a request's host leads, on the server of Examples.Tunnels.
use wire_rift.Prelude.{[], some, ◌∷◌, none}
use wire_rift.Server.Edge.{route_request}
use wire_rift.Server.Edge.Routes.{IfRouted, route_request-IfRouted}
use wire_rift.Server.Edge.Access.{Net, Request, handle_http_request}
use wire_rift.Server.Edge.Access.Forwarded.{IfForwarded, handle_http_request-IfForwarded}
use wire_rift.Examples.Tunnels.{lib, served, served-IsTied}

-- The host "ab.d"
route_request-IfRouted_example :
    IfRouted lib
      (λ _. none)
      (97 ∷ 98 ∷ 46 ∷ 100 ∷ [])
      (route_request lib (λ _. none) 8 (97 ∷ 98 ∷ 46 ∷ 100 ∷ []) served)
route_request-IfRouted_example =
    route_request-IfRouted lib (λ _. none) (97 ∷ 98 ∷ 46 ∷ 100 ∷ []) 8 served served-IsTied.0

-- The network functions of an edge that has no ports in its addresses.
abbrev net : Net
net = record { split_host_port = λ _. none; parse_ip = λ s. some s; parse_cidr = λ _. none }

-- A request for "ab.d" from the address "1"
abbrev visit : Request
visit = record {
  host = 97 ∷ 98 ∷ 46 ∷ 100 ∷ [];
  remote_ip = 49 ∷ [];
  basic_auth = none;
  cookie = λ _. none;
  header_pin = [];
  query_pin = [];
  form_pin = none;
}

handle_http_request-IfForwarded_example :
    IfForwarded lib net
      (9 ∷ [])
      8
      visit
      []
      (handle_http_request lib net (9 ∷ []) 8 visit served []).1.0
      (handle_http_request lib net (9 ∷ []) 8 visit served []).0
handle_http_request-IfForwarded_example =
    handle_http_request-IfForwarded lib net (9 ∷ []) 8 visit [] served served-IsTied.0
