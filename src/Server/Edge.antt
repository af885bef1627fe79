-- ===== src/Server/Edge.antt =====
-- internal/server/http_edge.go and customdomain.go: which tunnel an HTTP request's host leads to.
pub mod Hosts
pub mod Routes
pub mod Custom
pub mod Urls
pub mod Access
use wire_rift.Prelude.{
  ℕ, ◌-◌, Bool, true, false, not, ◌==◌, if◌then◌else◌, maybe, List, [], ◌∷◌, length, take, drop,
  Option, none, some, Bytes, eq_bytes, lookup, has_key, leb,
}
use wire_rift.Server.Held.{held_by}
use wire_rift.Server.Names.{custom_key}
use wire_rift.Server.CustomDomain.{Externals, normalize_host_header}
use wire_rift.Server.Tunnels.{Tunnel, Session, Server}

-- What stands before the last colon.
unfoldable pub before_colon : Bytes → Option Bytes
before_colon [] = none
before_colon (c ∷ s) =
    maybe (before_colon s) (if c == 58 then some [] else none) (λ rest. some (c ∷ rest))

-- The loop of `extractSubdomain` that removes the port.
unfoldable pub cut_port : Bytes → Bytes
cut_port host = maybe (before_colon host) host (λ h. h)

-- `extractSubdomain` once the host is in lower case.
unfoldable pub cut_suffix : Bytes → Bytes → Bytes
cut_suffix host suffix =
    let n = length host - length suffix in
    if leb (length host) (length suffix)
    then []
    else if not (eq_bytes (drop n host) suffix)
    then []
    else take n host

-- `extractSubdomain`
unfoldable pub extract_subdomain : Externals → Bytes → Bytes → Bytes
extract_subdomain lib host domain =
    cut_suffix (lib.to_lower (cut_port host)) (46 ∷ lib.to_lower domain)

-- `getTunnelBySubdomain`
abbrev pub get_tunnel_by_subdomain : Bytes → Server → Option Tunnel
get_tunnel_by_subdomain subdomain s = lookup subdomain s.tunnels

-- `getSession`
abbrev pub get_session : Bytes → Server → Option Session
get_session id s = lookup id s.sessions

-- `getTunnelByCustomHost`; `split_host_port` is net.SplitHostPort's host, where it has one.
unfoldable pub get_tunnel_by_custom_host :
    Externals → (Bytes → Option Bytes) → Bytes → Server → Option Tunnel
get_tunnel_by_custom_host lib split_host_port host s =
    lookup (custom_key (normalize_host_header lib (split_host_port host) host)) s.tunnels

-- `IsCustomDomainActive`
unfoldable pub is_custom_domain_active : Externals → (Bytes → Option Bytes) → Bytes → Server → Bool
is_custom_domain_active lib split_host_port host s =
    maybe (get_tunnel_by_custom_host lib split_host_port host s) false (λ _. true)

-- `IsHostServed`
unfoldable pub is_host_served : Externals → (Bytes → Option Bytes) → Bytes → Server → Bool
is_host_served lib split_host_port host s =
    let name = normalize_host_header lib (split_host_port host) host in
    let sub = extract_subdomain lib name s.config.domain in
    if not (length sub == 0)
    then has_key sub s.tunnels
    else is_custom_domain_active lib split_host_port name s

-- What `handleHTTPRequest` makes of the host: an error page, or a tunnel and the name that the
-- rest of the handler uses for it.
pub data Route : Type 0 where
  invalid_host tunnel_offline tunnel_not_found : Route
  routed : Tunnel → Bytes → Route

-- The look-up of `handleHTTPRequest`, at time `now`.
unfoldable pub route_subdomain : ℕ → Bytes → Server → Route × Server
route_subdomain now sub s =
    let asked = held_by now sub s.held in
    maybe (get_tunnel_by_subdomain sub s)
      (maybe asked.0 tunnel_not_found (λ _. tunnel_offline), record s { held = asked.1 })
      (λ t. (routed t sub, s))

unfoldable pub route_request :
    Externals → (Bytes → Option Bytes) → ℕ → Bytes → Server → Route × Server
route_request lib split_host_port now host s =
    let sub = extract_subdomain lib host s.config.domain in
    if length sub == 0
    then maybe (get_tunnel_by_custom_host lib split_host_port host s) (invalid_host, s)
        (λ t. (routed t t.subdomain, s))
    else route_subdomain now sub s
