-- ===== src/Server/Tunnels/Create.antt =====
-- internal/server/server.go: how a request for a tunnel is handled.
mod Request
mod Http
mod Tcp
unfoldable pub use Request.*
unfoldable pub use Http.*
unfoldable pub use Tcp.*
use wire_rift.Prelude.{
  ℕ, ◌*◌, Bool, true, false, not, ◌&&◌, ◌==◌, if◌then◌else◌, maybe, length, Option, none, some,
  Bytes, leb,
}
use wire_rift.Server.CustomDomain.{Externals}
use wire_rift.Server.Tunnels.{
  TunnelType, http, tcp, other_type, TunnelRequest, Session, Server, ℤ, pos, negsuc, tunnels_of,
  over_account_limit, Refusal, invalid_request, rate_limit_exceeded, account_tunnel_limit,
  max_tunnels_exceeded, invalid_ttl, custom_domain_needs_http, unsupported_type,
}

-- `maxTunnelTTLSeconds`, one year
abbrev pub max_tunnel_ttl_seconds : ℕ
max_tunnel_ttl_seconds = 365 * 24 * 3600

unfoldable pub is_valid_ttl : ℤ → Bool
is_valid_ttl (pos n) = leb n max_tunnel_ttl_seconds
is_valid_ttl (negsuc n) = false

-- The guards of `handleTunnelRequest` after the rate limit, in order.
unfoldable pub check_request : Session → TunnelRequest → Server → Option Refusal
check_request x req s =
    if over_account_limit x s
    then some account_tunnel_limit
    else if maybe (tunnels_of x.id s) true
        (λ tunnels. leb s.config.max_tunnels_per_session (length tunnels))
    then some max_tunnels_exceeded
    else if not (is_valid_ttl req.ttl_seconds)
    then some invalid_ttl
    else if (not (length req.custom_domain == 0) && not (is_http req.tunnel_type))
    then some custom_domain_needs_http
    else none

-- The switch on the type; `tunnel_id` is "tun_" and what `generateSubdomain` gave.
unfoldable pub create_tunnel :
    Externals → ℕ → Session → TunnelRequest → Bytes → Bytes → Server → TunnelType → Reply × Server
create_tunnel lib now x req tunnel_id random s http =
    create_http_tunnel lib now x req tunnel_id random s
create_tunnel lib now x req tunnel_id random s tcp = create_tcp_tunnel lib now x req tunnel_id s
create_tunnel lib now x req tunnel_id random s (other_type n) = (refused unsupported_type, s)

-- `handleTunnelRequest` for a request that decodes, at time `now`.
unfoldable pub handle_decoded :
    Externals → ℕ → Session → TunnelRequest → Bytes → Bytes → Server → Reply × Server
handle_decoded lib now x req tunnel_id random s =
    let r = allow_tunnel_request now x s in
    if not r.0
    then (refused rate_limit_exceeded, r.1)
    else maybe (check_request x req r.1)
        (create_tunnel lib now x req tunnel_id random r.1 req.tunnel_type)
        (λ refusal. (refused refusal, r.1))

-- `handleTunnelRequest`; `none` is a payload that does not decode.
unfoldable pub handle_tunnel_request :
    Externals → ℕ → Session → Option TunnelRequest → Bytes → Bytes → Server → Reply × Server
handle_tunnel_request lib now x request tunnel_id random s =
    maybe request (refused invalid_request, s)
      (λ req. handle_decoded lib now x req tunnel_id random s)
