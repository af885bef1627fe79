-- ===== src/Server/Tunnels/Limits.antt =====
-- The limits on sessions and tunnels that a login and a request leave kept.
mod Counts
use wire_rift.Prelude.{
  ℕ, Bool, not, ◌==◌, if◌then◌else◌, if_cases, maybe, maybe_cases, length, Option, none, some,
  Bytes, delete,
}
use wire_rift.Server.Held.{held_by}
use wire_rift.Server.Names.{port_key}
use wire_rift.Server.Ports.{
  Ports, Listened, listening, bind_failed, port_unavailable, listen_tunnel_port, release_port,
  drop_port,
}
use wire_rift.Server.CustomDomain.{Externals, Checked, rejected, accepted}
use wire_rift.Server.Tunnels.{
  Tunnel, TunnelType, http, tcp, other_type, TunnelRequest, Session, Server, tunnels_of, listed,
  add_tunnel, Refusal,
}
use wire_rift.Server.Tunnels.Close.{arm_expiry}
use wire_rift.Server.Tunnels.Create.{
  Reply, refused, created, withdraw, claim_subdomain, claim_custom_domain, register_http,
  held_elsewhere, publish_http, http_tunnel, tcp_tunnel, check_http, create_checked,
  create_http_tunnel, prepare_custom_domain, register_tcp, publish_tcp, create_listened,
  create_tcp_tunnel, create_tunnel, allow_tunnel_request, check_request, handle_decoded,
  handle_tunnel_request,
}
use wire_rift.Server.Tunnels.Limits.Counts.{WithinLimits, IfAdded, add_tunnel-IfAdded}

-- What a reply says, if a tunnel was made.
abbrev pub IfCreated : Session → Reply × Server → Type 0
IfCreated x (created t, s) = WithinLimits x t s
IfCreated x (refused f, s) = Unit {0}

arm_expiry-limits :
    (x : Session) (t : Tunnel) (s : Server) → WithinLimits x t s → WithinLimits x t (arm_expiry t s)
unfolding arm_expiry tunnels_of
arm_expiry-limits x t s w =
    maybe_cases (WithinLimits x t) t.expires_at (λ _. w)
      (λ _ _. maybe_cases (WithinLimits x t) (listed t.session_id t.id s) (λ _. w) (λ _ _. w))

registered_http :
    (x : Session) (t : Tunnel) (r : Option Refusal × Server)
    → IfAdded x t r
    → IfCreated x (
        maybe r.0
          (created t, arm_expiry t (record (r.1) { held = delete t.subdomain r.1.held }))
          (λ refusal. (refused refusal, record (r.1) { tunnels = withdraw t r.1.tunnels })))
unfolding tunnels_of
registered_http x t (none, s) w =
    arm_expiry-limits x t (record s { held = delete t.subdomain s.held }) w
registered_http x t (some f, s) w = tt

publish_http-limits :
    (now : ℕ) (x : Session) (reconnect : Bool) (t : Tunnel) (s : Server)
    → IfCreated x (publish_http now x reconnect t s)
unfolding publish_http register_http
publish_http-limits now x reconnect t s =
    if_cases (IfCreated x) (held_elsewhere x (held_by now t.subdomain s.held).0) tt (
      if_cases (IfCreated x) (not claim.0) tt (
        if_cases (IfCreated x) (not (claim_custom_domain t claim.1).0) tt (
          registered_http x t (add_tunnel x t (claim_custom_domain t claim.1).1)
            (add_tunnel-IfAdded x t (claim_custom_domain t claim.1).1))))
  where
    claim : Bool × Server
    claim = claim_subdomain reconnect x t (record s { held = (held_by now t.subdomain s.held).1 })

create_checked-limits :
    (now : ℕ) (x : Session) (req : TunnelRequest) (tunnel_id subdomain : Bytes) (s : Server)
    (c : Checked)
    → IfCreated x (create_checked now x req tunnel_id subdomain s c)
unfolding create_checked
create_checked-limits now x req tunnel_id subdomain s (rejected e) = tt
create_checked-limits now x req tunnel_id subdomain s (accepted custom) =
    publish_http-limits now x req.reconnect
      (http_tunnel now x req tunnel_id subdomain custom s.config) s

registered_tcp :
    (x : Session) (t : Tunnel) (r : Option Refusal × Server)
    → IfAdded x t r
    → IfCreated x (
        maybe r.0
          (created t, arm_expiry t r.1)
          (λ refusal. (
            refused refusal,
            record (r.1) {
              tunnels = delete (port_key t.port) r.1.tunnels;
              listeners = drop_port t.port r.1.listeners;
              ports = release_port t.port r.1.ports;
            },
          )))
registered_tcp x t (none, s) w = arm_expiry-limits x t s w
registered_tcp x t (some f, s) w = tt

create_listened-limits :
    (now : ℕ) (x : Session) (req : TunnelRequest) (tunnel_id : Bytes) (s : Server)
    (r : Listened × Ports)
    → IfCreated x (create_listened now x req tunnel_id s r)
unfolding create_listened publish_tcp register_tcp
create_listened-limits now x req tunnel_id s (listening port, p) =
    registered_tcp x (tcp_tunnel now x req tunnel_id port s.config) _ (add_tunnel-IfAdded x _ _)
create_listened-limits now x req tunnel_id s (bind_failed, p) = tt
create_listened-limits now x req tunnel_id s (port_unavailable, p) = tt

create_tunnel-limits :
    (lib : Externals) (now : ℕ) (x : Session) (req : TunnelRequest) (tunnel_id random : Bytes)
    (s : Server) (y : TunnelType)
    → IfCreated x (create_tunnel lib now x req tunnel_id random s y)
unfolding create_tunnel create_http_tunnel create_tcp_tunnel
create_tunnel-limits lib now x req tunnel_id random s http =
    maybe_cases (IfCreated x) (check_http subdomain req.auth)
      (λ _.
        create_checked-limits now x req tunnel_id subdomain s
          (prepare_custom_domain lib x req.custom_domain s))
      (λ _ _. tt)
  where
    subdomain : Bytes
    subdomain =
        if length (lib.to_lower req.subdomain) == 0 then random else lib.to_lower req.subdomain
create_tunnel-limits lib now x req tunnel_id random s tcp =
    create_listened-limits now x req tunnel_id s (listen_tunnel_port lib.can_bind s.ports)
create_tunnel-limits lib now x req tunnel_id random s (other_type n) = tt

-- A tunnel is only made when afterwards its session has at most the configured number of tunnels,
-- and all live sessions of its account together have at most the account's, where that is limited.
pub handle_tunnel_request-limits :
    (lib : Externals) (now : ℕ) (x : Session) (request : Option TunnelRequest)
    (tunnel_id random : Bytes) (s : Server)
    → IfCreated x (handle_tunnel_request lib now x request tunnel_id random s)
unfolding handle_tunnel_request handle_decoded
handle_tunnel_request-limits lib now x request tunnel_id random s =
    maybe_cases (IfCreated x) request (λ _. tt)
      (λ req _. if_cases (IfCreated x) (not (allow_tunnel_request now x s).0) tt (
        maybe_cases (IfCreated x) (check_request x req (allow_tunnel_request now x s).1)
          (λ _.
            create_tunnel-limits lib now x req tunnel_id random (allow_tunnel_request now x s).1
              req.tunnel_type)
          (λ _ _. tt)))
