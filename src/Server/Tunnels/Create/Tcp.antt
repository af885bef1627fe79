-- ===== src/Server/Tunnels/Create/Tcp.antt =====
-- internal/server/server.go: how a TCP tunnel is made.
use wire_rift.Prelude.{ℕ, false, maybe, [], ◌∷◌, ◌++◌, none, Bytes, delete, store}
use wire_rift.Server.Names.{port_key, itoa}
use wire_rift.Server.CustomDomain.{Externals}
use wire_rift.Server.Ports.{
  Ports, Listened, listening, bind_failed, port_unavailable, listen_tunnel_port, release_port,
  add_port, drop_port,
}
use wire_rift.Server.Tunnels.{
  Tunnel, tcp, TunnelRequest, Session, Server, Config, add_tunnel, no_ports, bind_error,
}
use wire_rift.Server.Tunnels.Close.{expiry_for, arm_expiry}
use wire_rift.Server.Tunnels.Create.Request.{Reply, refused, created}

-- "tcp://"
abbrev pub tcp_scheme : Bytes
tcp_scheme = 116 ∷ 99 ∷ 112 ∷ 58 ∷ 47 ∷ 47 ∷ []

-- The tunnel that `createTCPTunnel` builds.
unfoldable pub tcp_tunnel : ℕ → Session → TunnelRequest → Bytes → ℕ → Config → Tunnel
tcp_tunnel now x req tunnel_id port c = record {
  id = tunnel_id;
  tunnel_type = tcp;
  session_id = x.id;
  account_id = x.account_id;
  subdomain = [];
  custom_domain = [];
  port = port;
  public_url = tcp_scheme ++ (c.domain ++ (58 ∷ itoa port));
  local_addr = req.local_addr;
  allowed_ips = req.allowed_ips;
  pin = [];
  auth = none;
  headers = [];
  inspect = false;
  created_at = now;
  expires_at = expiry_for now req.ttl_seconds;
}

-- `createTCPTunnel` once it listens: the tunnel is stored and registered on the session, or the
-- port is given up again.
unfoldable pub register_tcp : Session → Tunnel → Server → Reply × Server
register_tcp x t s =
    let r = add_tunnel x t s in
    maybe r.0 (created t, arm_expiry t r.1)
      (λ refusal. (
        refused refusal,
        record (r.1) {
          tunnels = delete (port_key t.port) r.1.tunnels;
          listeners = drop_port t.port r.1.listeners;
          ports = release_port t.port r.1.ports;
        },
      ))

unfoldable pub publish_tcp : Session → Tunnel → Ports → Server → Reply × Server
publish_tcp x t ports s = register_tcp x t (record s {
  ports = ports;
  listeners = add_port t.port s.listeners;
  tunnels = store (port_key t.port) t s.tunnels;
})

unfoldable pub create_listened :
    ℕ → Session → TunnelRequest → Bytes → Server → Listened × Ports → Reply × Server
create_listened now x req tunnel_id s (listening port, p) =
    publish_tcp x (tcp_tunnel now x req tunnel_id port s.config) p s
create_listened now x req tunnel_id s (bind_failed, p) =
    (refused bind_error, record s { ports = p })
create_listened now x req tunnel_id s (port_unavailable, p) =
    (refused no_ports, record s { ports = p })

-- `createTCPTunnel`
unfoldable pub create_tcp_tunnel :
    Externals → ℕ → Session → TunnelRequest → Bytes → Server → Reply × Server
create_tcp_tunnel lib now x req tunnel_id s =
    create_listened now x req tunnel_id s (listen_tunnel_port lib.can_bind s.ports)
