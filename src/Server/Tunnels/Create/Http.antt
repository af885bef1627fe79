-- ===== src/Server/Tunnels/Create/Http.antt =====
-- internal/server/server.go: how an HTTP tunnel is made.
use wire_rift.Prelude.{
  ℕ, Bool, true, false, not, ◌&&◌, ◌==◌, if◌then◌else◌, maybe, List, length, Option, some, Bytes,
  eq_bytes, lookup, delete, store, has_key,
}
use wire_rift.Utils.{is_valid_subdomain, is_reserved_subdomain}
use wire_rift.Server.Held.{held_by}
use wire_rift.Server.Names.{custom_key, public_http_url, public_url_for_host}
use wire_rift.Server.CustomDomain.{Externals, Checked, rejected, accepted}
use wire_rift.Server.Tunnels.{
  Tunnel, TunnelType, http, tcp, other_type, TunnelAuth, TunnelRequest, Session, Server, Config,
  unlist, add_tunnel, Refusal, invalid_subdomain, subdomain_reserved, bad_custom_domain,
  subdomain_taken, custom_domain_in_use,
}
use wire_rift.Server.Tunnels.Close.{mark_closed, expiry_for, arm_expiry}
use wire_rift.Server.Tunnels.Create.Request.{
  Reply, validate_tunnel_auth, prepare_custom_domain, refused, created,
}

-- The tunnel that `createHTTPTunnel` builds.
unfoldable pub http_tunnel : ℕ → Session → TunnelRequest → Bytes → Bytes → Bytes → Config → Tunnel
http_tunnel now x req tunnel_id subdomain custom_domain c = record {
  id = tunnel_id;
  tunnel_type = http;
  session_id = x.id;
  account_id = x.account_id;
  subdomain = subdomain;
  custom_domain = custom_domain;
  port = 0;
  public_url =
      if length custom_domain == 0
      then public_http_url c.domain c.public_scheme c.public_port subdomain
      else public_url_for_host c.public_scheme c.public_port custom_domain;
  local_addr = req.local_addr;
  allowed_ips = req.allowed_ips;
  pin = req.pin;
  auth = req.auth;
  headers = req.headers;
  inspect = req.inspect;
  created_at = now;
  expires_at = expiry_for now req.ttl_seconds;
}

-- Whether `takeOver` hands over the tunnel: an HTTP tunnel without a custom domain, of the same
-- account in another session.
unfoldable pub is_http : TunnelType → Bool
is_http http = true
is_http tcp = false
is_http (other_type n) = false

unfoldable pub can_take_over : Session → Tunnel → Bool
can_take_over x old =
    is_http old.tunnel_type
    && length old.custom_domain == 0
    && eq_bytes old.account_id x.account_id
    && not (eq_bytes old.session_id x.id)

-- `takeOver` once the old tunnel is loaded. Its compare-and-swap finds what was just loaded.
unfoldable pub replace_tunnel : Tunnel → Tunnel → Server → Server
replace_tunnel old fresh s =
    unlist old.session_id old.id
      (mark_closed old (record s { tunnels = store fresh.subdomain fresh s.tunnels }))

-- The claim of the subdomain: LoadOrStore, and `takeOver` for a client that reconnects.
unfoldable pub claim_subdomain : Bool → Session → Tunnel → Server → Bool × Server
claim_subdomain reconnect x t s =
    maybe (lookup t.subdomain s.tunnels)
      (true, record s { tunnels = store t.subdomain t s.tunnels })
      (λ old.
        if (reconnect && can_take_over x old) then (true, replace_tunnel old t s) else (false, s))

-- The claim of the custom domain, which gives the subdomain up where it fails.
unfoldable pub claim_custom_domain : Tunnel → Server → Bool × Server
claim_custom_domain t s =
    if length t.custom_domain == 0
    then (true, s)
    else if has_key (custom_key t.custom_domain) s.tunnels
    then (false, record s { tunnels = delete t.subdomain s.tunnels })
    else (true, record s { tunnels = store (custom_key t.custom_domain) t s.tunnels })

-- The registration on the session, which gives the names up where it fails.
unfoldable pub withdraw : Tunnel → List (Bytes × Tunnel) → List (Bytes × Tunnel)
withdraw t m =
    let rest = delete t.subdomain m in
    if length t.custom_domain == 0 then rest else delete (custom_key t.custom_domain) rest

unfoldable pub register_http : Session → Tunnel → Server → Reply × Server
register_http x t s =
    let r = add_tunnel x t s in
    maybe r.0 (created t, arm_expiry t (record (r.1) { held = delete t.subdomain r.1.held }))
      (λ refusal. (refused refusal, record (r.1) { tunnels = withdraw t r.1.tunnels }))

-- A name on hold for another account.
unfoldable pub held_elsewhere : Session → Option Bytes → Bool
held_elsewhere x o = maybe o false (λ owner. not (eq_bytes owner x.account_id))

-- `createHTTPTunnel` from the hold's test on, with the tunnel built.
unfoldable pub publish_http : ℕ → Session → Bool → Tunnel → Server → Reply × Server
publish_http now x reconnect t s =
    let asked = held_by now t.subdomain s.held in
    let s0 = record s { held = asked.1 } in
    let claim = claim_subdomain reconnect x t s0 in
    let custom = claim_custom_domain t claim.1 in
    let done = register_http x t custom.1 in
    if held_elsewhere x asked.0
    then (refused subdomain_taken, s0)
    else if not claim.0
    then (refused subdomain_taken, s0)
    else if not custom.0
    then (refused custom_domain_in_use, custom.1)
    else done

-- The guards of `createHTTPTunnel` on the name and the auth block.
unfoldable pub check_http : Bytes → Option TunnelAuth → Option Refusal
check_http subdomain auth =
    if not (is_valid_subdomain subdomain)
    then some invalid_subdomain
    else if is_reserved_subdomain subdomain
    then some subdomain_reserved
    else validate_tunnel_auth auth

-- `createHTTPTunnel` after `prepareCustomDomain`.
unfoldable pub create_checked :
    ℕ → Session → TunnelRequest → Bytes → Bytes → Server → Checked → Reply × Server
create_checked now x req tunnel_id subdomain s (rejected e) = (refused bad_custom_domain, s)
create_checked now x req tunnel_id subdomain s (accepted custom_domain) =
    publish_http now x req.reconnect
      (http_tunnel now x req tunnel_id subdomain custom_domain s.config) s

-- `createHTTPTunnel`; `random` is what `generateSubdomain` gives for a request without a name.
unfoldable pub create_http_tunnel :
    Externals → ℕ → Session → TunnelRequest → Bytes → Bytes → Server → Reply × Server
create_http_tunnel lib now x req tunnel_id random s =
    let name = lib.to_lower req.subdomain in
    let subdomain = if length name == 0 then random else name in
    maybe (check_http subdomain req.auth)
      (create_checked now x req tunnel_id subdomain s
        (prepare_custom_domain lib x req.custom_domain s))
      (λ refusal. (refused refusal, s))
