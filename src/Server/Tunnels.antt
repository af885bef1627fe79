-- ===== src/Server/Tunnels.antt =====
-- internal/server/server.go: the server's sessions and tunnels. A tunnel's fields do not change;
-- what changes of it (its timer, its `closed` channel, its listener) stands in the server's state.
-- Two tunnel objects are told apart by their session's ID and their own. A session that is not in
-- the map is one whose `Tunnels` is nil. Times are in nanoseconds, and a zero time is `none`.
pub mod Create
pub mod Close
pub mod Login
pub mod Linked
pub mod Runs
pub mod Safe
pub mod Accounts
pub mod Limits
pub mod Outcome
pub mod Holds
use wire_rift.Prelude.{
  ℕ, zero, suc, ◌+◌, Bool, true, false, ◌&&◌, if◌then◌else◌, maybe, List, [], ◌∷◌, length, Option,
  none, some, Bytes, eq_bytes, lookup, delete, store, modify, ltb, leb,
}
use wire_rift.Auth.{Token, Account}
use wire_rift.Auth
use wire_rift.RateLimit
use wire_rift.Server.Held.{HeldNames}
use wire_rift.Server.Names.{port_key, custom_key}
use wire_rift.Server.Ports.{Ports}

-- Go's int
pub data ℤ : Type 0 where
  pos negsuc : ℕ → ℤ

-- `proto.TunnelType`, a string: "http", "tcp", or anything else that a client sends.
pub data TunnelType : Type 0 where
  http tcp : TunnelType
  other_type : Bytes → TunnelType

-- `proto.TunnelAuth`
pub record TunnelAuth : Type 0 where
  pub auth_type : Bytes
  pub username : Bytes
  pub password : Bytes

-- `proto.TunnelRequest`
pub record TunnelRequest : Type 0 where
  pub tunnel_type : TunnelType
  pub subdomain : Bytes
  pub remote_port : ℤ
  pub local_addr : Bytes
  pub inspect : Bool
  pub auth : Option TunnelAuth
  pub headers : List (Bytes × Bytes)
  pub allowed_ips : List Bytes
  pub pin : Bytes
  pub custom_domain : Bytes
  pub ttl_seconds : ℤ
  pub reconnect : Bool

-- `Tunnel`
pub record Tunnel : Type 0 where
  pub id : Bytes
  pub tunnel_type : TunnelType
  pub session_id : Bytes
  pub account_id : Bytes
  pub subdomain : Bytes
  pub custom_domain : Bytes
  pub port : ℕ
  pub public_url : Bytes
  pub local_addr : Bytes
  pub allowed_ips : List Bytes
  pub pin : Bytes
  pub auth : Option TunnelAuth
  pub headers : List (Bytes × Bytes)
  pub inspect : Bool
  pub created_at : ℕ
  pub expires_at : Option ℕ

-- `Session`; `go_away` says that its multiplexer has received a GO_AWAY.
pub record Session : Type 0 where
  pub id : Bytes
  pub account_id : Bytes
  pub account : Option Account
  pub token : Option Token
  pub go_away : Bool
  pub tunnels : List (Bytes × Tunnel)
  pub created_at : ℕ
  pub last_seen : ℕ

-- The fields of `Config` that are used here.
pub record Config : Type 0 where
  pub domain : Bytes
  pub public_scheme : Bytes
  pub public_port : ℕ
  pub session_timeout : ℕ
  pub max_tunnels_per_session : ℕ
  pub offline_grace : ℕ

-- `Server`. `closed` has the tunnels whose `closed` channel is closed, `timers` those whose expiry
-- timer runs, and `listeners` the ports with an open listener.
pub record Server : Type 0 where
  pub config : Config
  pub domain_secret : Bytes
  pub auth_manager : Auth.Manager
  pub sessions : List (Bytes × Session)
  pub tunnels : List (Bytes × Tunnel)
  pub rate_limiter : RateLimit.Manager
  pub auth_fails : RateLimit.Manager
  pub held : HeldNames
  pub ports : Ports
  pub listeners : ℕ → Bool
  pub closed : List Tunnel
  pub timers : List Tunnel
  pub shutting_down : Bool

-- Whether two tunnels are one object.
unfoldable pub same_tunnel : Tunnel → Tunnel → Bool
same_tunnel t u = eq_bytes t.session_id u.session_id && eq_bytes t.id u.id

-- The tunnels of a session, where it is not nil, and one of them.
unfoldable pub tunnels_of : Bytes → Server → Option (List (Bytes × Tunnel))
tunnels_of session_id s = maybe (lookup session_id s.sessions) none (λ x. some x.tunnels)

unfoldable pub listed : Bytes → Bytes → Server → Option Tunnel
listed session_id tunnel_id s = maybe (tunnels_of session_id s) none (lookup tunnel_id)

-- A change of a session's tunnels.
abbrev pub with_tunnels : (List (Bytes × Tunnel) → List (Bytes × Tunnel)) → Session → Session
with_tunnels f x = record x { tunnels = f x.tunnels }

unfoldable pub unlist : Bytes → Bytes → Server → Server
unlist session_id tunnel_id s = record s {
  sessions = modify session_id (with_tunnels (delete tunnel_id)) s.sessions;
}

unfoldable pub enlist : Tunnel → Server → Server
enlist t s = record s { sessions = modify t.session_id (with_tunnels (store t.id t)) s.sessions }

-- `accountSessionCount` and `accountTunnelCount`
unfoldable pub account_session_count : Bytes → List (Bytes × Session) → ℕ
account_session_count account_id [] = 0
account_session_count account_id ((_, x) ∷ sessions) =
    (if eq_bytes x.account_id account_id then 1 else 0) + account_session_count account_id sessions

unfoldable pub account_tunnel_count : Bytes → List (Bytes × Session) → ℕ
account_tunnel_count account_id [] = 0
account_tunnel_count account_id ((_, x) ∷ sessions) =
    (if eq_bytes x.account_id account_id then length x.tunnels else 0)
    + account_tunnel_count account_id sessions

-- `Session.addTunnel`
unfoldable pub session_add_tunnel : Tunnel → ℕ → Server → Bool × Server
session_add_tunnel t limit s =
    maybe (tunnels_of t.session_id s) (false, s)
      (λ tunnels. if leb limit (length tunnels) then (false, s) else (true, enlist t s))

-- What a client is told when a tunnel is not made.
pub data Refusal : Type 0 where
  invalid_request rate_limit_exceeded account_tunnel_limit max_tunnels_exceeded : Refusal
  invalid_ttl custom_domain_needs_http unsupported_type invalid_subdomain : Refusal
  subdomain_reserved unsupported_auth incomplete_auth bad_custom_domain : Refusal
  subdomain_taken custom_domain_in_use session_closed no_ports bind_error : Refusal

-- The account's limit on tunnels, as the session has it from its login.
unfoldable pub over_account_limit : Session → Server → Bool
over_account_limit x s =
    maybe x.account false
      (λ a. ltb 0 a.max_tunnels && leb a.max_tunnels (account_tunnel_count a.id s.sessions))

-- `Server.addTunnel`; `none` is the empty reason.
unfoldable pub add_tunnel : Session → Tunnel → Server → Option Refusal × Server
add_tunnel x t s =
    let r = session_add_tunnel t s.config.max_tunnels_per_session s in
    if over_account_limit x s
    then (some account_tunnel_limit, s)
    else if r.0
    then (none, r.1)
    else (some session_closed, s)

-- What `handleTunnelRequests` does to its session on a control frame, and a GO_AWAY that its
-- multiplexer receives.
unfoldable pub touch : ℕ → Bytes → Server → Server
touch now session_id s = record s {
  sessions = modify session_id (λ x. record x { last_seen = now }) s.sessions;
}

unfoldable pub receive_go_away : Bytes → Server → Server
receive_go_away session_id s = record s {
  sessions = modify session_id (λ x. record x { go_away = true }) s.sessions;
}
