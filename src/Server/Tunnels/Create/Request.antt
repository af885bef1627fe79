-- ===== src/Server/Tunnels/Create/Request.antt =====
-- internal/server/server.go: the checks on a request for a tunnel, and the reply.
use wire_rift.Prelude.{
  ℕ, ◌*◌, Bool, not, ◌&&◌, ◌||◌, ◌==◌, if◌then◌else◌, maybe, [], ◌∷◌, ◌++◌, length, Option, none,
  some, Bytes, eq_bytes, has_key, ltb,
}
use wire_rift.Auth.{dev_account_id}
use wire_rift.RateLimit
use wire_rift.RateLimit.{allow_key, allow_with}
use wire_rift.Server.Names.{custom_key}
use wire_rift.Server.CustomDomain.{
  Externals, Checked, rejected, accepted, normalize_custom_domain, verify_custom_domain,
  not_verified, in_use,
}
use wire_rift.Server.Tunnels.{
  Tunnel, TunnelAuth, Session, Server, Refusal, unsupported_auth, incomplete_auth,
}

-- The response to a request.
pub data Reply : Type 0 where
  refused : Refusal → Reply
  created : Tunnel → Reply

-- "tunnel:"
abbrev pub tunnel_key : Bytes
tunnel_key = 116 ∷ 117 ∷ 110 ∷ 110 ∷ 101 ∷ 108 ∷ 58 ∷ []

-- The call of the rate limiter in `allowTunnelRequest`.
unfoldable pub ask_limiter : ℕ → Session → RateLimit.Manager → Bool × RateLimit.Manager
ask_limiter now x m = maybe x.account (allow_key now (tunnel_key ++ x.id) m) (λ a.
    if (not (eq_bytes a.id dev_account_id) && ltb 0 a.rate_limit)
    then allow_with now (tunnel_key ++ a.id) (a.rate_limit * 1000) a.rate_limit m
    else allow_key now (tunnel_key ++ a.id) m)

-- `allowTunnelRequest`
unfoldable pub allow_tunnel_request : ℕ → Session → Server → Bool × Server
allow_tunnel_request now x s =
    let r = ask_limiter now x s.rate_limiter in (r.0, record s { rate_limiter = r.1 })

-- "basic"
abbrev pub basic : Bytes
basic = 98 ∷ 97 ∷ 115 ∷ 105 ∷ 99 ∷ []

-- `validateTunnelAuth`; `none` is nil.
unfoldable pub validate_tunnel_auth : Option TunnelAuth → Option Refusal
validate_tunnel_auth auth = maybe auth none (λ a.
    if not (eq_bytes a.auth_type basic)
    then some unsupported_auth
    else if (length a.username == 0 || length a.password == 0)
    then some incomplete_auth
    else none)

-- `prepareCustomDomain`; the empty name is accepted as it is.
unfoldable pub check_owned : Externals → Session → Server → Checked → Checked
check_owned lib x s (rejected e) = rejected e
check_owned lib x s (accepted domain) =
    if not (verify_custom_domain lib s.domain_secret x.account_id domain)
    then rejected not_verified
    else if has_key (custom_key domain) s.tunnels
    then rejected in_use
    else accepted domain

unfoldable pub prepare_custom_domain : Externals → Session → Bytes → Server → Checked
prepare_custom_domain lib x requested s =
    if length requested == 0
    then accepted []
    else check_owned lib x s (normalize_custom_domain lib requested s.config.domain)
