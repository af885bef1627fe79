-- ===== src/Server/Edge/Urls.antt =====
-- The public URL of an HTTP tunnel leads back to it.
use wire_rift.Prelude.{
  ℕ, ◌<◌, ◌≡◌, false, ◌==◌, if◌then◌else◌, [], ◌∷◌, ◌++◌, length, Option, none, some, Bytes,
}
use wire_rift.Server.Names.{has_byte, http_scheme}
use wire_rift.Server.CustomDomain.{Externals}
use wire_rift.Server.Tunnels.{Tunnel, TunnelRequest, Session, Server, Config, listed}
use wire_rift.Server.Tunnels.Create.{http_tunnel}
use wire_rift.Server.Tunnels.Linked.{view, IsTied}
use wire_rift.Server.Edge.{routed, route_request}
use wire_rift.Server.CustomDomain.Host.{HostName}

-- The scheme of the server's URLs.
abbrev pub url_scheme : Config → Bytes
url_scheme c = if length c.public_scheme == 0 then http_scheme else c.public_scheme

-- The host that an HTTP tunnel is public under.
abbrev pub public_host : Bytes → Bytes → Bytes → Bytes
public_host subdomain custom_domain base =
    if length custom_domain == 0 then subdomain ++ (46 ∷ base) else custom_domain

-- What net.SplitHostPort does with a host and with a host and a port.
pub record SplitsHost (split_host_port : Bytes → Option Bytes) (host : Bytes) : Type 0 where
  pub bare : split_host_port host ≡ none
  pub ported :
      (port : Bytes) → has_byte 58 port ≡ false → split_host_port (host ++ (58 ∷ port)) ≡ some host

module _ (lib : Externals) (split_host_port : Bytes → Option Bytes) (now made : ℕ) (x : Session)
    (req : TunnelRequest) (tunnel_id subdomain custom_domain : Bytes) (s : Server) where
  abbrev pub made_tunnel : Tunnel
  made_tunnel = http_tunnel made x req tunnel_id subdomain custom_domain s.config

  -- The URL is the scheme and an authority, a request for which leads to the tunnel, and so does
  -- one for the host with any port.
  pub record UrlLeads : Type 0 where
    pub authority : Bytes
    pub url : made_tunnel.public_url ≡ (url_scheme s.config ++ (58 ∷ 47 ∷ 47 ∷ [])) ++ authority
    pub leads :
        route_request lib split_host_port now authority s ≡ (routed made_tunnel subdomain, s)
    pub any_port :
        (port : Bytes)
        → has_byte 58 port ≡ false
        → route_request lib split_host_port now
            (public_host subdomain custom_domain s.config.domain ++ (58 ∷ port))
            s
          ≡ (routed made_tunnel subdomain, s)

  module _ (i j : Bytes) (tied : IsTied (view s)) (there : listed i j s ≡ some made_tunnel)
      (named : 0 < length subdomain)
      (lower : lib.to_lower (public_host subdomain custom_domain s.config.domain)
        ≡ public_host subdomain custom_domain s.config.domain)
      (lower_base : lib.to_lower s.config.domain ≡ s.config.domain)
      (plain : has_byte 58 (public_host subdomain custom_domain s.config.domain) ≡ false)
      (no_zone : has_byte 37 (public_host subdomain custom_domain s.config.domain) ≡ false)
      (based : 0 < length s.config.domain)
      (checked : 0 < length custom_domain → HostName lib s.config.domain custom_domain)
      (splits : 0 < length custom_domain → SplitsHost split_host_port custom_domain) where
    -- The authority of a URL of the host.
    abbrev HasAuthority : Bytes → Type 0
    HasAuthority url =
        (authority : Bytes) × (url ≡ (url_scheme s.config ++ (58 ∷ 47 ∷ 47 ∷ [])) ++ authority)
        × (route_request lib split_host_port now authority s ≡ (routed made_tunnel subdomain, s))
