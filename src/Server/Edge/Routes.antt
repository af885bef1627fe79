-- ===== src/Server/Edge/Routes.antt =====
-- Where a host leads.
use wire_rift.Prelude.{
  ℕ, ◌<◌, ◌≡◌, ◌≢◌, refl, sym, ◌∙◌, Bool, true, false, not, ◌&&◌, ◌||◌, ◌==◌, ==_iff, if_split,
  maybe, maybe_cases, ◌∷◌, ◌++◌, length, Option, none, some, Bytes, eq_bytes, eq_bytes-eq,
  eq_bytes_sym, lookup, arith, &&_both,
}
use wire_rift.Server.Names.{has_byte, port_key, custom_key}
use wire_rift.Server.Names.Digits.{
  port_key-subdomain, custom_key-subdomain, port_key-custom_key, custom_key_ne,
}
use wire_rift.Server.CustomDomain.{Externals, trim_dot, normalize_host_header}
use wire_rift.Server.Tunnels.{
  Tunnel, TunnelType, http, tcp, other_type, Session, Server, listed, tunnels_of,
}
use wire_rift.Server.Tunnels.Linked.{view, IsTied, IsProper, has_name, main_key}
use wire_rift.Server.Edge.{
  cut_port, extract_subdomain, get_session, get_tunnel_by_custom_host, get_tunnel_by_subdomain,
  Route, invalid_host, tunnel_offline, tunnel_not_found, routed, route_subdomain, route_request,
}
use wire_rift.Server.Edge.Hosts.{IsHostOf, cut_port-IsHostOf, cut_suffix-joined, cut_suffix-outside}

-- The tunnel's session is live and lists it.
pub record IsLive (s : Server) (t : Tunnel) : Type 0 where
  pub session : Session
  pub there : get_session t.session_id s ≡ some session
  pub lists : lookup t.id session.tunnels ≡ some t

listed-IsLive : (s : Server) (t : Tunnel) → listed t.session_id t.id s ≡ some t → IsLive s t
unfolding listed tunnels_of
listed-IsLive s t e = found (lookup t.session_id s.sessions) refl e
  where
    found :
        (o : Option Session)
        → lookup t.session_id s.sessions ≡ o
        → maybe (maybe o none (λ x. some x.tunnels)) none (lookup t.id) ≡ some t
        → IsLive s t
    found none f h = absurd (cc h)
    found (some x) f h = record { session = x; there = f; lists = h }

-- How a host leads to a tunnel, and the name that is used for it: one in front of the base domain,
-- which is an HTTP tunnel's subdomain if it has no colon, or else the subdomain of the HTTP tunnel
-- whose custom domain the host is, in lower case and without a dot at its end.
pub data LeadsTo (lib : Externals) (split_host_port : Bytes → Option Bytes) (host base : Bytes)
    (t : Tunnel) : Bytes → Type 0 where
  under_base :
      (h name : Bytes)
      → IsHostOf host h
      → lib.to_lower h ≡ name ++ (46 ∷ lib.to_lower base)
      → (has_byte 58 name ≡ false → (t.tunnel_type ≡ http) × (t.subdomain ≡ name))
      → LeadsTo lib split_host_port host base t name
  custom :
      (h : Bytes)
      → IsHostOf host h
      → ((name : Bytes) → 0 < length name → lib.to_lower h ≢ name ++ (46 ∷ lib.to_lower base))
      → t.tunnel_type ≡ http
      → t.custom_domain ≡ lib.to_lower (trim_dot (maybe (split_host_port host) host (λ n. n)))
      → LeadsTo lib split_host_port host base t t.subdomain

none_of : (b c : Bool) → c ≡ false → (b && c) ≡ false
none_of true c e = e
none_of false c e = refl

only_left : (b c : Bool) → (b || c) ≡ true → c ≡ false → b ≡ true
only_left true c e f = refl
only_left false c e f = sym f ∙ e

only_right : (b c : Bool) → (b || c) ≡ true → b ≡ false → c ≡ true
only_right true c e f = absurd (cc f)
only_right false c e f = e

-- A name without a colon is an HTTP tunnel's subdomain.
plain_name :
    (p : ℕ → Bool) (t : Tunnel) (y : TunnelType) (name : Bytes)
    → IsProper p t y
    → eq_bytes (main_key t y) name ≡ true
    → has_byte 58 name ≡ false
    → (y ≡ http) × (t.subdomain ≡ name)
plain_name p t http name h e n = (refl, eq_bytes-eq t.subdomain name e)
plain_name p t tcp name h e n = absurd (cc (sym e ∙ port_key-subdomain t.port name n))
plain_name p t (other_type k) name h e n = absurd h

has_name-plain :
    (p : ℕ → Bool) (t : Tunnel) (name : Bytes)
    → IsProper p t t.tunnel_type
    → has_name t name ≡ true
    → has_byte 58 name ≡ false
    → (t.tunnel_type ≡ http) × (t.subdomain ≡ name)
unfolding has_name
has_name-plain p t name h e n =
    plain_name p t t.tunnel_type name h
      (only_left _ _ e (none_of _ _ (custom_key-subdomain t.custom_domain name n))) n

-- The key of a custom domain is the name of an HTTP tunnel with that domain.
custom_name :
    (p : ℕ → Bool) (t : Tunnel) (y : TunnelType) (d : Bytes)
    → IsProper p t y
    → (eq_bytes (main_key t y) (custom_key d)
        || (not (length t.custom_domain == 0)
            && eq_bytes (custom_key t.custom_domain) (custom_key d)))
      ≡ true
    → (y ≡ http) × (t.custom_domain ≡ d)
custom_name p t http d h e = (refl, same (eq_bytes t.custom_domain d) refl)
  where
    keys : eq_bytes (custom_key t.custom_domain) (custom_key d) ≡ true
    keys =
        (&&_both (not (length t.custom_domain == 0))
          (eq_bytes (custom_key t.custom_domain) (custom_key d))
          (only_right (eq_bytes t.subdomain (custom_key d)) _ e
            (eq_bytes_sym (custom_key d) t.subdomain (custom_key-subdomain d t.subdomain h)))).1

    same : (b : Bool) → eq_bytes t.custom_domain d ≡ b → t.custom_domain ≡ d
    same true f = eq_bytes-eq t.custom_domain d f
    same false f = absurd (cc (sym keys ∙ custom_key_ne t.custom_domain d f))
custom_name p t tcp d (h, _) e = absurd (cc (sym none ∙ both))
  where
    both : (not (length t.custom_domain == 0)) ≡ true
    both =
        (&&_both (not (length t.custom_domain == 0))
          (eq_bytes (custom_key t.custom_domain) (custom_key d))
          (only_right (eq_bytes (port_key t.port) (custom_key d)) _ e
            (port_key-custom_key t.port d))).0

    none : (not (length t.custom_domain == 0)) ≡ false
    none = rw h
custom_name p t (other_type k) d h e = absurd h

has_name-custom :
    (p : ℕ → Bool) (t : Tunnel) (d : Bytes)
    → IsProper p t t.tunnel_type
    → has_name t (custom_key d) ≡ true
    → (t.tunnel_type ≡ http) × (t.custom_domain ≡ d)
unfolding has_name
has_name-custom p t d h e = custom_name p t t.tunnel_type d h e

module _ (lib : Externals) (split_host_port : Bytes → Option Bytes) (host : Bytes) where
  -- What a route says, if it leads to a tunnel.
  abbrev pub IfRouted : Route × Server → Type 0
  IfRouted (routed t name, s) = IsLive s t × LeadsTo lib split_host_port host s.config.domain t name
  IfRouted (invalid_host, s) = Unit {0}
  IfRouted (tunnel_offline, s) = Unit {0}
  IfRouted (tunnel_not_found, s) = Unit {0}

  not_routed :
      (o : Option Bytes) (s : Server) → IfRouted (maybe o tunnel_not_found (λ _. tunnel_offline), s)
  not_routed none s = tt
  not_routed (some a) s = tt

  module _ (s : Server) (t : Tunnel) (tied : IsTied (view s)) where
    sub_routed :
        lookup (extract_subdomain lib host s.config.domain) s.tunnels ≡ some t
        → (length (extract_subdomain lib host s.config.domain) == 0) ≡ false
        → IfRouted (routed t (extract_subdomain lib host s.config.domain), s)
    unfolding extract_subdomain
    sub_routed e some_name =
        let (there, named) = tied.leads (extract_subdomain lib host s.config.domain) t e in
        (
          listed-IsLive s t there,
          under_base (cut_port host) (extract_subdomain lib host s.config.domain)
              (cut_port-IsHostOf host)
              (sym (
                cut_suffix-joined (lib.to_lower (cut_port host)) (46 ∷ lib.to_lower s.config.domain)
                  (ground arith)))
              (has_name-plain s.ports.tcp_ports t _ (tied.owned _ _ t there).3 named),
        )

    custom_routed :
        get_tunnel_by_custom_host lib split_host_port host s ≡ some t
        → (length (extract_subdomain lib host s.config.domain) == 0) ≡ true
        → IfRouted (routed t t.subdomain, s)
    unfolding extract_subdomain get_tunnel_by_custom_host normalize_host_header
    custom_routed e no_name =
        let (there, named) = tied.leads _ t e in
        let (is_http, same) =
          has_name-custom s.ports.tcp_ports t _ (tied.owned _ _ t there).3 named in
        (
          listed-IsLive s t there,
          custom (cut_port host) (cut_port-IsHostOf host)
              (cut_suffix-outside (lib.to_lower (cut_port host)) (46 ∷ lib.to_lower s.config.domain)
                ((==_iff _ 0).0 no_name))
              is_http same,
        )

  -- A tunnel that a request's host leads to is listed by a session that is live. A host under the
  -- base domain has the subdomain of an HTTP tunnel in front, or a name with a colon; any other
  -- host is the custom domain of an HTTP tunnel.
  pub route_request-IfRouted :
      (now : ℕ) (s : Server)
      → IsTied (view s)
      → IfRouted (route_request lib split_host_port now host s)
  unfolding route_request route_subdomain
  route_request-IfRouted now s tied =
      if_split IfRouted (length sub == 0)
        (λ z.
          maybe_cases IfRouted (get_tunnel_by_custom_host lib split_host_port host s) (λ _. tt)
            (λ t e. custom_routed s t tied e z))
        (λ z.
          maybe_cases IfRouted (get_tunnel_by_subdomain sub s) (λ _. not_routed _ _)
            (λ t e. sub_routed s t tied e z))
    where
      sub : Bytes
      sub = extract_subdomain lib host s.config.domain
