-- ===== src/Server/Tunnels/Linked/Changes.antt =====
-- A request changes the sessions only by a take-over and by a registration: what these keep, every
-- request keeps.
use wire_rift.Prelude.{
  ℕ, ◌≡◌, refl, sym, ap, ◌∙◌, &&_both, Bool, true, not, ◌==◌, if◌then◌else◌, if_split, if_cases,
  maybe_cases, List, length, leb, Option, some, Bytes, lookup, has_key, delete, store, modify, ◌&&◌,
}
use wire_rift.Server.Held.{held_by}
use wire_rift.Server.Ports.{
  Ports, Listened, listening, bind_failed, port_unavailable, listen_tunnel_port,
}
use wire_rift.Server.Names.{custom_key}
use wire_rift.Server.CustomDomain.{Externals, Checked, rejected, accepted}
use wire_rift.Server.Tunnels.{
  Tunnel, TunnelType, http, tcp, other_type, TunnelRequest, Session, Server, with_tunnels, unlist,
  enlist, tunnels_of, listed, session_add_tunnel, over_account_limit, add_tunnel, Refusal,
}
use wire_rift.Server.Tunnels.Close.{mark_closed, arm_expiry}
use wire_rift.Server.Tunnels.Create.{
  Reply, can_take_over, replace_tunnel, claim_subdomain, claim_custom_domain, register_http,
  held_elsewhere, publish_http, http_tunnel, check_http, tcp_tunnel, create_checked,
  create_http_tunnel, prepare_custom_domain, register_tcp, publish_tcp, create_listened,
  create_tcp_tunnel, create_tunnel, ask_limiter, allow_tunnel_request, check_request,
  handle_decoded, handle_tunnel_request,
}

-- The sessions change, if at all, by a tunnel that is taken over, which had a public name, and by
-- the new tunnel.
module _ (P : List (Bytes × Session) → Type 0) (x : Session) (tunnel_id : Bytes)
    (names : List (Bytes × Tunnel))
    (taking : (k : Bytes) (old : Tunnel) (sessions : List (Bytes × Session))
      → lookup k names ≡ some old
      → can_take_over x old ≡ true
      → P sessions
      → P (modify old.session_id (with_tunnels (delete old.id)) sessions))
    (adding : (t : Tunnel) (sessions : List (Bytes × Session))
      → t.session_id ≡ x.id
      → t.id ≡ tunnel_id
      → P sessions
      → P (modify t.session_id (with_tunnels (store t.id t)) sessions)) where
  abbrev IsMine : Tunnel → Type 0
  IsMine t = (t.session_id ≡ x.id) × (t.id ≡ tunnel_id)

  abbrev Kept : Server → Type 0
  Kept s = P s.sessions

  abbrev KeptBy : Reply × Server → Type 0
  KeptBy r = P r.1.sessions

  claim_subdomain-keeps :
      (reconnect : Bool) (t : Tunnel) (s : Server)
      → IsMine t
      → Kept s
      → s.tunnels ≡ names
      → Kept (claim_subdomain reconnect x t s).1
  unfolding claim_subdomain replace_tunnel mark_closed unlist
  claim_subdomain-keeps reconnect t s mine d e =
      maybe_cases Fine (lookup t.subdomain s.tunnels) (λ _. d)
        (λ old f.
          if_split Fine (reconnect && can_take_over x old)
            (λ c.
              taking t.subdomain old s.sessions (ap (lookup t.subdomain) (sym e) ∙ f)
                (&&_both reconnect (can_take_over x old) c).1 d)
            (λ _. d))
    where
      Fine : Bool × Server → Type 0
      Fine r = Kept r.1

  claim_custom_domain-keeps : (t : Tunnel) (s : Server) → Kept s → Kept (claim_custom_domain t s).1
  unfolding claim_custom_domain
  claim_custom_domain-keeps t s d =
      if_cases Fine (length t.custom_domain == 0) d
        (if_cases Fine (has_key (custom_key t.custom_domain) s.tunnels) d d)
    where
      Fine : Bool × Server → Type 0
      Fine r = Kept r.1

  session_add_tunnel-keeps :
      (t : Tunnel) (limit : ℕ) (s : Server)
      → IsMine t
      → Kept s
      → Kept (session_add_tunnel t limit s).1
  unfolding session_add_tunnel enlist
  session_add_tunnel-keeps t limit s mine d =
      maybe_cases Fine (tunnels_of t.session_id s) (λ _. d)
        (λ m _. if_cases Fine (leb limit (length m)) d (adding t s.sessions mine.0 mine.1 d))
    where
      Fine : Bool × Server → Type 0
      Fine r = Kept r.1

  add_tunnel-keeps : (t : Tunnel) (s : Server) → IsMine t → Kept s → Kept (add_tunnel x t s).1
  unfolding add_tunnel
  add_tunnel-keeps t s mine d = if_cases Fine (over_account_limit x s) d (
      if_cases Fine (session_add_tunnel t s.config.max_tunnels_per_session s).0
        (added s.config.max_tunnels_per_session) d)
    where
      Fine : Option Refusal × Server → Type 0
      Fine r = Kept r.1

      added : (limit : ℕ) → Kept (session_add_tunnel t limit s).1
      added limit = session_add_tunnel-keeps t limit s mine d

  arm_expiry-keeps : (t : Tunnel) (s : Server) → Kept s → Kept (arm_expiry t s)
  unfolding arm_expiry
  arm_expiry-keeps t s d =
      maybe_cases Kept t.expires_at (λ _. d)
        (λ _ _. maybe_cases Kept (listed t.session_id t.id s) (λ _. d) (λ _ _. d))

  register_http-keeps : (t : Tunnel) (s : Server) → IsMine t → Kept s → KeptBy (register_http x t s)
  unfolding register_http
  register_http-keeps t s mine d =
      maybe_cases Fine (add_tunnel x t s).0
        (λ _. arm_expiry-keeps t _ (add_tunnel-keeps t s mine d))
        (λ _ _. add_tunnel-keeps t s mine d)
    where
      Fine : Reply × Server → Type 0
      Fine r = Kept r.1

  register_tcp-keeps : (t : Tunnel) (s : Server) → IsMine t → Kept s → KeptBy (register_tcp x t s)
  unfolding register_tcp
  register_tcp-keeps t s mine d =
      maybe_cases Fine (add_tunnel x t s).0
        (λ _. arm_expiry-keeps t _ (add_tunnel-keeps t s mine d))
        (λ _ _. add_tunnel-keeps t s mine d)
    where
      Fine : Reply × Server → Type 0
      Fine r = Kept r.1

  publish_http-keeps :
      (now : ℕ) (reconnect : Bool) (t : Tunnel) (s : Server)
      → IsMine t
      → Kept s
      → s.tunnels ≡ names
      → KeptBy (publish_http now x reconnect t s)
  unfolding publish_http
  publish_http-keeps now reconnect t s mine d e =
      if_cases Fine (held_elsewhere x (held_by now t.subdomain s.held).0) d (
        if_cases Fine (not claim.0) d (
          if_cases Fine (not (claim_custom_domain t claim.1).0)
            (claim_custom_domain-keeps t claim.1 claimed)
            (register_http-keeps t _ mine (claim_custom_domain-keeps t claim.1 claimed))))
    where
      Fine : Reply × Server → Type 0
      Fine r = Kept r.1

      asked : Server
      asked = record s { held = (held_by now t.subdomain s.held).1 }

      claim : Bool × Server
      claim = claim_subdomain reconnect x t asked

      claimed : Kept claim.1
      claimed = claim_subdomain-keeps reconnect t asked mine d e

  create_checked-keeps :
      (now : ℕ) (req : TunnelRequest) (subdomain : Bytes) (s : Server) (c : Checked)
      → Kept s
      → s.tunnels ≡ names
      → KeptBy (create_checked now x req tunnel_id subdomain s c)
  unfolding create_checked http_tunnel
  create_checked-keeps now req subdomain s (rejected e) d f = d
  create_checked-keeps now req subdomain s (accepted custom) d f =
      publish_http-keeps now req.reconnect
        (http_tunnel now x req tunnel_id subdomain custom s.config) s (refl, refl) d f

  create_listened-keeps :
      (now : ℕ) (req : TunnelRequest) (s : Server) (r : Listened × Ports)
      → Kept s
      → KeptBy (create_listened now x req tunnel_id s r)
  unfolding create_listened publish_tcp tcp_tunnel
  create_listened-keeps now req s (listening port, p) d = register_tcp-keeps _ _ (refl, refl) d
  create_listened-keeps now req s (bind_failed, p) d = d
  create_listened-keeps now req s (port_unavailable, p) d = d

  create_tunnel-keeps :
      (lib : Externals) (now : ℕ) (req : TunnelRequest) (random : Bytes) (s : Server)
      (y : TunnelType)
      → Kept s
      → s.tunnels ≡ names
      → KeptBy (create_tunnel lib now x req tunnel_id random s y)
  unfolding create_tunnel create_http_tunnel create_tcp_tunnel
  create_tunnel-keeps lib now req random s http d e =
      maybe_cases Fine (check_http subdomain req.auth)
        (λ _.
          create_checked-keeps now req subdomain s (prepare_custom_domain lib x req.custom_domain s)
            d e)
        (λ _ _. d)
    where
      Fine : Reply × Server → Type 0
      Fine r = Kept r.1

      subdomain : Bytes
      subdomain =
          if length (lib.to_lower req.subdomain) == 0 then random else lib.to_lower req.subdomain
  create_tunnel-keeps lib now req random s tcp d e =
      create_listened-keeps now req s (listen_tunnel_port lib.can_bind s.ports) d
  create_tunnel-keeps lib now req random s (other_type n) d e = d

  pub handle_tunnel_request-keeps :
      (lib : Externals) (now : ℕ) (request : Option TunnelRequest) (random : Bytes) (s : Server)
      → Kept s
      → s.tunnels ≡ names
      → Kept (handle_tunnel_request lib now x request tunnel_id random s).1
  unfolding handle_tunnel_request handle_decoded allow_tunnel_request
  handle_tunnel_request-keeps lib now request random s d e =
      maybe_cases Fine request (λ _. d)
        (λ req _. if_cases Fine (not (ask_limiter now x s.rate_limiter).0) d (
          maybe_cases Fine (check_request x req limited)
            (λ _. create_tunnel-keeps lib now req random limited req.tunnel_type d e) (λ _ _. d)))
    where
      Fine : Reply × Server → Type 0
      Fine r = Kept r.1

      limited : Server
      limited = record s { rate_limiter = (ask_limiter now x s.rate_limiter).1 }
