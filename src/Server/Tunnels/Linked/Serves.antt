-- ===== src/Server/Tunnels/Linked/Serves.antt =====
-- Every request keeps the tie between names and sessions.
use wire_rift.Prelude.{
  ℕ, ◌≡◌, refl, Bool, true, false, not, ◌==◌, if◌then◌else◌, if_split, maybe_cases, length, Option,
  none, Bytes, eq_bytes, inl, inr, Bool-cases,
}
use wire_rift.Utils.{is_valid_subdomain}
use wire_rift.Server.Held.{held_by}
use wire_rift.Server.Names.{has_byte}
use wire_rift.Server.Names.Digits.{is_valid_subdomain-has_byte}
use wire_rift.Server.CustomDomain.{Externals, Checked, rejected, accepted}
use wire_rift.Server.Tunnels.{
  Tunnel, TunnelType, http, tcp, other_type, TunnelAuth, TunnelRequest, Session, Server, listed,
  tunnels_of,
}
use wire_rift.Server.Tunnels.Create.{
  Reply, http_tunnel, claim_subdomain, claim_custom_domain, held_elsewhere, publish_http,
  check_http, create_checked, create_http_tunnel, prepare_custom_domain, create_tunnel, ask_limiter,
  allow_tunnel_request, check_request, handle_decoded, handle_tunnel_request,
}
use wire_rift.Server.Tunnels.Linked.{view, IsTied, has_name}
use wire_rift.Server.Tunnels.Linked.Claims.{IsClaim}
use wire_rift.Server.Tunnels.Linked.Http.{
  AfterClaim, both_names, claim_subdomain-AfterClaim, claim_custom_domain-AfterClaim,
}
use wire_rift.Server.Tunnels.Linked.Registers.{Tied, register_http-Tied}
use wire_rift.Server.Tunnels.Linked.Tcp.{create_tcp_tunnel-Tied}

claim_held :
    (t : Tunnel) (claimed : Bytes → Bool) (r : Bool × Server)
    → AfterClaim t claimed r
    → not r.0 ≡ false
    → IsClaim t claimed (view r.1)
claim_held t claimed (true, s) c e = c
claim_held t claimed (false, s) c e = absurd (cc e)

claim_failed :
    (t : Tunnel) (claimed : Bytes → Bool) (r : Bool × Server)
    → AfterClaim t claimed r
    → not r.0 ≡ true
    → IsTied (view r.1)
claim_failed t claimed (true, s) c e = absurd (cc e)
claim_failed t claimed (false, s) c e = c

module _ (now : ℕ) (x : Session) (req : TunnelRequest) (tunnel_id subdomain custom : Bytes)
    (s : Server) (tied : IsTied (view s)) (fresh : listed x.id tunnel_id s ≡ none)
    (proper : has_byte 58 subdomain ≡ false) where
  its_tunnel : Tunnel
  its_tunnel = http_tunnel now x req tunnel_id subdomain custom s.config

  asked_server : Server
  asked_server = record s { held = (held_by now subdomain s.held).1 }

  publish_http-Tied : Tied (publish_http now x req.reconnect its_tunnel s)
  unfolding publish_http its_tunnel asked_server http_tunnel listed tunnels_of has_name
  publish_http-Tied =
      if_split Fine (held_elsewhere x (held_by now subdomain s.held).0) (λ _. tied)
        (λ _.
          if_split Fine (not claim.0) (λ _. tied)
            (λ c.
              if_split Fine (not both.0)
                (λ d. claim_failed its_tunnel (both_names its_tunnel) both (after_custom c) d)
                (λ d.
                  register_http-Tied x its_tunnel both.1
                    (claim_held its_tunnel (both_names its_tunnel) both (after_custom c) d)
                    (λ k. refl) proper)))
    where
      Fine : Reply × Server → Type 0
      Fine r = IsTied (view r.1)

      claim : Bool × Server
      claim = claim_subdomain req.reconnect x its_tunnel asked_server

      both : Bool × Server
      both = claim_custom_domain its_tunnel claim.1

      after_custom : not claim.0 ≡ false → AfterClaim its_tunnel (both_names its_tunnel) both
      after_custom c = claim_custom_domain-AfterClaim its_tunnel claim.1 (
          claim_held its_tunnel (eq_bytes subdomain) claim
            (claim_subdomain-AfterClaim req.reconnect x its_tunnel asked_server tied fresh) c)

check_http-proper :
    (subdomain : Bytes) (auth : Option TunnelAuth)
    → check_http subdomain auth ≡ none
    → has_byte 58 subdomain ≡ false
unfolding check_http
check_http-proper subdomain auth e = elim (Bool-cases (is_valid_subdomain subdomain)) [
  | inl v ↦ is_valid_subdomain-has_byte subdomain v
  | inr n ↦ absurd (cc (rw n at e))
]

create_checked-Tied :
    (now : ℕ) (x : Session) (req : TunnelRequest) (tunnel_id subdomain : Bytes) (s : Server)
    (c : Checked)
    → IsTied (view s)
    → listed x.id tunnel_id s ≡ none
    → has_byte 58 subdomain ≡ false
    → Tied (create_checked now x req tunnel_id subdomain s c)
unfolding create_checked its_tunnel
create_checked-Tied now x req tunnel_id subdomain s (rejected e) tied fresh proper = tied
create_checked-Tied now x req tunnel_id subdomain s (accepted custom) tied fresh proper =
    publish_http-Tied now x req tunnel_id subdomain custom s tied fresh proper

create_http_tunnel-Tied :
    (lib : Externals) (now : ℕ) (x : Session) (req : TunnelRequest) (tunnel_id random : Bytes)
    (s : Server)
    → IsTied (view s)
    → listed x.id tunnel_id s ≡ none
    → Tied (create_http_tunnel lib now x req tunnel_id random s)
unfolding create_http_tunnel
create_http_tunnel-Tied lib now x req tunnel_id random s tied fresh =
    maybe_cases Fine (check_http subdomain req.auth)
      (λ e.
        create_checked-Tied now x req tunnel_id subdomain s
          (prepare_custom_domain lib x req.custom_domain s) tied fresh
          (check_http-proper subdomain req.auth e))
      (λ _ _. tied)
  where
    Fine : Reply × Server → Type 0
    Fine r = IsTied (view r.1)

    subdomain : Bytes
    subdomain =
        if length (lib.to_lower req.subdomain) == 0 then random else lib.to_lower req.subdomain

create_tunnel-Tied :
    (lib : Externals) (now : ℕ) (x : Session) (req : TunnelRequest) (tunnel_id random : Bytes)
    (s : Server) (y : TunnelType)
    → IsTied (view s)
    → listed x.id tunnel_id s ≡ none
    → Tied (create_tunnel lib now x req tunnel_id random s y)
unfolding create_tunnel
create_tunnel-Tied lib now x req tunnel_id random s http tied fresh =
    create_http_tunnel-Tied lib now x req tunnel_id random s tied fresh
create_tunnel-Tied lib now x req tunnel_id random s tcp tied fresh =
    create_tcp_tunnel-Tied lib now x req tunnel_id s tied fresh
create_tunnel-Tied lib now x req tunnel_id random s (other_type n) tied fresh = tied

-- A request, whatever it asks for and however it ends, under an ID that is not listed.
pub handle_tunnel_request-Tied :
    (lib : Externals) (now : ℕ) (x : Session) (request : Option TunnelRequest)
    (tunnel_id random : Bytes) (s : Server)
    → IsTied (view s)
    → listed x.id tunnel_id s ≡ none
    → Tied (handle_tunnel_request lib now x request tunnel_id random s)
unfolding handle_tunnel_request handle_decoded allow_tunnel_request listed tunnels_of
handle_tunnel_request-Tied lib now x request tunnel_id random s tied fresh =
    maybe_cases Fine request (λ _. tied)
      (λ req _.
        if_split Fine (not (ask_limiter now x s.rate_limiter).0) (λ _. tied)
          (λ _.
            maybe_cases Fine (check_request x req limited)
              (λ _.
                create_tunnel-Tied lib now x req tunnel_id random limited req.tunnel_type tied
                  fresh)
              (λ _ _. tied)))
  where
    Fine : Reply × Server → Type 0
    Fine r = IsTied (view r.1)

    limited : Server
    limited = record s { rate_limiter = (ask_limiter now x s.rate_limiter).1 }
