-- ===== src/Server/Tunnels/Linked/Tcp.antt =====
-- Making a TCP tunnel keeps the tie, on every branch.
use wire_rift.Prelude.{
  ℕ, ◌≡◌, refl, sym, ap, ◌∙◌, Bool, true, false, ◌&&◌, ◌==◌, not, if◌then◌else◌, [], length, none,
  Bytes, eq_bytes, eq_bytes-eq, eq_bytes_sym, lookup, lookup-store, store, arith, ==_iff, ◌⊎◌, inl,
  inr, Bool-cases, Option-cases, ||_either, &&_both,
}
use wire_rift.Server.Names.{custom_key, port_key}
use wire_rift.Server.Names.Digits.{port_key_ne, port_key-custom_key, port_key-subdomain}
use wire_rift.Server.Ports.{
  Ports, Listened, listening, bind_failed, port_unavailable, add_port, listen_tunnel_port,
}
use wire_rift.Server.Ports.Listen.{Bound, listen_tunnel_port-Bound}
use wire_rift.Server.CustomDomain.{Externals}
use wire_rift.Server.Tunnels.{
  Tunnel, TunnelType, http, tcp, other_type, TunnelRequest, Session, Server, listed, tunnels_of,
}
use wire_rift.Server.Tunnels.Create.{tcp_tunnel, publish_tcp, create_listened, create_tcp_tunnel}
use wire_rift.Server.Tunnels.Linked.{View, view, IsTied, IsProper, has_name}
use wire_rift.Server.Tunnels.Linked.Adds.{Alike-IsTied}
use wire_rift.Server.Tunnels.Linked.Claims.{IsClaim, or_nothing}
use wire_rift.Server.Tunnels.Linked.Ends.{names_as}
use wire_rift.Server.Tunnels.Linked.Registers.{Tied, register_tcp-Tied}

-- A tunnel that has the name of a port is a TCP tunnel on an allocated port of that number.
port_named :
    (u : Tunnel) (y : TunnelType) (p : ℕ) (taken : ℕ → Bool)
    → IsProper taken u y
    → names_as u y (port_key p) ≡ true
    → taken p ≡ true
port_named u http p taken proper n = absurd (apart (||_either _ _ n))
  where
    apart :
        (eq_bytes u.subdomain (port_key p) ≡ true)
          ⊎ ((not (length u.custom_domain == 0)
                && eq_bytes (custom_key u.custom_domain) (port_key p))
              ≡ true)
        → ⊥
    apart (inl e) =
        cc (sym e ∙ eq_bytes_sym (port_key p) u.subdomain (port_key-subdomain p u.subdomain proper))
    apart (inr e) = cc (
        sym (&&_both (not (length u.custom_domain == 0)) _ e).1
        ∙ eq_bytes_sym (port_key p) (custom_key u.custom_domain)
            (port_key-custom_key p u.custom_domain))
port_named u tcp p taken proper n = elim (Bool-cases (u.port == p)) [
  | inl e ↦ ap taken (sym ((==_iff u.port p).0 e)) ∙ proper.1
  | inr ne ↦ absurd (apart ne (||_either _ _ n))
]
  where
    apart :
        (u.port == p) ≡ false
        → (eq_bytes (port_key u.port) (port_key p) ≡ true)
          ⊎ ((not (length u.custom_domain == 0)
                && eq_bytes (custom_key u.custom_domain) (port_key p))
              ≡ true)
        → ⊥
    apart ne (inl e) = cc (sym e ∙ port_key_ne u.port p (λ q. ground arith))
    apart ne (inr e) = cc (
        sym (&&_both _ (eq_bytes (custom_key u.custom_domain) (port_key p)) e).0
        ∙ ap (λ l. not (l == 0)) proper.0)
port_named u (other_type m) p taken proper n = absurd proper

-- The key of a port that is free is free.
port_free : (v : View) (p : ℕ) → IsTied v → v.taken p ≡ false → v.names (port_key p) ≡ none
unfolding has_name
port_free v p tied e = elim (Option-cases (v.names (port_key p))) [
  | inl n ↦ n
  | inr (u, h) ↦
      let (l, n) = tied.leads (port_key p) u h in
      absurd
        (cc (sym (port_named u u.tunnel_type p v.taken (tied.owned u.session_id u.id u l).3 n) ∙ e))
]

with_port : Tunnel → Ports → Server → Server
with_port t ports s = record s {
  ports = ports;
  listeners = add_port t.port s.listeners;
  tunnels = store (port_key t.port) t s.tunnels;
}

taken_more : (taken : ℕ → Bool) (port k : ℕ) → taken k ≡ true → add_port port taken k ≡ true
unfolding add_port
taken_more taken port k e = ground (arith, e)

port_claimed :
    (s : Server) (t : Tunnel) (ports : Ports)
    → IsTied (view s)
    → listed t.session_id t.id s ≡ none
    → s.ports.tcp_ports t.port ≡ false
    → ((k : ℕ) → ports.tcp_ports k ≡ add_port t.port s.ports.tcp_ports k)
    → IsClaim t (eq_bytes (port_key t.port)) (view (with_port t ports s))
unfolding with_port listed tunnels_of
port_claimed s t ports tied fresh free now = record {
  base = view s;
  tied = tied;
  names = λ k. lookup-store k (port_key t.port) t s.tunnels;
  lists = λ a b. refl;
  more_ports = λ p h. now p ∙ taken_more s.ports.tcp_ports t.port p h;
  free = λ k e.
      ap (λ j. lookup j s.tunnels) (sym (eq_bytes-eq (port_key t.port) k e))
      ∙ port_free (view s) t.port tied free;
  fresh = fresh;
}

pub create_listened-Tied :
    (now : ℕ) (x : Session) (req : TunnelRequest) (tunnel_id : Bytes) (s : Server)
    (can_bind : ℕ → Bool) (r : Listened × Ports)
    → IsTied (view s)
    → listed x.id tunnel_id s ≡ none
    → Bound can_bind s.ports r
    → Tied (create_listened now x req tunnel_id s r)
unfolding create_listened publish_tcp has_name listed tunnels_of with_port add_port tcp_tunnel
    port_claimed
create_listened-Tied now x req tunnel_id s can_bind (listening port, p) tied fresh b =
    register_tcp-Tied x t (with_port t p s) (port_claimed s t p tied fresh b.2 b.3) b.2
      (λ k. sym (or_nothing (eq_bytes (port_key port) k) (eq_bytes (custom_key []) k)))
      (refl, b.3 port ∙ own)
  where
    t : Tunnel
    t = tcp_tunnel now x req tunnel_id port s.config

    own : (if port == port then true else s.ports.tcp_ports port) ≡ true
    own = ground arith
create_listened-Tied now x req tunnel_id s can_bind (bind_failed, p) tied fresh b =
    Alike-IsTied (view s) (view (record s { ports = p })) tied
      (record { names = λ k. refl; lists = λ a c. refl; more_ports = λ q h. b q ∙ h })
create_listened-Tied now x req tunnel_id s can_bind (port_unavailable, p) tied fresh b =
    Alike-IsTied (view s) (view (record s { ports = p })) tied
      (record { names = λ k. refl; lists = λ a c. refl; more_ports = λ q h. b q ∙ h })

-- A request for a TCP tunnel under an ID that is not listed.
pub create_tcp_tunnel-Tied :
    (lib : Externals) (now : ℕ) (x : Session) (req : TunnelRequest) (tunnel_id : Bytes) (s : Server)
    → IsTied (view s)
    → listed x.id tunnel_id s ≡ none
    → Tied (create_tcp_tunnel lib now x req tunnel_id s)
unfolding create_tcp_tunnel
create_tcp_tunnel-Tied lib now x req tunnel_id s tied fresh =
    create_listened-Tied now x req tunnel_id s lib.can_bind
      (listen_tunnel_port lib.can_bind s.ports) tied fresh
      (listen_tunnel_port-Bound lib.can_bind s.ports)
