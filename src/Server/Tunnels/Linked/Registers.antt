-- ===== src/Server/Tunnels/Linked/Registers.antt =====
-- The last step of making a tunnel, its registration on the session, keeps the tie on every branch.
use mathlib.Core.Path.{subst}
use wire_rift.Prelude.{
  ℕ, ◌≡◌, refl, sym, ap, ◌∙◌, Bool, true, false, ◌&&◌, ◌==◌, if◌then◌else◌, if_split, maybe,
  maybe_cases, List, length, Option, none, some, Bytes, eq_bytes, lookup, lookup-delete, delete,
  leb, ==_iff, inl, inr, Bool-cases,
}
use wire_rift.Server.Names.{custom_key, port_key}
use wire_rift.Server.Ports.{release_port, drop_port}
use wire_rift.Server.Tunnels.{
  Tunnel, Session, Server, tunnels_of, listed, enlist, session_add_tunnel, over_account_limit,
  add_tunnel, Refusal,
}
use wire_rift.Server.Tunnels.Close.{arm_expiry}
use wire_rift.Server.Tunnels.Create.{Reply, created, refused, withdraw, register_http, register_tcp}
use wire_rift.Server.Tunnels.Linked.{view, IsTied, IsProper, has_name}
use wire_rift.Server.Tunnels.Linked.Adds.{Added-IsTied}
use wire_rift.Server.Tunnels.Linked.Lists.{listed-enlist}
use wire_rift.Server.Tunnels.Linked.Claims.{IsClaim, given_up, or_nothing}
use wire_rift.Server.Tunnels.Linked.Http.{both_names}
use wire_rift.Server.Tunnels.Linked.Ends.{both_gone}

-- A claim of all names is completed by the registration.
pub completed :
    (t : Tunnel) (claimed : Bytes → Bool) (s : Server) (m : List (Bytes × Tunnel))
    → IsClaim t claimed (view s)
    → ((k : Bytes) → claimed k ≡ has_name t k)
    → IsProper s.ports.tcp_ports t t.tunnel_type
    → tunnels_of t.session_id s ≡ some m
    → IsTied (view (enlist t s))
unfolding enlist
completed t claimed s m c all proper e =
    Added-IsTied c.base (view (enlist t s)) t c.tied
      (record {
        names = λ k. c.names k ∙ ap (λ b. if b then some t else c.base.names k) (all k);
        lists = λ a b.
            listed-enlist t a b s m e
            ∙ ap (λ o. if eq_bytes t.session_id a && eq_bytes t.id b then some t else o)
                (c.lists a b);
        more_ports = c.more_ports;
      })
      (λ k n. c.free k (all k ∙ n)) c.fresh proper

session_added :
    (t : Tunnel) (claimed : Bytes → Bool) (s : Server) (limit : ℕ)
    → IsClaim t claimed (view s)
    → ((k : Bytes) → claimed k ≡ has_name t k)
    → IsProper s.ports.tcp_ports t t.tunnel_type
    → (session_add_tunnel t limit s).0 ≡ true
    → IsTied (view (session_add_tunnel t limit s).1)
unfolding session_add_tunnel
session_added t claimed s limit c all proper =
    maybe_cases IfDone (tunnels_of t.session_id s) (λ _ h. absurd (cc h))
      (λ m e.
        if_split IfDone (leb limit (length m)) (λ _ h. absurd (cc h))
          (λ _ _. completed t claimed s m c all proper e))
  where
    IfDone : Bool × Server → Type 0
    IfDone r = r.0 ≡ true → IsTied (view r.1)

-- What the registration of a claimed tunnel did: it is complete, or the server is unchanged.
abbrev pub Enlisted : Server → Option Refusal × Server → Type 0
Enlisted s (none, s') = IsTied (view s')
Enlisted s (some r, s') = s' ≡ s

pub add_tunnel-Enlisted :
    (x : Session) (t : Tunnel) (claimed : Bytes → Bool) (s : Server)
    → IsClaim t claimed (view s)
    → ((k : Bytes) → claimed k ≡ has_name t k)
    → IsProper s.ports.tcp_ports t t.tunnel_type
    → Enlisted s (add_tunnel x t s)
unfolding add_tunnel
add_tunnel-Enlisted x t claimed s c all proper =
    if_split (Enlisted s) (over_account_limit x s) (λ _. refl)
      (λ _.
        if_split (Enlisted s) (session_add_tunnel t s.config.max_tunnels_per_session s).0
          (λ e. added e) (λ _. refl))
  where
    added :
        (session_add_tunnel t s.config.max_tunnels_per_session s).0 ≡ true
        → IsTied (view (session_add_tunnel t s.config.max_tunnels_per_session s).1)
    added e = session_added t claimed s s.config.max_tunnels_per_session c all proper e

arm_expiry-IsTied : (t : Tunnel) (s : Server) → IsTied (view s) → IsTied (view (arm_expiry t s))
unfolding arm_expiry listed tunnels_of
arm_expiry-IsTied t s tied =
    maybe_cases (λ (r : Server). IsTied (view r)) t.expires_at (λ _. tied)
      (λ _ _.
        maybe_cases (λ (r : Server). IsTied (view r)) (listed t.session_id t.id s) (λ _. tied)
          (λ _ _. tied))

lookup-withdraw :
    (t : Tunnel) (m : List (Bytes × Tunnel)) (k : Bytes)
    → lookup k (withdraw t m) ≡ (if both_names t k then none else lookup k m)
unfolding withdraw
lookup-withdraw t m k = elim (Bool-cases (length t.custom_domain == 0)) [
  | inl e ↦ rw e (
      lookup-delete k t.subdomain m
      ∙ ap (λ b. if b then none else lookup k m)
          (sym (or_nothing (eq_bytes t.subdomain k) (eq_bytes (custom_key t.custom_domain) k))))
  | inr e ↦ rw e (
      lookup-delete k (custom_key t.custom_domain) (delete t.subdomain m)
      ∙ ap (λ o. if eq_bytes (custom_key t.custom_domain) k then none else o)
          (lookup-delete k t.subdomain m)
      ∙ both_gone (eq_bytes t.subdomain k) (eq_bytes (custom_key t.custom_domain) k) (lookup k m))
]

abbrev pub Tied : Reply × Server → Type 0
Tied r = IsTied (view r.1)

registered_http :
    (t : Tunnel) (s : Server) (r : Option Refusal × Server)
    → IsClaim t (both_names t) (view s)
    → Enlisted s r
    → Tied (
        maybe r.0
          (created t, arm_expiry t (record (r.1) { held = delete t.subdomain r.1.held }))
          (λ refusal. (refused refusal, record (r.1) { tunnels = withdraw t r.1.tunnels })))
unfolding listed tunnels_of
registered_http t s (none, s') c e =
    arm_expiry-IsTied t (record s' { held = delete t.subdomain s'.held }) e
registered_http t s (some f, s') c e =
    subst (λ u. IsTied (view (record u { tunnels = withdraw t u.tunnels }))) (sym e)
      (given_up t (both_names t) (view s) (view (record s { tunnels = withdraw t s.tunnels })) c
        (lookup-withdraw t s.tunnels) (λ a b. refl) c.more_ports)

pub register_http-Tied :
    (x : Session) (t : Tunnel) (s : Server)
    → IsClaim t (both_names t) (view s)
    → ((k : Bytes) → both_names t k ≡ has_name t k)
    → IsProper s.ports.tcp_ports t t.tunnel_type
    → Tied (register_http x t s)
unfolding register_http
register_http-Tied x t s c all proper =
    registered_http t s (add_tunnel x t s) c (add_tunnel-Enlisted x t (both_names t) s c all proper)

registered_tcp :
    (t : Tunnel) (s : Server) (r : Option Refusal × Server)
    → (c : IsClaim t (eq_bytes (port_key t.port)) (view s)) → (c.base.taken t.port ≡ false)
    → Enlisted s r
    → Tied (
        maybe r.0
          (created t, arm_expiry t r.1)
          (λ refusal. (
            refused refusal,
            record (r.1) {
              tunnels = delete (port_key t.port) r.1.tunnels;
              listeners = drop_port t.port r.1.listeners;
              ports = release_port t.port r.1.ports;
            },
          )))
unfolding listed tunnels_of release_port drop_port
registered_tcp t s (none, s') c was_free e = arm_expiry-IsTied t s' e
registered_tcp t s (some f, s') c was_free e =
    subst (λ u. IsTied (view (withdrawn u))) (sym e)
      (given_up t (eq_bytes (port_key t.port)) (view s) (view (withdrawn s)) c
        (λ k. lookup-delete k (port_key t.port) s.tunnels) (λ a b. refl) (λ p h. kept p h))
  where
    withdrawn : Server → Server
    withdrawn u = record u {
      tunnels = delete (port_key t.port) u.tunnels;
      listeners = drop_port t.port u.listeners;
      ports = release_port t.port u.ports;
    }

    kept :
        (p : ℕ)
        → c.base.taken p ≡ true
        → (if p == t.port then false else s.ports.tcp_ports p) ≡ true
    kept p h = elim (Bool-cases (p == t.port)) [
      | inl e ↦ absurd (cc (sym h ∙ ap c.base.taken ((==_iff p t.port).0 e) ∙ was_free))
      | inr n ↦ rw n (c.more_ports p h)
    ]

pub register_tcp-Tied :
    (x : Session) (t : Tunnel) (s : Server)
    → (c : IsClaim t (eq_bytes (port_key t.port)) (view s)) → (c.base.taken t.port ≡ false)
    → ((k : Bytes) → eq_bytes (port_key t.port) k ≡ has_name t k)
    → IsProper s.ports.tcp_ports t t.tunnel_type
    → Tied (register_tcp x t s)
unfolding register_tcp
register_tcp-Tied x t s c was_free all proper =
    registered_tcp t s (add_tunnel x t s) c was_free
      (add_tunnel-Enlisted x t (eq_bytes (port_key t.port)) s c all proper)
