-- ===== src/Server/Tunnels/Linked.antt =====
-- What ties the public names to the sessions' tunnels, and that it survives when a tunnel with all
-- its names is added or removed.
pub mod Lists
pub mod Ends
pub mod Closes
pub mod Adds
pub mod Claims
pub mod Http
pub mod Registers
pub mod Tcp
pub mod Serves
pub mod Changes
pub mod Apart
use wire_rift.Prelude.{
  ℕ, ◌≡◌, ◌≢◌, refl, sym, ap, ap₂, ◌∙◌, Bool, true, false, not, ◌&&◌, ◌||◌, ◌==◌, if◌then◌else◌,
  if_split, maybe, maybe_cases, List, [], ◌∷◌, length, Option, none, some, Bytes, eq_bytes,
  eq_bytes_refl, eq_bytes-eq, eq_bytes_sym, lookup, arith, ◌⊎◌, inl, inr, Bool-cases, Option-cases,
  &&_both, ||_either, ||_neither,
}
use mathlib.Core.Path.{subst}
use wire_rift.Server.Names.{port_key, custom_key, has_byte}
use wire_rift.Server.Ports.{Ports}
use wire_rift.Server.Tunnels.{
  Tunnel, TunnelType, http, tcp, other_type, Session, Server, same_tunnel, tunnels_of, listed,
}

-- The name that a tunnel of each type has, and the custom domain's where it has one.
abbrev pub main_key : Tunnel → TunnelType → Bytes
main_key t http = t.subdomain
main_key t tcp = port_key t.port
main_key t (other_type n) = []

unfoldable pub has_name : Tunnel → Bytes → Bool
has_name t k =
    eq_bytes (main_key t t.tunnel_type) k
    || (not (length t.custom_domain == 0) && eq_bytes (custom_key t.custom_domain) k)

-- An HTTP tunnel's subdomain has no colon; a TCP tunnel has no custom domain, and an allocated
-- port.
abbrev pub IsProper : (ℕ → Bool) → Tunnel → TunnelType → Type 0
IsProper p t http = has_byte 58 t.subdomain ≡ false
IsProper p t tcp = (length t.custom_domain ≡ 0) × (p t.port ≡ true)
IsProper p t (other_type n) = ⊥

-- What of a server matters here: where a name leads, what a session lists under an ID, and which
-- ports are allocated.
pub record View : Type 0 where
  pub names : Bytes → Option Tunnel
  pub lists : Bytes → Bytes → Option Tunnel
  pub taken : ℕ → Bool

abbrev pub view : Server → View
view s = record {
  names = λ k. lookup k s.tunnels;
  lists = λ i j. listed i j s;
  taken = s.ports.tcp_ports;
}

-- Each public name leads to a tunnel that has the name and that its session lists; each tunnel
-- that a session lists is the session's, is listed under its ID, and all its names lead to it.
pub record IsTied (v : View) : Type 0 where
  pub leads :
      (k : Bytes) (t : Tunnel)
      → v.names k ≡ some t
      → (v.lists t.session_id t.id ≡ some t) × (has_name t k ≡ true)
  pub owned :
      (i j : Bytes) (t : Tunnel)
      → v.lists i j ≡ some t
      → (t.session_id ≡ i)
        × (t.id ≡ j)
        × ((k : Bytes) → has_name t k ≡ true → v.names k ≡ some t)
        × IsProper v.taken t t.tunnel_type

-- What is left without a tunnel.
abbrev pub without : Tunnel → Option Tunnel → Option Tunnel
without t o = maybe o none (λ u. if same_tunnel t u then none else some u)

without-some :
    (t u : Tunnel) (o : Option Tunnel)
    → without t o ≡ some u
    → (o ≡ some u) × (same_tunnel t u ≡ false)
without-some t u none e = cc
without-some t u (some v) e = elim (Bool-cases (same_tunnel t v)) [
  | inl same ↦ absurd (gone (rw same at e))
  | inr other ↦ (rw other at e, ap (same_tunnel t) (sym (value (rw other at e))) ∙ other)
]
  where
    gone : none ≡ some u → ⊥
    gone p = cc

    value : some v ≡ some u → v ≡ u
    value p = ap (λ (o : Option Tunnel). maybe o v (λ x. x)) p

pub without-keeps :
    (t u : Tunnel) (o : Option Tunnel) → o ≡ some u → same_tunnel t u ≡ false → without t o ≡ some u
without-keeps t u o e other = ap (without t) e ∙ rw other

pub same_tunnel_refl : (t : Tunnel) → same_tunnel t t ≡ true
unfolding same_tunnel
same_tunnel_refl t = rw (eq_bytes_refl t.session_id) (eq_bytes_refl t.id)

pub some_inj : (t u : Tunnel) → some t ≡ some u → t ≡ u
some_inj t u e = ap (λ (o : Option Tunnel). maybe o t (λ x. x)) e

pub main-has_name : (t : Tunnel) → has_name t (main_key t t.tunnel_type) ≡ true
unfolding has_name
main-has_name t = rw (eq_bytes_refl (main_key t t.tunnel_type))

module _ (v : View) (tied : IsTied v) (i j a b : Bytes) (t u : Tunnel) (e : v.lists i j ≡ some t)
    (f : v.lists a b ≡ some u) where
  -- A tunnel that is listed is the only object of its IDs among those that are listed.
  pub same_tunnel-eq : same_tunnel t u ≡ true → t ≡ u
  unfolding same_tunnel
  same_tunnel-eq same = some_inj t u (sym e ∙ ap₂ v.lists session tunnel ∙ f)
    where
      both : (eq_bytes t.session_id u.session_id ≡ true) × (eq_bytes t.id u.id ≡ true)
      both = &&_both _ _ same

      session : i ≡ a
      session =
          sym (tied.owned i j t e).0
          ∙ eq_bytes-eq t.session_id u.session_id both.0
          ∙ (tied.owned a b u f).0

      tunnel : j ≡ b
      tunnel = sym (tied.owned i j t e).1 ∙ eq_bytes-eq t.id u.id both.1 ∙ (tied.owned a b u f).1

  -- Two listed tunnels with a name in common are one tunnel.
  pub one_name : (k : Bytes) → has_name t k ≡ true → has_name u k ≡ true → t ≡ u
  one_name k n m = some_inj t u (sym ((tied.owned i j t e).2 k n) ∙ (tied.owned a b u f).2 k m)

  one_port : u.tunnel_type ≡ tcp → t.tunnel_type ≡ tcp → u.port ≡ t.port → t ≡ u
  one_port ut is_tcp p =
      one_name (port_key t.port)
        (subst (λ y. has_name t (main_key t y) ≡ true) is_tcp (main-has_name t))
        (subst (λ n. has_name u (port_key n) ≡ true) p
          (subst (λ y. has_name u (main_key u y) ≡ true) ut (main-has_name u)))

-- Nothing changes but a tunnel that goes with all its names.
pub record Removed (t : Tunnel) (v w : View) : Type 0 where
  pub names : (k : Bytes) → w.names k ≡ without t (v.names k)
  pub lists : (i j : Bytes) → w.lists i j ≡ without t (v.lists i j)
  pub other_ports :
      (p : ℕ) → (t.tunnel_type ≡ tcp → p ≢ t.port) → v.taken p ≡ true → w.taken p ≡ true

keeps_proper :
    (v w : View) (t u : Tunnel) (y : TunnelType)
    → Removed t v w
    → (y ≡ tcp → t.tunnel_type ≡ tcp → u.port ≢ t.port)
    → IsProper v.taken u y
    → IsProper w.taken u y
keeps_proper v w t u http gone ne h = h
keeps_proper v w t u tcp gone ne h = (h.0, gone.other_ports u.port (ne refl) h.1)
keeps_proper v w t u (other_type n) gone ne h = h

-- The tie survives such a removal.
pub Removed-IsTied :
    (v w : View) (t : Tunnel) (i j : Bytes)
    → IsTied v
    → v.lists i j ≡ some t
    → Removed t v w
    → IsTied w
Removed-IsTied v w t i j tied e gone = record {
  leads = λ k u h.
      let (old, other) = without-some t u (v.names k) (sym (gone.names k) ∙ h) in
      let (l, n) = tied.leads k u old in
      (gone.lists u.session_id u.id ∙ without-keeps t u (v.lists u.session_id u.id) l other, n);
  owned = λ a b u h.
      let (old, other) = without-some t u (v.lists a b) (sym (gone.lists a b) ∙ h) in
      let (x, y, z, d) = tied.owned a b u old in
      (
        x,
        y,
        λ k n. gone.names k ∙ without-keeps t u (v.names k) (z k n) other,
        keeps_proper v w t u u.tunnel_type gone
            (λ ut is_tcp p. apart u other (one_port v tied i j a b t u e old ut is_tcp p)) d,
      );
}
  where
    apart : (u : Tunnel) → same_tunnel t u ≡ false → t ≡ u → ⊥
    apart u other p = cc (sym (same_tunnel_refl t) ∙ ap (same_tunnel t) p ∙ other)
