-- ===== src/Server/Tunnels/Linked/Ends.antt =====
-- The teardown of a tunnel takes all its names with it, and nothing else.
use wire_rift.Prelude.{
  ℕ, ◌≡◌, ◌≢◌, refl, sym, ap, ◌∙◌, Bool, true, false, not, ◌&&◌, ◌||◌, ◌==◌, if◌then◌else◌, List,
  length, Option, none, some, Bytes, eq_bytes, eq_bytes_refl, lookup, lookup-delete,
  lookup-delete_ne, eq_bytes_sym, delete, arith, ◌⊎◌, inl, inr, Bool-cases, Option-cases,
}
use mathlib.Core.Path.{subst}
use wire_rift.Server.Names.{port_key, custom_key, has_byte}
use wire_rift.Server.Names.Digits.{custom_key-subdomain}
use wire_rift.Server.Ports.{release_port, drop_port}
use wire_rift.Server.Tunnels.{Tunnel, TunnelType, http, tcp, other_type, Server, same_tunnel}
use wire_rift.Server.Tunnels.Close.{
  compare_and_delete, mark_closed, release_names, release_tunnel, teardown_tunnel,
}
use wire_rift.Server.Tunnels.Linked.{
  View, IsTied, IsProper, Removed, has_name, main_key, without, same_tunnel-eq, same_tunnel_refl,
  some_inj,
}
use wire_rift.Server.Tunnels.Linked.Lists.{no_choice}

-- A custom domain's key that leads to the tunnel is deleted.
compare_and_delete_own :
    (key : Bytes) (t : Tunnel) (m : List (Bytes × Tunnel))
    → lookup key m ≡ some t
    → compare_and_delete key t m ≡ delete key m
unfolding compare_and_delete
compare_and_delete_own key t m e = rw e (rw (same_tunnel_refl t) refl)

-- The names of an HTTP tunnel.
abbrev http_name : Tunnel → Bytes → Bool
http_name t k =
    eq_bytes t.subdomain k
    || (not (length t.custom_domain == 0) && eq_bytes (custom_key t.custom_domain) k)

one :
    (a b : Bool) (o : Option Tunnel)
    → (if a then none else o) ≡ (if a || (not true && b) then none else o)
one true b o = refl
one false b o = refl

pub both_gone :
    (a b : Bool) (o : Option Tunnel)
    → (if b then none else if a then none else o) ≡ (if a || b then none else o)
both_gone true true o = refl
both_gone true false o = refl
both_gone false true o = refl
both_gone false false o = refl

release_names-lookup :
    (t : Tunnel) (m : List (Bytes × Tunnel)) (k : Bytes)
    → has_byte 58 t.subdomain ≡ false
    → ((length t.custom_domain == 0) ≡ false → lookup (custom_key t.custom_domain) m ≡ some t)
    → lookup k (release_names t m) ≡ (if http_name t k then none else lookup k m)
unfolding release_names
release_names-lookup t m k proper custom = elim (Bool-cases (length t.custom_domain == 0)) [
  | inl e ↦ rw e (
      lookup-delete k t.subdomain m
      ∙ one (eq_bytes t.subdomain k) (eq_bytes (custom_key t.custom_domain) k) (lookup k m))
  | inr e ↦ rw e (
      ap (lookup k)
        (compare_and_delete_own (custom_key t.custom_domain) t (delete t.subdomain m) (later e))
      ∙ lookup-delete k (custom_key t.custom_domain) (delete t.subdomain m)
      ∙ ap (λ o. if eq_bytes (custom_key t.custom_domain) k then none else o)
          (lookup-delete k t.subdomain m)
      ∙ both_gone (eq_bytes t.subdomain k) (eq_bytes (custom_key t.custom_domain) k) (lookup k m))
]
  where
    later :
        (length t.custom_domain == 0) ≡ false
        → lookup (custom_key t.custom_domain) (delete t.subdomain m) ≡ some t
    later e =
        lookup-delete_ne (custom_key t.custom_domain) t.subdomain m (
          eq_bytes_sym (custom_key t.custom_domain) t.subdomain
            (custom_key-subdomain t.custom_domain t.subdomain proper))
        ∙ custom e

-- The names of a tunnel, by its type.
abbrev pub names_as : Tunnel → TunnelType → Bytes → Bool
names_as t y k =
    eq_bytes (main_key t y) k
    || (not (length t.custom_domain == 0) && eq_bytes (custom_key t.custom_domain) k)

custom-names_as :
    (t : Tunnel) (y : TunnelType)
    → (length t.custom_domain == 0) ≡ false
    → names_as t y (custom_key t.custom_domain) ≡ true
custom-names_as t y e =
    rw (e, eq_bytes_refl (custom_key t.custom_domain))
      (last (eq_bytes (main_key t y) (custom_key t.custom_domain)))
  where
    last : (b : Bool) → (b || true) ≡ true
    last true = refl
    last false = refl

release_tunnel-lookup :
    (s : Server) (t : Tunnel) (y : TunnelType) (k : Bytes)
    → ((k : Bytes) → names_as t y k ≡ true → lookup k s.tunnels ≡ some t)
    → IsProper s.ports.tcp_ports t y
    → lookup k (release_tunnel t y s).tunnels
      ≡ (if names_as t y k then none else lookup k s.tunnels)
unfolding release_tunnel
release_tunnel-lookup s t http k custom proper =
    release_names-lookup t s.tunnels k proper (λ e. custom _ (custom-names_as t http e))
release_tunnel-lookup s t tcp k custom proper =
    lookup-delete k (port_key t.port) s.tunnels
    ∙ rw proper.0 (
        one (eq_bytes (port_key t.port) k) (eq_bytes (custom_key t.custom_domain) k)
          (lookup k s.tunnels))
release_tunnel-lookup s t (other_type n) k custom proper = absurd proper

release_tunnel-ports :
    (s : Server) (t : Tunnel) (y : TunnelType) (p : ℕ)
    → (y ≡ tcp → p ≢ t.port)
    → s.ports.tcp_ports p ≡ true
    → (release_tunnel t y s).ports.tcp_ports p ≡ true
unfolding release_tunnel release_port drop_port
release_tunnel-ports s t http p ne e = e
release_tunnel-ports s t tcp p ne e = ground (arith, ne refl)
release_tunnel-ports s t (other_type n) p ne e = e

-- A server in which the sessions list what `lists` says.
abbrev pub view_with : (Bytes → Bytes → Option Tunnel) → Server → View
view_with lists s = record {
  names = λ k. lookup k s.tunnels;
  lists = lists;
  taken = s.ports.tcp_ports;
}

-- In a tied view, the names of a tunnel are those that lead to it.
pub names_gone :
    (v : View) (i j : Bytes) (t : Tunnel)
    → IsTied v
    → v.lists i j ≡ some t
    → (k : Bytes) → (v.names k ≡ none) ⊎ ((u : Tunnel) × (v.names k ≡ some u))
    → (if has_name t k then none else v.names k) ≡ without t (v.names k)
names_gone v i j t tied e k (inl free) = rw free (no_choice (has_name t k) none)
names_gone v i j t tied e k (inr (u, h)) = elim (Bool-cases (same_tunnel t u)) [
  | inl same ↦
      rw (h, same, subst (λ x. has_name x k ≡ true) (sym (equal same)) (tied.leads k u h).1) refl
  | inr other ↦ rw (h, other, foreign other) refl
]
  where
    equal : same_tunnel t u ≡ true → t ≡ u
    equal = same_tunnel-eq v tied i j u.session_id u.id t u e (tied.leads k u h).0

    clash : same_tunnel t u ≡ false → t ≡ u → ⊥
    clash other p = cc (sym (same_tunnel_refl t) ∙ ap (same_tunnel t) p ∙ other)

    foreign : same_tunnel t u ≡ false → has_name t k ≡ false
    foreign other = elim (Bool-cases (has_name t k)) [
      | inl n ↦ absurd (clash other (some_inj t u (sym ((tied.owned i j t e).2 k n) ∙ h)))
      | inr n ↦ n
    ]

-- The teardown of a tunnel that is listed removes it, if the sessions no longer list it after.
pub teardown_tunnel-Removed :
    (lists after : Bytes → Bytes → Option Tunnel) (s : Server) (i j : Bytes) (t : Tunnel)
    → IsTied (view_with lists s)
    → lists i j ≡ some t
    → ((a b : Bytes) → after a b ≡ without t (lists a b))
    → Removed t (view_with lists s) (view_with after (teardown_tunnel t s))
unfolding teardown_tunnel mark_closed has_name
teardown_tunnel-Removed lists after s i j t tied e gone = record {
  names = λ k.
      release_tunnel-lookup (mark_closed t s) t t.tunnel_type k (tied.owned i j t e).2
        (tied.owned i j t e).3
      ∙ names_gone (view_with lists s) i j t tied e k (Option-cases (lookup k s.tunnels));
  lists = gone;
  other_ports = λ p ne h. release_tunnel-ports (mark_closed t s) t t.tunnel_type p ne h;
}
