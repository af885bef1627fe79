-- ===== src/Server/Tunnels/Holds.antt =====
-- The names of a client that dropped stay with its account.
mod Ends
use mathlib.Core.Path.{subst}
use wire_rift.Prelude.{
  ℕ, ◌+◌, ◌≤◌, ◌<◌, ◌≡◌, refl, sym, ap, ap₂, ◌∙◌, Bool, true, false, not, ◌&&◌, ◌||◌, some, Bytes,
  eq_bytes, eq_bytes_refl, eq_bytes-eq, lookup, lookup-All, delete, le→ltb, inl, inr, Bool-cases,
}
use wire_rift.Server.Held.{HeldName, HeldNames, held_by}
use wire_rift.Server.Tunnels.{
  Tunnel, TunnelType, http, tcp, other_type, Session, Server, listed, tunnels_of,
}
use wire_rift.Server.Tunnels.Close.{is_holdable, end_tunnels, remove_session}
use wire_rift.Server.Tunnels.Linked.{view, IsTied, has_name, one_name, main_key}
use wire_rift.Server.Tunnels.Linked.Closes.{HasDistinct}
use wire_rift.Server.Tunnels.Linked.Apart.{IsApart}
use wire_rift.Server.Tunnels.Holds.Ends.{hold, end_tunnels-own}

holdable_name :
    (t : Tunnel) (y : TunnelType) (c : Bool)
    → is_holdable t y ≡ true
    → (eq_bytes (main_key t y) t.subdomain || c) ≡ true
unfolding is_holdable
holdable_name t http c k = rw (eq_bytes_refl t.subdomain) refl
holdable_name t tcp c k = absurd (cc k)
holdable_name t (other_type n) c k = absurd (cc k)

holdable-has_name :
    (t : Tunnel) → is_holdable t t.tunnel_type ≡ true → has_name t t.subdomain ≡ true
unfolding has_name
holdable-has_name t k = holdable_name t t.tunnel_type _ k

listed_there :
    (i b : Bytes) (s : Server) (x : Session) (u : Tunnel)
    → lookup i s.sessions ≡ some x
    → lookup b x.tunnels ≡ some u
    → listed i b s ≡ some u
unfolding listed tunnels_of
listed_there i b s x u e f = rw e f

-- Two tunnels of a session do not have one subdomain.
own_subdomain :
    (s : Server) (i j b : Bytes) (t u : Tunnel)
    → IsTied (view s)
    → listed i j s ≡ some t
    → listed i b s ≡ some u
    → is_holdable t t.tunnel_type ≡ true
    → is_holdable u u.tunnel_type ≡ true
    → eq_bytes j b ≡ false
    → eq_bytes u.subdomain t.subdomain ≡ false
own_subdomain s i j b t u tied e f k h apart =
    elim (Bool-cases (eq_bytes u.subdomain t.subdomain)) [
      | inl same ↦ absurd (
          clash (
            one_name (view s) tied i j i b t u e f t.subdomain (holdable-has_name t k) (
              subst (λ n. has_name u n ≡ true) (eq_bytes-eq u.subdomain t.subdomain same)
                (holdable-has_name u h))))
      | inr other ↦ other
    ]
  where
    clash : t ≡ u → ⊥
    clash p = cc (
        sym (eq_bytes_refl j)
        ∙ ap (eq_bytes j) (sym (tied.owned i j t e).1 ∙ ap (λ v. v.id) p ∙ (tied.owned i b u f).1)
        ∙ apart)

held_by-hold :
    (later : ℕ) (name : Bytes) (held : HeldNames) (h : HeldName)
    → lookup name held ≡ some h
    → later ≤ h.until
    → (held_by later name held).0 ≡ some h.account_id
unfolding held_by
held_by-hold later name held h e l = rw (e, le→ltb h.until later l) refl

remove_session_found :
    (now : ℕ) (i : Bytes) (s : Server) (x : Session)
    → lookup i s.sessions ≡ some x
    → remove_session now i s
      ≡ end_tunnels now
          (not s.shutting_down && not x.go_away)
          x.tunnels
          (record s { sessions = delete i s.sessions })
unfolding remove_session
remove_session_found now i s x e = rw e refl

-- When a session ends without a GO_AWAY while the server runs, the name of each of its HTTP
-- tunnels without a custom domain is on hold for the tunnel's account until the grace period, if
-- there is one, is over.
pub remove_session_holds :
    (now later : ℕ) (i j : Bytes) (s : Server) (x : Session) (t : Tunnel)
    → IsTied (view s)
    → IsApart s
    → lookup i s.sessions ≡ some x
    → lookup j x.tunnels ≡ some t
    → x.go_away ≡ false
    → s.shutting_down ≡ false
    → is_holdable t t.tunnel_type ≡ true
    → 0 < s.config.offline_grace
    → later ≤ now + s.config.offline_grace
    → (held_by later t.subdomain (remove_session now i s).held).0 ≡ some t.account_id
remove_session_holds now later i j s x t tied apart e f stays runs k pos l =
    held_by-hold later t.subdomain (remove_session now i s).held (hold now t s) held l
  where
    gone : Server
    gone = record s { sessions = delete i s.sessions }

    kept : (not s.shutting_down && not x.go_away) ≡ true
    kept = ap₂ (λ a b. not a && not b) runs stays

    held : lookup t.subdomain (remove_session now i s).held ≡ some (hold now t s)
    held =
        ap (λ (r : Server). lookup t.subdomain r.held) (remove_session_found now i s x e)
        ∙ ap (λ keep. lookup t.subdomain (end_tunnels now keep x.tunnels gone).held) kept
        ∙ end_tunnels-own now x.tunnels gone j t (lookup-All HasDistinct i s.sessions x e apart) f k
            pos
            (λ b u g h.
              own_subdomain s i j b t u tied (listed_there i j s x t e f)
                (listed_there i b s x u e g) k h)
