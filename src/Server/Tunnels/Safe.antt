-- ===== src/Server/Tunnels/Safe.antt =====
-- A request takes nothing from another account; a session that ends leaves nothing behind.
use wire_rift.Prelude.{
  ℕ, ◌≡◌, refl, sym, ap, ap₂, ◌∙◌, true, false, ◌&&◌, if◌then◌else◌, maybe_cases, not, List, Option,
  none, some, Bytes, eq_bytes, eq_bytes-eq, lookup, lookup-delete_same, delete, store, modify, inl,
  inr, Bool-cases, &&_both,
}
use wire_rift.Server.CustomDomain.{Externals}
use wire_rift.Server.Tunnels.{
  Tunnel, TunnelRequest, Session, Server, same_tunnel, listed, tunnels_of, with_tunnels, unlist,
  enlist,
}
use wire_rift.Server.Tunnels.Create.{can_take_over, handle_tunnel_request}
use wire_rift.Server.Tunnels.Linked.{view, IsTied, same_tunnel-eq}
use wire_rift.Server.Tunnels.Linked.Lists.{listed-unlist, listed-other}
use wire_rift.Server.Tunnels.Linked.Changes.{handle_tunnel_request-keeps}
use wire_rift.Server.Tunnels.Close.{remove_session}
use wire_rift.Server.Tunnels.Linked.Closes.{end_tunnels-sessions, remove_session-IsTied}
use wire_rift.Server.Tunnels.Linked.Apart.{IsApart}
use wire_rift.Server.Tunnels.Linked.Serves.{handle_tunnel_request-Tied}

can_take_over-account :
    (x : Session) (old : Tunnel)
    → can_take_over x old ≡ true
    → eq_bytes old.account_id x.account_id ≡ true
unfolding can_take_over
can_take_over-account x old e = (&&_both _ _ (&&_both _ _ e).0).1

module _ (s : Server) (tied : IsTied (view s)) (x : Session) (tunnel_id : Bytes)
    (fresh : listed x.id tunnel_id s ≡ none) (k : Bytes) (u : Tunnel)
    (leads : lookup k s.tunnels ≡ some u)
    (foreign : eq_bytes u.account_id x.account_id ≡ false) where
  with_sessions : List (Bytes × Session) → Server
  with_sessions m = record s { sessions = m }

  StillListed : List (Bytes × Session) → Type 0
  StillListed m = listed u.session_id u.id (with_sessions m) ≡ some u

  not_taken :
      (j : Bytes) (old : Tunnel)
      → lookup j s.tunnels ≡ some old
      → can_take_over x old ≡ true
      → same_tunnel old u ≡ false
  not_taken j old e c = elim (Bool-cases (same_tunnel old u)) [
    | inl same ↦ absurd (
        clash (
          same_tunnel-eq (view s) tied old.session_id old.id u.session_id u.id old u
            (tied.leads j old e).0 (tied.leads k u leads).0 same))
    | inr other ↦ other
  ]
    where
      clash : old ≡ u → ⊥
      clash p = cc (
          sym (can_take_over-account x old c)
          ∙ ap (λ t. eq_bytes t.account_id x.account_id) p
          ∙ foreign)

  taken :
      (j : Bytes) (old : Tunnel) (m : List (Bytes × Session))
      → lookup j s.tunnels ≡ some old
      → can_take_over x old ≡ true
      → StillListed m
      → StillListed (modify old.session_id (with_tunnels (delete old.id)) m)
  unfolding StillListed with_sessions unlist same_tunnel
  taken j old m e c h =
      listed-unlist old.session_id old.id u.session_id u.id (with_sessions m)
      ∙ ap (λ b. if b then none else listed u.session_id u.id (with_sessions m))
          (not_taken j old e c)
      ∙ h

  added :
      (t : Tunnel) (m : List (Bytes × Session))
      → t.session_id ≡ x.id
      → t.id ≡ tunnel_id
      → StillListed m
      → StillListed (modify t.session_id (with_tunnels (store t.id t)) m)
  unfolding StillListed with_sessions enlist
  added t m i j h = listed-other t u.session_id u.id (with_sessions m) other ∙ h
    where
      nothing : none ≡ some u → ⊥
      nothing p = cc

      its_place : t.session_id ≡ u.session_id → t.id ≡ u.id → listed u.session_id u.id s ≡ none
      its_place p q = ap₂ (λ a b. listed a b s) (sym p ∙ i) (sym q ∙ j) ∙ fresh

      clash : (eq_bytes t.session_id u.session_id && eq_bytes t.id u.id) ≡ true → ⊥
      clash e =
          let same = &&_both (eq_bytes t.session_id u.session_id) (eq_bytes t.id u.id) e in
          nothing (
            sym (
              its_place (eq_bytes-eq t.session_id u.session_id same.0)
                (eq_bytes-eq t.id u.id same.1))
            ∙ (tied.leads k u leads).0)

      other : (eq_bytes t.session_id u.session_id && eq_bytes t.id u.id) ≡ false
      other = elim (Bool-cases (eq_bytes t.session_id u.session_id && eq_bytes t.id u.id)) [
        | inl e ↦ absurd (clash e)
        | inr e ↦ e
      ]

-- Whatever a client asks for, with a tunnel ID that its session does not have: every public name
-- of another account's tunnel still leads to that tunnel afterwards.
pub handle_tunnel_request-foreign :
    (lib : Externals) (now : ℕ) (x : Session) (request : Option TunnelRequest)
    (tunnel_id random : Bytes) (s : Server) (k : Bytes) (u : Tunnel)
    → IsTied (view s)
    → listed x.id tunnel_id s ≡ none
    → lookup k s.tunnels ≡ some u
    → eq_bytes u.account_id x.account_id ≡ false
    → lookup k (handle_tunnel_request lib now x request tunnel_id random s).1.tunnels ≡ some u
unfolding StillListed with_sessions listed tunnels_of
handle_tunnel_request-foreign lib now x request tunnel_id random s k u tied fresh leads foreign =
    (tied'.owned u.session_id u.id u kept).2 k (tied.leads k u leads).1
  where
    tied' : IsTied (view (handle_tunnel_request lib now x request tunnel_id random s).1)
    tied' = handle_tunnel_request-Tied lib now x request tunnel_id random s tied fresh

    kept :
        listed u.session_id u.id (handle_tunnel_request lib now x request tunnel_id random s).1
        ≡ some u
    kept =
        handle_tunnel_request-keeps (StillListed s tied x tunnel_id fresh k u leads foreign) x
          tunnel_id s.tunnels (taken s tied x tunnel_id fresh k u leads foreign)
          (added s tied x tunnel_id fresh k u leads foreign) lib now request random s
          (tied.leads k u leads).0 refl

remove_session-sessions :
    (now : ℕ) (i : Bytes) (s : Server) → lookup i (remove_session now i s).sessions ≡ none
unfolding remove_session
remove_session-sessions now i s =
    maybe_cases (λ (r : Server). lookup i r.sessions ≡ none) (lookup i s.sessions) (λ e. e)
      (λ x _.
        ap (lookup i) (
          end_tunnels-sessions now (not s.shutting_down && not x.go_away) x.tunnels
            (record s { sessions = delete i s.sessions }))
        ∙ lookup-delete_same i s.sessions)

not_listed :
    (a b : Bytes) (s : Server) (t : Tunnel) → lookup a s.sessions ≡ none → listed a b s ≡ some t → ⊥
unfolding listed tunnels_of
not_listed a b s t e l = cc (rw e at l)

-- When a session has ended, no public name leads to a tunnel of it, and it is not there any more.
pub remove_session_frees :
    (now : ℕ) (i : Bytes) (s : Server) (k : Bytes) (t : Tunnel)
    → IsTied (view s)
    → IsApart s
    → lookup k (remove_session now i s).tunnels ≡ some t
    → (eq_bytes i t.session_id ≡ false) × (lookup i (remove_session now i s).sessions ≡ none)
remove_session_frees now i s k t tied apart e = (other, gone)
  where
    gone : lookup i (remove_session now i s).sessions ≡ none
    gone = remove_session-sessions now i s

    l : listed t.session_id t.id (remove_session now i s) ≡ some t
    l = ((remove_session-IsTied now i s apart tied).leads k t e).0

    other : eq_bytes i t.session_id ≡ false
    other = elim (Bool-cases (eq_bytes i t.session_id)) [
      | inl p ↦ absurd (
          not_listed t.session_id t.id (remove_session now i s) t
            (ap (λ j. lookup j (remove_session now i s).sessions)
                (sym (eq_bytes-eq i t.session_id p))
              ∙ gone)
            l)
      | inr n ↦ n
    ]
