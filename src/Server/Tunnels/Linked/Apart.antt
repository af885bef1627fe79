-- ===== src/Server/Tunnels/Linked/Apart.antt =====
-- No operation gives a session two tunnels of one ID.
use wire_rift.Prelude.{
  ℕ, refl, sym, Bool, not, maybe_cases, List, Option, All, Bytes, lookup, delete, store, modify,
  modify-All, delete-All, delete-Distinct, store-Distinct, ◌&&◌,
}
use mathlib.Core.Path.{subst}
use wire_rift.Server.CustomDomain.{Externals}
use wire_rift.Server.Tunnels.{Tunnel, TunnelRequest, Session, Server, with_tunnels, unlist, listed}
use wire_rift.Server.Tunnels.Close.{close_tunnel, remove_session}
use wire_rift.Server.Tunnels.Create.{handle_tunnel_request}
use wire_rift.Server.Tunnels.Linked.Changes.{handle_tunnel_request-keeps}
use wire_rift.Server.Tunnels.Linked.Closes.{
  HasDistinct, teardown_tunnel-sessions, end_tunnels-sessions,
}

abbrev pub IsApart : Server → Type 0
IsApart s = All HasDistinct s.sessions

delete_one :
    (i j : Bytes) (m : List (Bytes × Session))
    → All HasDistinct m
    → All HasDistinct (modify i (with_tunnels (delete j)) m)
delete_one i j m d =
    modify-All HasDistinct i (with_tunnels (delete j)) m (λ k x h. delete-Distinct j x.tunnels h) d

store_one :
    (t : Tunnel) (m : List (Bytes × Session))
    → All HasDistinct m
    → All HasDistinct (modify t.session_id (with_tunnels (store t.id t)) m)
store_one t m d =
    modify-All HasDistinct t.session_id (with_tunnels (store t.id t)) m
      (λ k x h. store-Distinct t.id t x.tunnels h) d

unlist-IsApart : (i j : Bytes) (s : Server) → IsApart s → IsApart (unlist i j s)
unfolding unlist
unlist-IsApart i j s d = delete_one i j s.sessions d

pub close_tunnel-IsApart : (i j : Bytes) (s : Server) → IsApart s → IsApart (close_tunnel i j s).1
unfolding close_tunnel
close_tunnel-IsApart i j s d =
    maybe_cases (λ (r : Bool × Server). IsApart r.1) (listed i j s) (λ _. d)
      (λ t _.
        subst (All HasDistinct) (sym (teardown_tunnel-sessions t (unlist i j s)))
          (unlist-IsApart i j s d))

pub remove_session-IsApart :
    (now : ℕ) (i : Bytes) (s : Server) → IsApart s → IsApart (remove_session now i s)
unfolding remove_session
remove_session-IsApart now i s d =
    maybe_cases IsApart (lookup i s.sessions) (λ _. d)
      (λ x _.
        subst (All HasDistinct)
          (sym (
            end_tunnels-sessions now (not s.shutting_down && not x.go_away) x.tunnels
              (record s { sessions = delete i s.sessions })))
          (delete-All HasDistinct i s.sessions d))

pub handle_tunnel_request-IsApart :
    (lib : Externals) (now : ℕ) (x : Session) (request : Option TunnelRequest)
    (tunnel_id random : Bytes) (s : Server)
    → IsApart s
    → IsApart (handle_tunnel_request lib now x request tunnel_id random s).1
handle_tunnel_request-IsApart lib now x request tunnel_id random s d =
    handle_tunnel_request-keeps (All HasDistinct) x tunnel_id s.tunnels
      (λ k old m _ _. delete_one old.session_id old.id m) (λ t m _ _. store_one t m) lib now request
      random s d refl
