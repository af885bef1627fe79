-- ===== src/Server/Tunnels/Runs.antt =====
-- What holds of the server after any sequence of its operations.
mod Steps
use mathlib.Core.Path.{subst}
use wire_rift.Prelude.{
  ℕ, ◌≡◌, refl, sym, ap, ◌∙◌, maybe_cases, [], Option, none, some, All, Bytes, lookup,
}
use wire_rift.Server.CustomDomain.{Externals}
use wire_rift.Server.Tunnels.{
  Tunnel, TunnelRequest, Session, Server, listed, tunnels_of, touch, receive_go_away,
}
use wire_rift.Server.Tunnels.Create.{handle_tunnel_request}
use wire_rift.Server.Tunnels.Close.{
  close_tunnel, handle_tunnel_close, remove_session, close_revoked_sessions,
  cleanup_inactive_sessions,
}
use wire_rift.Server.Tunnels.Login.{handle_auth}
use wire_rift.Server.Tunnels.Linked.{view, IsTied}
use wire_rift.Server.Tunnels.Linked.Lists.{in_session}
use wire_rift.Server.Tunnels.Linked.Closes.{HasDistinct, remove_session-IsTied}
use wire_rift.Server.Tunnels.Linked.Serves.{handle_tunnel_request-Tied}
use wire_rift.Server.Tunnels.Linked.Apart.{
  IsApart, remove_session-IsApart, handle_tunnel_request-IsApart,
}
use wire_rift.Server.Tunnels.Runs.Steps.{
  IsSound, changed-IsSound, remove_sessions-IsSound, close_tunnel-IsSound, handle_auth-IsSound,
}

-- The servers that any operations, in any order, lead to from one without sessions and tunnels.
-- The IDs that `generateSubdomain` gives to a session, and to a tunnel within its session, are new.
-- An expiry timer runs `close_tunnel`. A session's handler may still run when the session is gone.
pub data Reached : Server → Type 0 where
  started : (s : Server) → s.sessions ≡ [] → s.tunnels ≡ [] → Reached s
  logging_in :
      (hash_secret : Bytes → Bytes) (now : ℕ) (ip session_id secret : Bytes) (s : Server)
      → Reached s
      → lookup session_id s.sessions ≡ none
      → Reached (handle_auth hash_secret now ip session_id secret s).1
  requesting :
      (lib : Externals) (now : ℕ) (x : Session) (request : Option TunnelRequest)
      (tunnel_id random : Bytes) (s : Server)
      → Reached s
      → listed x.id tunnel_id s ≡ none
      → Reached (handle_tunnel_request lib now x request tunnel_id random s).1
  closing :
      (session_id : Bytes) (request : Option Bytes) (s : Server)
      → Reached s
      → Reached (handle_tunnel_close session_id request s)
  expiring :
      (session_id tunnel_id : Bytes) (s : Server)
      → Reached s
      → Reached (close_tunnel session_id tunnel_id s).1
  ending :
      (now : ℕ) (session_id : Bytes) (s : Server)
      → Reached s
      → Reached (remove_session now session_id s)
  revoking : (now : ℕ) (s : Server) → Reached s → Reached (close_revoked_sessions now s).1
  cleaning : (now : ℕ) (s : Server) → Reached s → Reached (cleanup_inactive_sessions now s)
  touching :
      (now : ℕ) (session_id : Bytes) (s : Server) → Reached s → Reached (touch now session_id s)
  leaving : (session_id : Bytes) (s : Server) → Reached s → Reached (receive_go_away session_id s)

empty-IsSound : (s : Server) → s.sessions ≡ [] → s.tunnels ≡ [] → IsSound s
unfolding listed tunnels_of lookup
empty-IsSound s no_sessions no_tunnels = (
  record {
    leads = λ k t e. absurd (nothing t (sym (ap (lookup k) no_tunnels) ∙ e));
    owned =
        λ a b t e. absurd (nothing t (sym (ap (λ m. in_session b (lookup a m)) no_sessions) ∙ e));
  },
  subst (All HasDistinct) (sym no_sessions) tt,
)
  where
    nothing : (t : Tunnel) → none ≡ some t → ⊥
    nothing t p = cc

-- After any sequence of logins, requests, closes, expiries, ends of sessions, revocations and
-- clean-ups, in any order, with new IDs for new sessions and tunnels: every public name leads to a
-- tunnel that has the name and that a live session lists; and every tunnel that a session lists is
-- that session's, under its own ID, and all its names lead to it, its TCP port being allocated.
pub Reached-IsSound : (s : Server) → Reached s → IsTied (view s) × IsApart s
unfolding handle_tunnel_close close_revoked_sessions cleanup_inactive_sessions touch receive_go_away
Reached-IsSound _ (started s e f) = empty-IsSound s e f
Reached-IsSound _ (logging_in hash_secret now ip session_id secret s r fresh) =
    handle_auth-IsSound hash_secret now ip session_id secret s fresh (Reached-IsSound s r)
Reached-IsSound _ (requesting lib now x request tunnel_id random s r fresh) = (
  handle_tunnel_request-Tied lib now x request tunnel_id random s (Reached-IsSound s r).0 fresh,
  handle_tunnel_request-IsApart lib now x request tunnel_id random s (Reached-IsSound s r).1,
)
Reached-IsSound _ (closing i request s r) =
    maybe_cases IsSound request (λ _. Reached-IsSound s r)
      (λ j _. close_tunnel-IsSound i j s (Reached-IsSound s r))
Reached-IsSound _ (expiring i j s r) = close_tunnel-IsSound i j s (Reached-IsSound s r)
Reached-IsSound _ (ending now i s r) = (
  remove_session-IsTied now i s (Reached-IsSound s r).1 (Reached-IsSound s r).0,
  remove_session-IsApart now i s (Reached-IsSound s r).1,
)
Reached-IsSound _ (revoking now s r) = remove_sessions-IsSound now _ s (Reached-IsSound s r)
Reached-IsSound _ (cleaning now s r) = remove_sessions-IsSound now _ s (Reached-IsSound s r)
Reached-IsSound _ (touching now i s r) = changed-IsSound i _ s (λ x. refl) (Reached-IsSound s r)
Reached-IsSound _ (leaving i s r) = changed-IsSound i _ s (λ x. refl) (Reached-IsSound s r)
