-- ===== src/Server/Tunnels/Close.antt =====
-- internal/server/server.go: how tunnels and sessions end.
use wire_rift.Prelude.{
  ℕ, zero, suc, ◌+◌, ◌-◌, ◌*◌, Bool, true, false, not, ◌&&◌, ◌||◌, ◌==◌, if◌then◌else◌, maybe, List,
  [], ◌∷◌, ◌++◌, length, Option, none, some, Bytes, lookup, delete, ltb,
}
use wire_rift.Auth.{still_valid}
use wire_rift.Server.Held.{HeldNames, hold_subdomain, HeldRecord}
use wire_rift.Server.Names.{port_key, custom_key}
use wire_rift.Server.Ports.{release_port, drop_port}
use wire_rift.Server.Tunnels.{
  Tunnel, TunnelType, http, tcp, other_type, Session, Server, ℤ, pos, negsuc, same_tunnel, listed,
  unlist,
}

-- A sync.Map's CompareAndDelete, which deletes the key if it is mapped to this object.
unfoldable pub compare_and_delete : Bytes → Tunnel → List (Bytes × Tunnel) → List (Bytes × Tunnel)
compare_and_delete key t m =
    maybe (lookup key m) m (λ u. if same_tunnel t u then delete key m else m)

-- `cancelExpiry` on the list of running timers.
unfoldable pub cancel_expiry : Tunnel → List Tunnel → List Tunnel
cancel_expiry t [] = []
cancel_expiry t (u ∷ timers) =
    let rest = cancel_expiry t timers in if same_tunnel t u then rest else u ∷ rest

-- `cancelExpiry` and `markClosed`
unfoldable pub mark_closed : Tunnel → Server → Server
mark_closed t s = record s { timers = cancel_expiry t s.timers; closed = t ∷ s.closed }

-- The public names of an HTTP tunnel are released.
unfoldable pub release_names : Tunnel → List (Bytes × Tunnel) → List (Bytes × Tunnel)
release_names t m =
    let rest = delete t.subdomain m in
    if length t.custom_domain == 0
    then rest
    else compare_and_delete (custom_key t.custom_domain) t rest

-- The switch of `teardownTunnel` on the tunnel's type.
unfoldable pub release_tunnel : Tunnel → TunnelType → Server → Server
release_tunnel t http s = record s { tunnels = release_names t s.tunnels }
release_tunnel t tcp s = record s {
  tunnels = delete (port_key t.port) s.tunnels;
  listeners = drop_port t.port s.listeners;
  ports = release_port t.port s.ports;
}
release_tunnel t (other_type n) s = s

-- `teardownTunnel`
unfoldable pub teardown_tunnel : Tunnel → Server → Server
teardown_tunnel t s = release_tunnel t t.tunnel_type (mark_closed t s)

-- `closeTunnel`, which also is what a tunnel's expiry timer runs.
unfoldable pub close_tunnel : Bytes → Bytes → Server → Bool × Server
close_tunnel session_id tunnel_id s =
    maybe (listed session_id tunnel_id s) (false, s)
      (λ t. (true, teardown_tunnel t (unlist session_id tunnel_id s)))

-- `handleTunnelClose`; `none` is a payload that does not decode.
unfoldable pub handle_tunnel_close : Bytes → Option Bytes → Server → Server
handle_tunnel_close session_id request s =
    maybe request s (λ tunnel_id. (close_tunnel session_id tunnel_id s).1)

-- Whether the name of a tunnel is held when its session ends.
unfoldable pub is_holdable : Tunnel → TunnelType → Bool
is_holdable t http = length t.custom_domain == 0
is_holdable t tcp = false
is_holdable t (other_type n) = false

-- One round of the loop of `removeSession`, which deletes no tunnel from the session's map: that
-- is nil by then.
unfoldable pub end_tunnel : ℕ → Bool → Tunnel → Server → Server
end_tunnel now keep t s =
    let h =
      if (keep && is_holdable t t.tunnel_type)
      then hold_subdomain s.config.offline_grace now t.subdomain t.account_id s.held
      else s.held in
    teardown_tunnel t (record s { held = h })

unfoldable pub end_tunnels : ℕ → Bool → List (Bytes × Tunnel) → Server → Server
end_tunnels now keep [] s = s
end_tunnels now keep ((_, t) ∷ tunnels) s = end_tunnels now keep tunnels (end_tunnel now keep t s)

-- `removeSession` at time `now`
unfoldable pub remove_session : ℕ → Bytes → Server → Server
remove_session now session_id s = maybe (lookup session_id s.sessions) s (λ x.
    end_tunnels now (not s.shutting_down && not x.go_away) x.tunnels
      (record s { sessions = delete session_id s.sessions }))

unfoldable pub remove_sessions : ℕ → List Bytes → Server → Server
remove_sessions now [] s = s
remove_sessions now (id ∷ ids) s = remove_sessions now ids (remove_session now id s)

-- The sessions that `CloseRevokedSessions` ends, by their IDs.
unfoldable pub stale_sessions : ℕ → Server → List (Bytes × Session) → List Bytes
stale_sessions now s [] = []
stale_sessions now s ((_, x) ∷ sessions) =
    let rest = stale_sessions now s sessions in
    if still_valid now s.auth_manager x.token then rest else x.id ∷ rest

-- `CloseRevokedSessions`; closing the multiplexer of a removed session is left out.
unfoldable pub close_revoked_sessions : ℕ → Server → ℕ × Server
close_revoked_sessions now s =
    let stale = stale_sessions now s s.sessions in (length stale, remove_sessions now stale s)

-- The sessions that `cleanupInactiveSessions` ends.
unfoldable pub silent_sessions : ℕ → ℕ → List (Bytes × Session) → List Bytes
silent_sessions now session_timeout [] = []
silent_sessions now session_timeout ((_, x) ∷ sessions) =
    let rest = silent_sessions now session_timeout sessions in
    if ltb session_timeout (now - x.last_seen) then x.id ∷ rest else rest

-- `cleanupInactiveSessions`
unfoldable pub cleanup_inactive_sessions : ℕ → Server → Server
cleanup_inactive_sessions now s =
    remove_sessions now (silent_sessions now s.config.session_timeout s.sessions) s

-- `expiryFor`
unfoldable pub expiry_for : ℕ → ℤ → Option ℕ
expiry_for now (pos zero) = none
expiry_for now (pos (suc seconds)) = some (now + suc seconds * 1000000000)
expiry_for now (negsuc n) = none

-- `armExpiry`: a timer that finds its session gone is stopped again.
unfoldable pub arm_expiry : Tunnel → Server → Server
arm_expiry t s =
    maybe t.expires_at s
      (λ _. maybe (listed t.session_id t.id s) s (λ _. record s { timers = t ∷ s.timers }))

-- The records of `saveHeld`: the names on hold, and those of the sessions without a GO_AWAY.
unfoldable pub held_records : ℕ → HeldNames → List HeldRecord
held_records now [] = []
held_records now ((k, h) ∷ held) =
    let rest = held_records now held in
    if ltb now h.until
    then record { subdomain = k; account_id = h.account_id; until = h.until } ∷ rest
    else rest

unfoldable pub tunnel_records : ℕ → List (Bytes × Tunnel) → List HeldRecord → List HeldRecord
tunnel_records until [] records = records
tunnel_records until ((_, t) ∷ tunnels) records =
    let rest = tunnel_records until tunnels records in
    if is_holdable t t.tunnel_type
    then record { subdomain = t.subdomain; account_id = t.account_id; until = until } ∷ rest
    else rest

unfoldable pub session_records : ℕ → List (Bytes × Session) → List HeldRecord
session_records until [] = []
session_records until ((_, x) ∷ sessions) =
    let rest = session_records until sessions in
    if x.go_away then rest else tunnel_records until x.tunnels rest

-- `saveHeld`: the records that it writes; `none` where there is no file to write.
unfoldable pub save_held : ℕ → Bool → Server → Option (List HeldRecord)
save_held now has_held_file s =
    if (not has_held_file || s.config.offline_grace == 0)
    then none
    else some (held_records now s.held ++ session_records (now + s.config.offline_grace) s.sessions)
