-- ===== src/Server/Tunnels/Login.antt =====
-- internal/server/server.go: how a session starts.
use wire_rift.Prelude.{
  ℕ, Bool, true, false, ◌&&◌, if◌then◌else◌, maybe, [], some, Bytes, store, ltb, leb,
}
use wire_rift.Auth.{Token, Account, validate_token}
use wire_rift.RateLimit.{unit, refilled, get_limiter, allow_key}
use wire_rift.Server.Tunnels.{Session, Server, account_session_count}

abbrev pub auth_fail_burst : ℕ
auth_fail_burst = 10

-- `authFailRefill`, in thousandths of a token per second.
abbrev pub auth_fail_refill : ℕ
auth_fail_refill = 200

-- `registerSession`; a limit of 0 is none.
unfoldable pub register_session : Session → ℕ → Server → Bool × Server
register_session x max_sessions s =
    if (ltb 0 max_sessions && leb max_sessions (account_session_count x.account_id s.sessions))
    then (false, s)
    else (true, record s { sessions = store x.id x s.sessions })

-- The answer to an authentication request.
pub data LoginResult : Type 0 where
  too_many_attempts invalid_token session_limit : LoginResult
  logged_in : Session → LoginResult

-- The session that `handleAuth` makes.
unfoldable pub new_session : ℕ → Bytes → Token → Account → Session
new_session now session_id t a = record {
  id = session_id;
  account_id = a.id;
  account = some a;
  token = some t;
  go_away = false;
  tunnels = [];
  created_at = now;
  last_seen = now;
}

-- What follows a token that is good.
unfoldable pub start_session : Session → ℕ → Server → LoginResult × Server
start_session x max_sessions s =
    let r = register_session x max_sessions s in
    if r.0 then (logged_in x, r.1) else (session_limit, s)

-- `handleAuth` for a request that decodes, from an address, at time `now`: the throttle on failed
-- logins, the token, the session. `hash_secret` is HashSecret.
unfoldable pub handle_auth :
    (Bytes → Bytes) → ℕ → Bytes → Bytes → Bytes → Server → LoginResult × Server
handle_auth hash_secret now ip session_id secret s =
    let got = get_limiter now ip s.auth_fails in
    let s0 = record s { auth_fails = got.1 } in
    if ltb (refilled now got.0) unit
    then (too_many_attempts, s0)
    else maybe (validate_token hash_secret now s.auth_manager secret)
        (invalid_token, record s { auth_fails = (allow_key now ip got.1).1 })
        (λ v. start_session (new_session now session_id v.0 v.1) v.1.max_sessions s0)
