-- ===== src/Server/Tunnels/Runs/Steps.antt =====
-- What single operations leave sound, for Server.Tunnels.Runs.
use mathlib.Core.Path.{subst}
use wire_rift.Prelude.{
  ℕ, ◌≡◌, refl, sym, ap, ◌∙◌, Bool, true, false, ◌&&◌, if◌then◌else◌, if_cases, maybe, maybe_cases,
  List, [], ◌∷◌, Option, none, some, Bytes, eq_bytes, eq_bytes-eq, lookup, lookup-store,
  lookup-modify, modify, modify-All, store, delete-All, Distinct, ltb, leb, ◌⊎◌, inl, inr,
  Bool-cases,
}
use wire_rift.Auth.{Token, Account, validate_token}
use wire_rift.RateLimit.{Manager, unit, refilled, get_limiter, allow_key}
use wire_rift.Server.Tunnels.{Session, Server, listed, tunnels_of, account_session_count}
use wire_rift.Server.Tunnels.Close.{close_tunnel, remove_session, remove_sessions}
use wire_rift.Server.Tunnels.Login.{
  handle_auth, register_session, start_session, new_session, LoginResult,
}
use wire_rift.Server.Tunnels.Linked.{view, IsTied}
use wire_rift.Server.Tunnels.Linked.Lists.{in_session}
use wire_rift.Server.Tunnels.Linked.Adds.{Alike-IsTied}
use wire_rift.Server.Tunnels.Linked.Closes.{HasDistinct, close_tunnel-IsTied, remove_session-IsTied}
use wire_rift.Server.Tunnels.Linked.Apart.{IsApart, close_tunnel-IsApart, remove_session-IsApart}

-- The names and the sessions are tied, and no session has two tunnels of one ID.
abbrev pub IsSound : Server → Type 0
IsSound s = IsTied (view s) × IsApart s

-- A change of a session that is not of its tunnels.
pub changed-IsSound :
    (i : Bytes) (f : Session → Session) (s : Server)
    → ((x : Session) → (f x).tunnels ≡ x.tunnels)
    → IsSound s
    → IsSound (record s { sessions = modify i f s.sessions })
unfolding listed tunnels_of
changed-IsSound i f s same sound = (
  Alike-IsTied (view s) (view (record s { sessions = modify i f s.sessions })) sound.0 (record {
    names = λ k. refl;
    lists = λ a b.
        ap (in_session b) (lookup-modify a i f s.sessions)
        ∙ inside b (eq_bytes i a) (lookup a s.sessions);
    more_ports = λ p h. h;
  }),
  modify-All HasDistinct i f s.sessions (λ k x d. subst Distinct (sym (same x)) d) sound.1,
)
  where
    inside :
        (b : Bytes) (c : Bool) (o : Option Session)
        → in_session b (if c then maybe o none (λ x. some (f x)) else o) ≡ in_session b o
    inside b true none = refl
    inside b true (some x) = ap (lookup b) (same x)
    inside b false o = refl

pub remove_sessions-IsSound :
    (now : ℕ) (ids : List Bytes) (s : Server) → IsSound s → IsSound (remove_sessions now ids s)
unfolding remove_sessions
remove_sessions-IsSound now [] s sound = sound
remove_sessions-IsSound now (i ∷ ids) s sound =
    remove_sessions-IsSound now ids (remove_session now i s)
      (remove_session-IsTied now i s sound.1 sound.0, remove_session-IsApart now i s sound.1)

pub close_tunnel-IsSound : (i j : Bytes) (s : Server) → IsSound s → IsSound (close_tunnel i j s).1
close_tunnel-IsSound i j s sound =
    (close_tunnel-IsTied i j s sound.0, close_tunnel-IsApart i j s sound.1)

-- A session that starts without tunnels.
stored-IsSound :
    (x : Session) (s : Server)
    → lookup x.id s.sessions ≡ none
    → x.tunnels ≡ []
    → IsSound s
    → IsSound (record s { sessions = store x.id x s.sessions })
unfolding listed tunnels_of lookup
stored-IsSound x s fresh empty sound = (
  Alike-IsTied (view s) (view (record s { sessions = store x.id x s.sessions })) sound.0 (record {
    names = λ k. refl;
    lists = λ a b.
        ap (in_session b) (lookup-store a x.id x s.sessions)
        ∙ inside a b (Bool-cases (eq_bytes x.id a));
    more_ports = λ p h. h;
  }),
  (subst Distinct (sym empty) tt, delete-All HasDistinct x.id s.sessions sound.1),
)
  where
    inside :
        (a b : Bytes)
        → (eq_bytes x.id a ≡ true) ⊎ (eq_bytes x.id a ≡ false)
        → in_session b (if eq_bytes x.id a then some x else lookup a s.sessions)
          ≡ in_session b (lookup a s.sessions)
    inside a b (inl e) = rw e (
        ap (lookup b) empty
        ∙ sym (ap (in_session b) fresh)
        ∙ ap (λ k. in_session b (lookup k s.sessions)) (eq_bytes-eq x.id a e))
    inside a b (inr e) = rw e refl

register_session-IsSound :
    (x : Session) (max_sessions : ℕ) (s : Server)
    → lookup x.id s.sessions ≡ none
    → x.tunnels ≡ []
    → IsSound s
    → IsSound (register_session x max_sessions s).1
unfolding register_session
register_session-IsSound x max_sessions s fresh empty sound =
    if_cases Fine full sound (stored-IsSound x s fresh empty sound)
  where
    full : Bool
    full = ltb 0 max_sessions && leb max_sessions (account_session_count x.account_id s.sessions)

    Fine : Bool × Server → Type 0
    Fine r = IsSound r.1

start_session-IsSound :
    (x : Session) (max_sessions : ℕ) (s : Server)
    → lookup x.id s.sessions ≡ none
    → x.tunnels ≡ []
    → IsSound s
    → IsSound (start_session x max_sessions s).1
unfolding start_session
start_session-IsSound x max_sessions s fresh empty sound =
    if_cases Fine (register_session x max_sessions s).0
      (register_session-IsSound x max_sessions s fresh empty sound) sound
  where
    Fine : LoginResult × Server → Type 0
    Fine r = IsSound r.1

new_session-IsSound :
    (now : ℕ) (session_id : Bytes) (t : Token) (a : Account) (max_sessions : ℕ) (s : Server)
    → lookup session_id s.sessions ≡ none
    → IsSound s
    → IsSound (start_session (new_session now session_id t a) max_sessions s).1
unfolding new_session
new_session-IsSound now session_id t a max_sessions s fresh sound =
    start_session-IsSound (new_session now session_id t a) max_sessions s fresh refl sound

pub handle_auth-IsSound :
    (hash_secret : Bytes → Bytes) (now : ℕ) (ip session_id secret : Bytes) (s : Server)
    → lookup session_id s.sessions ≡ none
    → IsSound s
    → IsSound (handle_auth hash_secret now ip session_id secret s).1
unfolding handle_auth listed tunnels_of
handle_auth-IsSound hash_secret now ip session_id secret s fresh sound =
    if_cases Fine (ltb (refilled now (get_limiter now ip s.auth_fails).0) unit)
      (counted (get_limiter now ip s.auth_fails).1)
      (maybe_cases Fine (validate_token hash_secret now s.auth_manager secret)
        (λ _. counted (allow_key now ip (get_limiter now ip s.auth_fails).1).1)
        (λ v _. started_session v.0 v.1))
  where
    Fine : LoginResult × Server → Type 0
    Fine r = IsSound r.1

    with_fails : Manager → Server
    with_fails m = record s { auth_fails = m }

    counted : (m : Manager) → IsSound (with_fails m)
    counted m = sound

    started_session :
        (t : Token) (a : Account)
        → IsSound
            (start_session
              (new_session now session_id t a)
              a.max_sessions
              (with_fails (get_limiter now ip s.auth_fails).1)).1
    started_session t a =
        new_session-IsSound now session_id t a a.max_sessions
          (with_fails (get_limiter now ip s.auth_fails).1) fresh
          (counted (get_limiter now ip s.auth_fails).1)
