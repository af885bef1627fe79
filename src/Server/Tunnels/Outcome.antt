-- ===== src/Server/Tunnels/Outcome.antt =====
-- How a login can end, and what each end means.
use wire_rift.Prelude.{
  ℕ, suc, ◌≤◌, ◌<◌, ◌≡◌, refl, Bool, true, false, ◌&&◌, if◌then◌else◌, if_split, maybe_cases, List,
  [], ◌∷◌, length, none, some, Bytes, delete, store, ltb, leb, arith, ltb→lt,
}
use wire_rift.Auth.{Token, Account, validate_token}
use wire_rift.RateLimit.{Manager, unit, refilled, get_limiter}
use wire_rift.Server.Tunnels.{Session, Server, account_session_count}
use wire_rift.Server.Tunnels.Accounts.{sessions_of_account, length-sessions_of_account}
use wire_rift.Server.Tunnels.Login.{
  LoginResult, too_many_attempts, invalid_token, session_limit, logged_in, handle_auth,
  register_session, start_session, new_session,
}

account_session_count-delete :
    (account i : Bytes) (sessions : List (Bytes × Session))
    → account_session_count account (delete i sessions) ≤ account_session_count account sessions
unfolding account_session_count delete
account_session_count-delete account i [] = omega arith
account_session_count-delete account i ((j, x) ∷ sessions) =
    ground (arith, account_session_count-delete account i sessions)

account_session_count-store :
    (account : Bytes) (x : Session) (sessions : List (Bytes × Session))
    → account_session_count account (store x.id x sessions)
      ≤ suc (account_session_count account sessions)
unfolding account_session_count
account_session_count-store account x sessions =
    ground (arith, account_session_count-delete account x.id sessions)

account_session_count-stored :
    (account : Bytes) (now : ℕ) (session_id : Bytes) (t : Token) (a : Account)
    (sessions : List (Bytes × Session))
    → account_session_count account (store session_id (new_session now session_id t a) sessions)
      ≤ suc (account_session_count account sessions)
unfolding new_session
account_session_count-stored account now session_id t a sessions =
    account_session_count-store account (new_session now session_id t a) sessions

-- What a result of `handleAuth` says: too many attempts means that the address has less than one
-- token left; an invalid token is not accepted; a session limit means that the account has its
-- number of sessions already. In these cases the sessions stay as they are. A session that starts
-- is one of the account whose token was accepted, and with it the account is within its limit.
abbrev pub Meant :
    (Bytes → Bytes) → ℕ → Bytes → Bytes → Bytes → Server → LoginResult × Server → Type 0
Meant hash_secret now ip session_id secret s (too_many_attempts, s') =
    (refilled now (get_limiter now ip s.auth_fails).0 < unit) × (s'.sessions ≡ s.sessions)
Meant hash_secret now ip session_id secret s (invalid_token, s') =
    (validate_token hash_secret now s.auth_manager secret ≡ none) × (s'.sessions ≡ s.sessions)
Meant hash_secret now ip session_id secret s (session_limit, s') =
    ((t : Token) × (a : Account) × (validate_token hash_secret now s.auth_manager secret
        ≡ some (t, a))
      × (0 < a.max_sessions)
      × (a.max_sessions ≤ length (sessions_of_account a.id s.sessions)))
    × (s'.sessions ≡ s.sessions)
Meant hash_secret now ip session_id secret s (logged_in x, s') =
    (t : Token) × (a : Account) × (validate_token hash_secret now s.auth_manager secret
      ≡ some (t, a))
    × (x ≡ new_session now session_id t a)
    × (s'.sessions ≡ store session_id x s.sessions)
    × (0 < a.max_sessions → length (sessions_of_account a.id s'.sessions) ≤ a.max_sessions)

module _ (hash_secret : Bytes → Bytes) (now : ℕ) (ip session_id secret : Bytes) (s : Server)
    (t : Token) (a : Account)
    (ok : validate_token hash_secret now s.auth_manager secret ≡ some (t, a)) (m : Manager) where
  counted : Server
  counted = record s { auth_fails = m }

  full : Bool
  full = ltb 0 a.max_sessions && leb a.max_sessions (account_session_count a.id s.sessions)

  session : Session
  session = new_session now session_id t a

  by_full :
      (b : Bool)
      → full ≡ b
      → Meant hash_secret now ip session_id secret s (
          let r : Bool × Server =
            if b
            then (false, counted)
            else (true, record counted { sessions = store session_id session s.sessions }) in
          if r.0 then (logged_in session, r.1) else (session_limit, counted))
  unfolding full counted new_session session
  by_full true e =
      ((t, a, ok, ground arith, ground (arith, length-sessions_of_account a.id s.sessions)), refl)
  by_full false e = (
    t,
    a,
    ok,
    refl,
    refl,
    λ p. omega (
      arith,
      account_session_count-stored a.id now session_id t a s.sessions,
      room (account_session_count a.id s.sessions) p e,
      length-sessions_of_account a.id
          (store session_id (new_session now session_id t a) s.sessions),
    ),
  )
    where
      room :
          (n : ℕ)
          → 0 < a.max_sessions
          → (ltb 0 a.max_sessions && leb a.max_sessions n) ≡ false
          → n < a.max_sessions
      room n p f = ground arith

  start_session-Meant :
      Meant hash_secret now ip session_id secret s (start_session session a.max_sessions counted)
  unfolding start_session register_session counted full session new_session
  start_session-Meant = by_full full refl

-- Every login ends as its result says: refused for too many attempts, for its token, or for the
-- account's limit on sessions, the sessions being as before; or with a session of the account whose
-- token was accepted, which then has at most its limit of sessions.
pub handle_auth-Meant :
    (hash_secret : Bytes → Bytes) (now : ℕ) (ip session_id secret : Bytes) (s : Server)
    → Meant hash_secret now ip session_id secret s
        (handle_auth hash_secret now ip session_id secret s)
unfolding handle_auth session counted
handle_auth-Meant hash_secret now ip session_id secret s =
    if_split Fine (ltb (refilled now (get_limiter now ip s.auth_fails).0) unit)
      (λ e. (ltb→lt (refilled now (get_limiter now ip s.auth_fails).0) unit e, refl))
      (λ _.
        maybe_cases Fine (validate_token hash_secret now s.auth_manager secret) (λ e. (e, refl))
          (λ v e.
            start_session-Meant hash_secret now ip session_id secret s v.0 v.1 e
              (get_limiter now ip s.auth_fails).1))
  where
    Fine : LoginResult × Server → Type 0
    Fine r = Meant hash_secret now ip session_id secret s r
