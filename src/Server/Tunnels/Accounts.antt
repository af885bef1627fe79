-- ===== src/Server/Tunnels/Accounts.antt =====
-- The sessions and the tunnels of an account, which the server counts.
use wire_rift.Prelude.{
  ◌≡◌, refl, if◌then◌else◌, List, [], ◌∷◌, ◌++◌, length, length-append, Bytes, eq_bytes, arith,
}
use wire_rift.Server.Tunnels.{Tunnel, Session, account_session_count, account_tunnel_count}

abbrev pub sessions_of_account : Bytes → List (Bytes × Session) → List Session
sessions_of_account account [] = []
sessions_of_account account ((_, x) ∷ sessions) =
    let rest = sessions_of_account account sessions in
    if eq_bytes x.account_id account then x ∷ rest else rest

abbrev pub tunnels_of_account : Bytes → List (Bytes × Session) → List (Bytes × Tunnel)
tunnels_of_account account [] = []
tunnels_of_account account ((_, x) ∷ sessions) =
    let rest = tunnels_of_account account sessions in
    if eq_bytes x.account_id account then x.tunnels ++ rest else rest

pub length-sessions_of_account :
    (account : Bytes) (sessions : List (Bytes × Session))
    → length (sessions_of_account account sessions) ≡ account_session_count account sessions
unfolding account_session_count
length-sessions_of_account account [] = refl
length-sessions_of_account account ((_, x) ∷ sessions) =
    ground (arith, length-sessions_of_account account sessions)

pub length-tunnels_of_account :
    (account : Bytes) (sessions : List (Bytes × Session))
    → length (tunnels_of_account account sessions) ≡ account_tunnel_count account sessions
unfolding account_tunnel_count
length-tunnels_of_account account [] = refl
length-tunnels_of_account account ((_, x) ∷ sessions) = ground (
  arith,
  length-tunnels_of_account account sessions,
  length-append x.tunnels (tunnels_of_account account sessions),
)
