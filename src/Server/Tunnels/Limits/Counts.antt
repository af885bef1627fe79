-- ===== src/Server/Tunnels/Limits/Counts.antt =====
-- The limits of Server.Tunnels.Limits: what adding one tunnel leaves kept.
use wire_rift.Prelude.{
  ℕ, suc, ◌≤◌, ◌<◌, ◌≡◌, refl, sym, ap, ◌∙◌, Bool, true, false, if_split, if_cases, maybe,
  maybe_cases, List, [], ◌∷◌, length, Option, none, some, Bytes, lookup, lookup-modify_same, delete,
  store, modify, leb, arith,
}
use wire_rift.Auth.{Account}
use wire_rift.Server.Tunnels.{
  Tunnel, Session, Server, Config, with_tunnels, enlist, tunnels_of, session_add_tunnel,
  over_account_limit, add_tunnel, Refusal, account_tunnel_count,
}
use wire_rift.Server.Tunnels.Accounts.{tunnels_of_account, length-tunnels_of_account}

length-delete {ℓ} : {A : Type ℓ} (k : Bytes) (m : List (Bytes × A)) → length (delete k m) ≤ length m
unfolding delete
length-delete k [] = omega arith
length-delete k ((j, a) ∷ m) = ground (arith, length-delete k m)

-- One more tunnel in one session is at most one more for the account.
account_tunnel_count-store :
    (account i : Bytes) (t : Tunnel) (sessions : List (Bytes × Session))
    → account_tunnel_count account (modify i (with_tunnels (store t.id t)) sessions)
      ≤ suc (account_tunnel_count account sessions)
unfolding account_tunnel_count modify
account_tunnel_count-store account i t [] = omega arith
account_tunnel_count-store account i t ((j, x) ∷ sessions) =
    ground (arith, account_tunnel_count-store account i t sessions, length-delete t.id x.tunnels)

-- What a session and an account have once a tunnel is made.
abbrev pub WithinLimits : Session → Tunnel → Server → Type 0
WithinLimits x t s =
    ((m : List (Bytes × Tunnel))
      → tunnels_of t.session_id s ≡ some m
      → length m ≤ s.config.max_tunnels_per_session)
    × ((a : Account)
        → x.account ≡ some a
        → 0 < a.max_tunnels
        → length (tunnels_of_account a.id s.sessions) ≤ a.max_tunnels)

abbrev pub IfAdded : Session → Tunnel → Option Refusal × Server → Type 0
IfAdded x t (none, s) = WithinLimits x t s
IfAdded x t (some f, s) = Unit {0}

tunnels_of-enlist :
    (t : Tunnel) (s : Server) (m : List (Bytes × Tunnel))
    → tunnels_of t.session_id s ≡ some m
    → tunnels_of t.session_id (enlist t s) ≡ some (store t.id t m)
unfolding tunnels_of enlist
tunnels_of-enlist t s m e =
    ap (λ (o : Option Session). maybe o none (λ x. some x.tunnels))
      (lookup-modify_same t.session_id (with_tunnels (store t.id t)) s.sessions)
    ∙ inside (lookup t.session_id s.sessions) e
  where
    inside :
        (o : Option Session)
        → maybe o none (λ x. some x.tunnels) ≡ some m
        → maybe
            (maybe o none (λ x. some (with_tunnels (store t.id t) x)))
            none
            (λ x. some x.tunnels)
          ≡ some (store t.id t m)
    inside none h = absurd (cc h)
    inside (some x) h =
        ap (λ (o : Option (List (Bytes × Tunnel))). maybe o none (λ k. some (store t.id t k))) h

session_add_tunnel-tunnels :
    (t : Tunnel) (limit : ℕ) (s : Server) (m : List (Bytes × Tunnel))
    → (session_add_tunnel t limit s).0 ≡ true
    → tunnels_of t.session_id (session_add_tunnel t limit s).1 ≡ some m
    → length m ≤ limit
unfolding session_add_tunnel
session_add_tunnel-tunnels t limit s m =
    maybe_cases IfDone (tunnels_of t.session_id s) (λ _ h _. absurd (cc h))
      (λ m₀ e.
        if_split IfDone (leb limit (length m₀)) (λ _ h _. absurd (cc h))
          (λ room _ f. omega (
            arith,
            length_same (store t.id t m₀) m (sym (tunnels_of-enlist t s m₀ e) ∙ f),
            length-delete t.id m₀,
            short m₀ room,
          )))
  where
    IfDone : Bool × Server → Type 0
    IfDone r = r.0 ≡ true → tunnels_of t.session_id r.1 ≡ some m → length m ≤ limit

    short : (m₀ : List (Bytes × Tunnel)) → leb limit (length m₀) ≡ false → length m₀ < limit
    short m₀ e = ground arith

    length_same : (a b : List (Bytes × Tunnel)) → some a ≡ some b → length a ≡ length b
    length_same a b e = ap (λ (o : Option (List (Bytes × Tunnel))). maybe o 0 length) e

session_add_tunnel-count :
    (account : Bytes) (t : Tunnel) (limit : ℕ) (s : Server)
    → account_tunnel_count account (session_add_tunnel t limit s).1.sessions
      ≤ suc (account_tunnel_count account s.sessions)
unfolding session_add_tunnel enlist
session_add_tunnel-count account t limit s =
    maybe_cases Fine (tunnels_of t.session_id s) (λ _. omega arith)
      (λ m _.
        if_cases Fine (leb limit (length m)) (omega arith)
          (account_tunnel_count-store account t.session_id t s.sessions))
  where
    Fine : Bool × Server → Type 0
    Fine r =
        account_tunnel_count account r.1.sessions ≤ suc (account_tunnel_count account s.sessions)

under_limit :
    (x : Session) (a : Account) (s : Server)
    → over_account_limit x s ≡ false
    → x.account ≡ some a
    → 0 < a.max_tunnels
    → account_tunnel_count a.id s.sessions < a.max_tunnels
unfolding over_account_limit
under_limit x a s e f pos = ground (arith, rw f at e)

session_config :
    (t : Tunnel) (limit : ℕ) (s : Server) → (session_add_tunnel t limit s).1.config ≡ s.config
unfolding session_add_tunnel enlist
session_config t limit s =
    maybe_cases (λ (r : Bool × Server). r.1.config ≡ s.config) (tunnels_of t.session_id s)
      (λ _. refl)
      (λ m _.
        if_cases (λ (r : Bool × Server). r.1.config ≡ s.config) (leb limit (length m)) refl refl)

pub add_tunnel-IfAdded : (x : Session) (t : Tunnel) (s : Server) → IfAdded x t (add_tunnel x t s)
unfolding add_tunnel
add_tunnel-IfAdded x t s =
    if_split (IfAdded x t) (over_account_limit x s) (λ _. tt)
      (λ under.
        if_split (IfAdded x t) (session_add_tunnel t limit s).0
          (λ e. (
            λ m f. omega (
              arith,
              session_add_tunnel-tunnels t limit s m e f,
              ap (λ (c : Config). c.max_tunnels_per_session) (session_config t limit s),
            ),
            λ a f p. omega (
              arith,
              session_add_tunnel-count a.id t limit s,
              under_limit x a s under f p,
              length-tunnels_of_account a.id (session_add_tunnel t limit s).1.sessions,
            ),
          ))
          (λ _. tt))
  where
    limit : ℕ
    limit = s.config.max_tunnels_per_session
