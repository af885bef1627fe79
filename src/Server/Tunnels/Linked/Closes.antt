-- ===== src/Server/Tunnels/Linked/Closes.antt =====
-- Closing a tunnel and removing a session keep the tie.
use wire_rift.Prelude.{
  ℕ, ◌≡◌, refl, sym, ap, ◌∙◌, Bool, true, false, not, ◌&&◌, if◌then◌else◌, maybe, maybe_cases, List,
  [], ◌∷◌, Option, none, some, All, Bytes, eq_bytes, eq_bytes_refl, eq_bytes-eq, lookup,
  lookup-delete, lookup-All, delete, Distinct, ◌⊎◌, inl, inr, Bool-cases,
}
use wire_rift.Server.Tunnels.{
  Tunnel, TunnelType, http, tcp, other_type, Session, Server, tunnels_of, listed, unlist,
}
use wire_rift.Server.Tunnels.Close.{
  mark_closed, release_tunnel, teardown_tunnel, close_tunnel, end_tunnel, end_tunnels,
  remove_session,
}
use wire_rift.Server.Tunnels.Linked.{view, IsTied, Removed, Removed-IsTied}
use wire_rift.Server.Tunnels.Linked.Adds.{Alike-IsTied}
use wire_rift.Server.Tunnels.Linked.Lists.{listed-unlist, unlist-without}
use wire_rift.Server.Tunnels.Linked.Ends.{view_with, teardown_tunnel-Removed}

pub release_tunnel-sessions :
    (t : Tunnel) (y : TunnelType) (s : Server) → (release_tunnel t y s).sessions ≡ s.sessions
unfolding release_tunnel
release_tunnel-sessions t http s = refl
release_tunnel-sessions t tcp s = refl
release_tunnel-sessions t (other_type n) s = refl

pub teardown_tunnel-sessions :
    (t : Tunnel) (s : Server) → (teardown_tunnel t s).sessions ≡ s.sessions
unfolding teardown_tunnel mark_closed
teardown_tunnel-sessions t s = release_tunnel-sessions t t.tunnel_type (mark_closed t s)

pub listed-teardown_tunnel :
    (t : Tunnel) (s : Server) (a b : Bytes) → listed a b (teardown_tunnel t s) ≡ listed a b s
unfolding listed tunnels_of
listed-teardown_tunnel t s a b =
    ap (λ sessions. maybe (maybe (lookup a sessions) none (λ x. some x.tunnels)) none (lookup b))
      (teardown_tunnel-sessions t s)

-- A tunnel that is closed goes from its session with all its names.
pub close_tunnel-Removed :
    (s : Server) (i j : Bytes) (t : Tunnel)
    → IsTied (view s)
    → listed i j s ≡ some t
    → Removed t (view s) (view (teardown_tunnel t (unlist i j s)))
unfolding unlist
close_tunnel-Removed s i j t tied e =
    teardown_tunnel-Removed (λ a b. listed a b s)
      (λ a b. listed a b (teardown_tunnel t (unlist i j s))) (unlist i j s) i j t tied e
      (λ a b.
        listed-teardown_tunnel t (unlist i j s) a b
        ∙ listed-unlist i j a b s
        ∙ unlist-without (view s) i j a b t tied e)

pub close_tunnel-IsTied :
    (i j : Bytes) (s : Server) → IsTied (view s) → IsTied (view (close_tunnel i j s).1)
unfolding close_tunnel
close_tunnel-IsTied i j s tied =
    maybe_cases (λ (r : Bool × Server). IsTied (view r.1)) (listed i j s) (λ _. tied)
      (λ t e.
        Removed-IsTied (view s) (view (teardown_tunnel t (unlist i j s))) t i j tied e
          (close_tunnel-Removed s i j t tied e))

-- What the sessions list while one of them ends: of its tunnels, those that are still to end.
abbrev ending :
    Bytes → (Bytes → Bytes → Option Tunnel) → List (Bytes × Tunnel) → Bytes → Bytes → Option Tunnel
ending i lists m a b = if eq_bytes i a then lookup b m else lists a b

next_ending :
    (i : Bytes) (lists : Bytes → Bytes → Option Tunnel) (j : Bytes) (t : Tunnel)
    (m : List (Bytes × Tunnel)) (a b : Bytes)
    → lookup j m ≡ none
    → ending i lists m a b
      ≡ (if eq_bytes i a && eq_bytes j b then none else ending i lists ((j, t) ∷ m) a b)
unfolding lookup
next_ending i lists j t m a b free = elim (Bool-cases (eq_bytes i a)) [
  | inl e ↦ rw e (inside (Bool-cases (eq_bytes j b)))
  | inr e ↦ rw e refl
]
  where
    inside :
        ((eq_bytes j b ≡ true) ⊎ (eq_bytes j b ≡ false))
        → lookup b m ≡ (if eq_bytes j b then none else if eq_bytes j b then some t else lookup b m)
    inside (inl f) = rw f (ap (λ k. lookup k m) (sym (eq_bytes-eq j b f)) ∙ free)
    inside (inr f) = rw f refl

first :
    (i j : Bytes) (t : Tunnel) (m : List (Bytes × Tunnel)) (lists : Bytes → Bytes → Option Tunnel)
    → ending i lists ((j, t) ∷ m) i j ≡ some t
unfolding lookup
first i j t m lists = rw (eq_bytes_refl i, eq_bytes_refl j) refl

end_tunnel-Removed :
    (now : ℕ) (keep : Bool) (i : Bytes) (lists : Bytes → Bytes → Option Tunnel) (j : Bytes)
    (t : Tunnel) (m : List (Bytes × Tunnel)) (s : Server)
    → lookup j m ≡ none
    → IsTied (view_with (ending i lists ((j, t) ∷ m)) s)
    → Removed t
        (view_with (ending i lists ((j, t) ∷ m)) s)
        (view_with (ending i lists m) (end_tunnel now keep t s))
unfolding end_tunnel
end_tunnel-Removed now keep i lists j t m s free tied =
    teardown_tunnel-Removed (ending i lists ((j, t) ∷ m)) (ending i lists m) _ i j t tied here
      (λ a b.
        next_ending i lists j t m a b free
        ∙ unlist-without (view_with (ending i lists ((j, t) ∷ m)) s) i j a b t tied here)
  where
    here : ending i lists ((j, t) ∷ m) i j ≡ some t
    here = first i j t m lists

end_tunnels-IsTied :
    (now : ℕ) (keep : Bool) (i : Bytes) (lists : Bytes → Bytes → Option Tunnel)
    (m : List (Bytes × Tunnel)) (s : Server)
    → Distinct m
    → IsTied (view_with (ending i lists m) s)
    → IsTied (view_with (ending i lists []) (end_tunnels now keep m s))
unfolding end_tunnels
end_tunnels-IsTied now keep i lists [] s d tied = tied
end_tunnels-IsTied now keep i lists ((j, t) ∷ m) s d tied =
    end_tunnels-IsTied now keep i lists m (end_tunnel now keep t s) d.1 (
      Removed-IsTied (view_with (ending i lists ((j, t) ∷ m)) s)
        (view_with (ending i lists m) (end_tunnel now keep t s)) t i j tied (first i j t m lists)
        (end_tunnel-Removed now keep i lists j t m s d.0 tied))

end_tunnel-sessions :
    (now : ℕ) (keep : Bool) (t : Tunnel) (s : Server)
    → (end_tunnel now keep t s).sessions ≡ s.sessions
unfolding end_tunnel
end_tunnel-sessions now keep t s = teardown_tunnel-sessions t _

pub end_tunnels-sessions :
    (now : ℕ) (keep : Bool) (m : List (Bytes × Tunnel)) (s : Server)
    → (end_tunnels now keep m s).sessions ≡ s.sessions
unfolding end_tunnels
end_tunnels-sessions now keep [] s = refl
end_tunnels-sessions now keep ((j, t) ∷ m) s =
    end_tunnels-sessions now keep m (end_tunnel now keep t s) ∙ end_tunnel-sessions now keep t s

-- Every session's map of tunnels has each ID once.
abbrev pub HasDistinct : Bytes × Session → Type 0
HasDistinct e = Distinct e.1.tunnels

abbrev in_session : Bytes → Option Session → Option Tunnel
in_session b o = maybe (maybe o none (λ x. some x.tunnels)) none (lookup b)

starts_ending :
    (i a b : Bytes) (x : Session) (s : Server)
    → lookup i s.sessions ≡ some x
    → ending i (λ a b. listed a b s) x.tunnels a b ≡ listed a b s
unfolding listed tunnels_of
starts_ending i a b x s e = elim (Bool-cases (eq_bytes i a)) [
  | inl h ↦ rw h (
      sym (
        ap (λ k. in_session b (lookup k s.sessions)) (sym (eq_bytes-eq i a h))
        ∙ ap (in_session b) e))
  | inr h ↦ rw h refl
]

has_ended :
    (i a b : Bytes) (s s' : Server)
    → s'.sessions ≡ delete i s.sessions
    → listed a b s' ≡ ending i (λ a b. listed a b s) [] a b
unfolding listed tunnels_of lookup
has_ended i a b s s' e =
    ap (λ m. in_session b (lookup a m)) e
    ∙ ap (in_session b) (lookup-delete a i s.sessions)
    ∙ inside (eq_bytes i a) (lookup a s.sessions)
  where
    inside :
        (c : Bool) (o : Option Session)
        → in_session b (if c then none else o) ≡ (if c then none else in_session b o)
    inside true o = refl
    inside false o = refl

pub remove_session-IsTied :
    (now : ℕ) (i : Bytes) (s : Server)
    → All HasDistinct s.sessions
    → IsTied (view s)
    → IsTied (view (remove_session now i s))
unfolding remove_session
remove_session-IsTied now i s d tied =
    maybe_cases (λ (r : Server). IsTied (view r)) (lookup i s.sessions) (λ _. tied)
      (λ x e.
        Alike-IsTied (view_with (ending i (λ a b. listed a b s) []) (ended x)) (view (ended x))
          (end_tunnels-IsTied now (keep x) i (λ a b. listed a b s) x.tunnels gone
            (lookup-All HasDistinct i s.sessions x e d)
            (Alike-IsTied (view s) (view_with (ending i (λ a b. listed a b s) x.tunnels) gone) tied
              (record {
                names = λ k. refl;
                lists = λ a b. starts_ending i a b x s e;
                more_ports = λ p h. h;
              })))
          (record {
            names = λ k. refl;
            lists = λ a b.
                has_ended i a b s (ended x) (end_tunnels-sessions now (keep x) x.tunnels gone);
            more_ports = λ p h. h;
          }))
  where
    gone : Server
    gone = record s { sessions = delete i s.sessions }

    keep : Session → Bool
    keep x = not s.shutting_down && not x.go_away

    ended : Session → Server
    ended x = end_tunnels now (keep x) x.tunnels gone
