-- ===== src/Server/Tunnels/Linked/Lists.antt =====
-- What the sessions list after a change.
use wire_rift.Prelude.{
  ◌≡◌, refl, sym, ap, ap₂, ◌∙◌, Bool, true, false, ◌&&◌, if◌then◌else◌, maybe, List, Option, none,
  some, Bytes, eq_bytes, eq_bytes-eq, lookup, lookup-delete, lookup-store, lookup-store_ne,
  lookup-modify, delete, store, modify, ◌⊎◌, inl, inr, Option-cases,
}
use wire_rift.Server.Tunnels.{
  Tunnel, Session, Server, same_tunnel, tunnels_of, listed, with_tunnels, unlist, enlist,
}
use wire_rift.Server.Tunnels.Linked.{View, IsTied, without}

-- A choice between equals.
pub no_choice : (b : Bool) (o : Option Tunnel) → (if b then o else o) ≡ o
no_choice true o = refl
no_choice false o = refl

-- What a session, if it is there, lists under an ID.
abbrev pub in_session : Bytes → Option Session → Option Tunnel
in_session b o = maybe (maybe o none (λ x. some x.tunnels)) none (lookup b)

listed_in : (a b : Bytes) (s : Server) → listed a b s ≡ in_session b (lookup a s.sessions)
unfolding listed tunnels_of
listed_in a b s = refl

modified :
    (i a b : Bytes) (f : List (Bytes × Tunnel) → List (Bytes × Tunnel))
    (sessions : List (Bytes × Session))
    → in_session b (lookup a (modify i (with_tunnels f) sessions)) ≡ (
        if eq_bytes i a
        then maybe (lookup a sessions) none (λ x. lookup b (f x.tunnels))
        else in_session b (lookup a sessions))
modified i a b f sessions =
    ap (in_session b) (lookup-modify a i (with_tunnels f) sessions)
    ∙ inside (eq_bytes i a) (lookup a sessions)
  where
    inside :
        (c : Bool) (o : Option Session)
        → in_session b (if c then maybe o none (λ x. some (with_tunnels f x)) else o)
          ≡ (if c then maybe o none (λ x. lookup b (f x.tunnels)) else in_session b o)
    inside true none = refl
    inside true (some x) = refl
    inside false o = refl

pub listed-unlist :
    (i j a b : Bytes) (s : Server)
    → listed a b (unlist i j s) ≡ (if eq_bytes i a && eq_bytes j b then none else listed a b s)
unfolding unlist listed tunnels_of
listed-unlist i j a b s =
    modified i a b (delete j) s.sessions ∙ inside (eq_bytes i a) (lookup a s.sessions)
  where
    inside :
        (c : Bool) (o : Option Session)
        → (if c then maybe o none (λ x. lookup b (delete j x.tunnels)) else in_session b o)
          ≡ (if c && eq_bytes j b then none else in_session b o)
    inside true none = sym (no_choice (eq_bytes j b) none)
    inside true (some x) = lookup-delete b j x.tunnels
    inside false o = refl

pub listed-enlist :
    (t : Tunnel) (a b : Bytes) (s : Server) (m : List (Bytes × Tunnel))
    → tunnels_of t.session_id s ≡ some m
    → listed a b (enlist t s)
      ≡ (if eq_bytes t.session_id a && eq_bytes t.id b then some t else listed a b s)
unfolding enlist listed tunnels_of
listed-enlist t a b s m e =
    modified t.session_id a b (store t.id t) s.sessions
    ∙ inside (eq_bytes t.session_id a) (lookup a s.sessions) there
  where
    there :
        eq_bytes t.session_id a ≡ true
        → maybe (lookup a s.sessions) none (λ x. some x.tunnels) ≡ some m
    there c =
        ap (λ k. maybe (lookup k s.sessions) none (λ x. some x.tunnels))
          (sym (eq_bytes-eq t.session_id a c))
        ∙ e

    inside :
        (c : Bool) (o : Option Session)
        → (c ≡ true → maybe o none (λ x. some x.tunnels) ≡ some m)
        → (if c then maybe o none (λ x. lookup b (store t.id t x.tunnels)) else in_session b o)
          ≡ (if c && eq_bytes t.id b then some t else in_session b o)
    inside true none h = absurd (clash (h refl))
      where
        clash : none ≡ some m → ⊥
        clash p = cc
    inside true (some x) h = lookup-store b t.id t x.tunnels
    inside false o h = refl

same_ids :
    (i j a b : Bytes) (t u : Tunnel)
    → t.session_id ≡ i
    → t.id ≡ j
    → u.session_id ≡ a
    → u.id ≡ b
    → (eq_bytes i a && eq_bytes j b) ≡ same_tunnel t u
unfolding same_tunnel
same_ids i j a b t u ti tj ua ub =
    ap₂ (λ x y. x && y) (sym (ap₂ eq_bytes ti ua)) (sym (ap₂ eq_bytes tj ub))

-- In a tied view, taking a tunnel's IDs out takes the tunnel out.
pub unlist-without :
    (v : View) (i j a b : Bytes) (t : Tunnel)
    → IsTied v
    → v.lists i j ≡ some t
    → (if eq_bytes i a && eq_bytes j b then none else v.lists a b) ≡ without t (v.lists a b)
unlist-without v i j a b t tied e = by_case (Option-cases (v.lists a b))
  where
    by_case :
        (v.lists a b ≡ none) ⊎ ((u : Tunnel) × (v.lists a b ≡ some u))
        → (if eq_bytes i a && eq_bytes j b then none else v.lists a b) ≡ without t (v.lists a b)
    by_case (inl f) = rw f (no_choice (eq_bytes i a && eq_bytes j b) none)
    by_case (inr (u, f)) = rw f (ap (λ c. if c then none else some u) (same u f))
      where
        same :
            (u : Tunnel) → v.lists a b ≡ some u → (eq_bytes i a && eq_bytes j b) ≡ same_tunnel t u
        same u f =
            same_ids i j a b t u (tied.owned i j t e).0 (tied.owned i j t e).1
              (tied.owned a b u f).0 (tied.owned a b u f).1

-- Storing a tunnel under other IDs changes nothing of what is listed here.
pub listed-other :
    (t : Tunnel) (a b : Bytes) (s : Server)
    → (eq_bytes t.session_id a && eq_bytes t.id b) ≡ false
    → listed a b (enlist t s) ≡ listed a b s
unfolding enlist listed tunnels_of
listed-other t a b s other =
    modified t.session_id a b (store t.id t) s.sessions
    ∙ inside (eq_bytes t.session_id a) (lookup a s.sessions) other
  where
    inside :
        (c : Bool) (o : Option Session)
        → (c && eq_bytes t.id b) ≡ false
        → (if c then maybe o none (λ x. lookup b (store t.id t x.tunnels)) else in_session b o)
          ≡ in_session b o
    inside true none h = refl
    inside true (some x) h = lookup-store_ne b t.id t x.tunnels h
    inside false o h = refl
