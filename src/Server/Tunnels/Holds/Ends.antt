-- ===== src/Server/Tunnels/Holds/Ends.antt =====
-- What the ends of a session's tunnels put on hold.
use mathlib.Core.Path.{subst}
use wire_rift.Prelude.{
  ℕ, ◌+◌, ◌<◌, ◌≡◌, refl, sym, ap, ◌∙◌, true, false, ◌==◌, if◌then◌else◌, if_split, List, [], ◌∷◌,
  none, some, Bytes, eq_bytes, eq_bytes_refl, eq_bytes-eq, lookup, lookup-store_same,
  lookup-store_ne, Distinct, arith, inl, inr, Bool-cases,
}
use wire_rift.Server.Held.{HeldName, HeldNames, hold_subdomain}
use wire_rift.Server.Tunnels.{Tunnel, TunnelType, http, tcp, other_type, Server, Config}
use wire_rift.Server.Tunnels.Close.{
  mark_closed, release_tunnel, teardown_tunnel, is_holdable, end_tunnel, end_tunnels,
}
use wire_rift.Server.Tunnels.Linked.{some_inj}

-- What a teardown leaves alone.
abbrev SameHolds : Server → Server → Type 0
SameHolds s s' = (s'.held ≡ s.held) × (s'.config ≡ s.config)

release_tunnel-SameHolds :
    (t : Tunnel) (y : TunnelType) (s : Server) → SameHolds s (release_tunnel t y s)
unfolding release_tunnel
release_tunnel-SameHolds t http s = (refl, refl)
release_tunnel-SameHolds t tcp s = (refl, refl)
release_tunnel-SameHolds t (other_type n) s = (refl, refl)

teardown_tunnel-SameHolds : (t : Tunnel) (s : Server) → SameHolds s (teardown_tunnel t s)
unfolding teardown_tunnel mark_closed
teardown_tunnel-SameHolds t s = release_tunnel-SameHolds t t.tunnel_type (mark_closed t s)

-- The names on hold after a tunnel has ended.
after_end : ℕ → Tunnel → Server → HeldNames
after_end now t s =
    if is_holdable t t.tunnel_type
    then hold_subdomain s.config.offline_grace now t.subdomain t.account_id s.held
    else s.held

end_tunnel-held :
    (now : ℕ) (t : Tunnel) (s : Server)
    → ((end_tunnel now true t s).held ≡ after_end now t s)
      × ((end_tunnel now true t s).config ≡ s.config)
unfolding end_tunnel after_end
end_tunnel-held now t s = teardown_tunnel-SameHolds t (record s { held = after_end now t s })

abbrev pub hold : ℕ → Tunnel → Server → HeldName
hold now t s = record { account_id = t.account_id; until = now + s.config.offline_grace }

-- A name that is held stays so while tunnels with other names end.
after_end-other :
    (now : ℕ) (t : Tunnel) (s : Server) (name : Bytes) (h : HeldName)
    → lookup name s.held ≡ some h
    → (is_holdable t t.tunnel_type ≡ true → eq_bytes t.subdomain name ≡ false)
    → lookup name (after_end now t s) ≡ some h
unfolding after_end hold_subdomain
after_end-other now t s name h e other =
    if_split Held (is_holdable t t.tunnel_type)
      (λ k.
        if_split Held (s.config.offline_grace == 0) (λ _. e)
          (λ _. lookup-store_ne name t.subdomain _ s.held (other k) ∙ e))
      (λ _. e)
  where
    Held : HeldNames → Type 0
    Held held = lookup name held ≡ some h

-- A name is held when its tunnel ends.
after_end-own :
    (now : ℕ) (t : Tunnel) (s : Server)
    → is_holdable t t.tunnel_type ≡ true
    → 0 < s.config.offline_grace
    → lookup t.subdomain (after_end now t s) ≡ some (hold now t s)
unfolding after_end hold_subdomain
after_end-own now t s k pos = rw (k, positive) (lookup-store_same t.subdomain (hold now t s) s.held)
  where
    positive : (s.config.offline_grace == 0) ≡ false
    positive = ground arith

later_entry :
    (j b : Bytes) (t u : Tunnel) (m : List (Bytes × Tunnel))
    → lookup j m ≡ none
    → lookup b m ≡ some u
    → (lookup b ((j, t) ∷ m) ≡ some u) × (eq_bytes j b ≡ false)
unfolding lookup
later_entry j b t u m free e = elim (Bool-cases (eq_bytes j b)) [
  | inl same ↦ absurd (nothing (sym (ap (λ k. lookup k m) (sym (eq_bytes-eq j b same)) ∙ free) ∙ e))
  | inr other ↦ (rw other e, other)
]
  where
    nothing : none ≡ some u → ⊥
    nothing p = cc

here : (j : Bytes) (t : Tunnel) (m : List (Bytes × Tunnel)) → lookup j ((j, t) ∷ m) ≡ some t
unfolding lookup
here j t m = rw (eq_bytes_refl j) refl

end_tunnels-other :
    (now : ℕ) (m : List (Bytes × Tunnel)) (s : Server) (name : Bytes) (h : HeldName)
    → Distinct m
    → lookup name s.held ≡ some h
    → ((b : Bytes) (u : Tunnel)
        → lookup b m ≡ some u
        → is_holdable u u.tunnel_type ≡ true
        → eq_bytes u.subdomain name ≡ false)
    → lookup name (end_tunnels now true m s).held ≡ some h
unfolding end_tunnels
end_tunnels-other now [] s name h d e other = e
end_tunnels-other now ((j, t) ∷ m) s name h d e other =
    end_tunnels-other now m (end_tunnel now true t s) name h d.1
      (ap (lookup name) (end_tunnel-held now t s).0
        ∙ after_end-other now t s name h e (other j t (here j t m)))
      (λ b u f k. other b u (later_entry j b t u m d.0 f).0 k)

-- The name of a tunnel in the list is held when all of the list have ended, if no other in the list
-- has the name.
pub end_tunnels-own :
    (now : ℕ) (m : List (Bytes × Tunnel)) (s : Server) (j : Bytes) (t : Tunnel)
    → Distinct m
    → lookup j m ≡ some t
    → is_holdable t t.tunnel_type ≡ true
    → 0 < s.config.offline_grace
    → ((b : Bytes) (u : Tunnel)
        → lookup b m ≡ some u
        → is_holdable u u.tunnel_type ≡ true
        → eq_bytes j b ≡ false
        → eq_bytes u.subdomain t.subdomain ≡ false)
    → lookup t.subdomain (end_tunnels now true m s).held ≡ some (hold now t s)
unfolding end_tunnels lookup
end_tunnels-own now [] s j t d e k pos other = cc
end_tunnels-own now ((i, u) ∷ m) s j t d e k pos other = elim (Bool-cases (eq_bytes i j)) [
  | inl same ↦
      end_tunnels-other now m (end_tunnel now true u s) t.subdomain (hold now t s) d.1
        (ap (lookup t.subdomain) (end_tunnel-held now u s).0
          ∙ subst (λ v. lookup t.subdomain (after_end now v s) ≡ some (hold now t s))
              (sym (some_inj u t (rw same at e))) (after_end-own now t s k pos))
        (λ b v f h.
          let later = later_entry i b u v m d.0 f in
          other b v later.0 h (ap (λ c. eq_bytes c b) (sym (eq_bytes-eq i j same)) ∙ later.1))
  | inr apart ↦
      end_tunnels-own now m (end_tunnel now true u s) j t d.1 (rw apart at e) k
        (subst (λ (c : Config). 0 < c.offline_grace) (sym (end_tunnel-held now u s).1) pos)
        (λ b v f. other b v (later_entry i b u v m d.0 f).0)
      ∙ ap
          (λ (c : Config).
            some (record { account_id = t.account_id; until = now + c.offline_grace }))
          (end_tunnel-held now u s).1
]
