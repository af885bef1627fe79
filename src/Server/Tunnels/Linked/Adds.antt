-- ===== src/Server/Tunnels/Linked/Adds.antt =====
-- The tie survives when a tunnel is added with all its names.
use mathlib.Core.Path.{subst}
use wire_rift.Prelude.{
  ℕ, ◌≡◌, refl, sym, ap, ap₂, ◌∙◌, Bool, true, false, ◌&&◌, if◌then◌else◌, maybe, Option, none,
  some, Bytes, eq_bytes, eq_bytes_refl, eq_bytes-eq, ◌⊎◌, inl, inr, &&_both,
}
use wire_rift.Server.Tunnels.{Tunnel, TunnelType, http, tcp, other_type}
use wire_rift.Server.Tunnels.Linked.{View, IsTied, IsProper, has_name}

-- Nothing changes but a tunnel that comes with all its names; ports may be taken besides.
pub record Added (t : Tunnel) (v w : View) : Type 0 where
  pub names : (k : Bytes) → w.names k ≡ (if has_name t k then some t else v.names k)
  pub lists :
      (i j : Bytes)
      → w.lists i j ≡ (if eq_bytes t.session_id i && eq_bytes t.id j then some t else v.lists i j)
  pub more_ports : (p : ℕ) → v.taken p ≡ true → w.taken p ≡ true

stays_proper :
    (v w : View) (u : Tunnel) (y : TunnelType)
    → ((p : ℕ) → v.taken p ≡ true → w.taken p ≡ true)
    → IsProper v.taken u y
    → IsProper w.taken u y
stays_proper v w u http more h = h
stays_proper v w u tcp more h = (h.0, more u.port h.1)
stays_proper v w u (other_type n) more h = h

-- A choice by a test: which side it was.
chosen :
    (b : Bool) (t u : Tunnel) (o : Option Tunnel)
    → (if b then some t else o) ≡ some u
    → ((b ≡ true) × (t ≡ u)) ⊎ ((b ≡ false) × (o ≡ some u))
chosen true t u o e = inl (refl, ap (λ (o : Option Tunnel). maybe o t (λ x. x)) e)
chosen false t u o e = inr (refl, e)

-- Where a test picks what was not there, what is there is not picked.
not_chosen :
    (b : Bool) (o : Option Tunnel) (u : Tunnel) → (b ≡ true → o ≡ none) → o ≡ some u → b ≡ false
not_chosen true o u free e = absurd (clash (sym (free refl) ∙ e))
  where
    clash : none ≡ some u → ⊥
    clash p = cc
not_chosen false o u free e = refl

module _ (v w : View) (t : Tunnel) (tied : IsTied v) (add : Added t v w)
    (free : (k : Bytes) → has_name t k ≡ true → v.names k ≡ none)
    (fresh : v.lists t.session_id t.id ≡ none) where
  own : (i j : Bytes) → (eq_bytes t.session_id i && eq_bytes t.id j) ≡ true → v.lists i j ≡ none
  own i j e =
      ap₂ v.lists (sym (eq_bytes-eq t.session_id i (&&_both _ _ e).0))
        (sym (eq_bytes-eq t.id j (&&_both _ _ e).1))
      ∙ fresh

  its_place : w.lists t.session_id t.id ≡ some t
  its_place = add.lists t.session_id t.id ∙ rw (eq_bytes_refl t.session_id, eq_bytes_refl t.id) refl

  leads_on :
      (k : Bytes) (u : Tunnel)
      → w.names k ≡ some u
      → (w.lists u.session_id u.id ≡ some u) × (has_name u k ≡ true)
  leads_on k u h = elim (chosen (has_name t k) t u (v.names k) (sym (add.names k) ∙ h)) [
    | inl (n, p) ↦
        subst (λ x. (w.lists x.session_id x.id ≡ some x) × (has_name x k ≡ true)) p (its_place, n)
    | inr (n, old) ↦
        let (l, m) = tied.leads k u old in
        (
          add.lists u.session_id u.id
              ∙ rw (not_chosen _ (v.lists u.session_id u.id) u (own u.session_id u.id) l) l,
          m,
        )
  ]

  owned_on :
      (i j : Bytes) (u : Tunnel)
      → IsProper w.taken t t.tunnel_type
      → w.lists i j ≡ some u
      → (u.session_id ≡ i)
        × (u.id ≡ j)
        × ((k : Bytes) → has_name u k ≡ true → w.names k ≡ some u)
        × IsProper w.taken u u.tunnel_type
  owned_on i j u proper h = elim (chosen _ t u (v.lists i j) (sym (add.lists i j) ∙ h)) [
    | inl (n, p) ↦
        subst
          (λ x.
            (x.session_id ≡ i)
            × (x.id ≡ j)
            × ((k : Bytes) → has_name x k ≡ true → w.names k ≡ some x)
            × IsProper w.taken x x.tunnel_type)
          p
          (
            eq_bytes-eq t.session_id i (&&_both _ _ n).0,
            eq_bytes-eq t.id j (&&_both _ _ n).1,
            λ k m. add.names k ∙ rw m refl,
            proper,
          )
    | inr (n, old) ↦
        let (x, y, z, d) = tied.owned i j u old in
        (
          x,
          y,
          λ k m.
              add.names k ∙ rw (not_chosen (has_name t k) (v.names k) u (free k) (z k m)) (z k m),
          stays_proper v w u u.tunnel_type add.more_ports d,
        )
  ]

  -- The tie survives when a tunnel comes with names that were free and an ID that was not listed.
  pub Added-IsTied : IsProper w.taken t t.tunnel_type → IsTied w
  Added-IsTied proper = record { leads = leads_on; owned = λ i j u h. owned_on i j u proper h }

-- Two servers that agree in all that matters.
pub record Alike (v w : View) : Type 0 where
  pub names : (k : Bytes) → w.names k ≡ v.names k
  pub lists : (i j : Bytes) → w.lists i j ≡ v.lists i j
  pub more_ports : (p : ℕ) → v.taken p ≡ true → w.taken p ≡ true

pub Alike-IsTied : (v w : View) → IsTied v → Alike v w → IsTied w
Alike-IsTied v w tied same = record {
  leads = λ k u h.
      let (l, n) = tied.leads k u (sym (same.names k) ∙ h) in (same.lists u.session_id u.id ∙ l, n);
  owned = λ i j u h.
      let (x, y, z, d) = tied.owned i j u (sym (same.lists i j) ∙ h) in
      (x, y, λ k m. same.names k ∙ z k m, stays_proper v w u u.tunnel_type same.more_ports d);
}
