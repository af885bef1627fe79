-- ===== src/Server/Tunnels/Linked/Http.antt =====
-- Making an HTTP tunnel keeps the tie, on every branch.
use wire_rift.Prelude.{
  ◌≡◌, refl, sym, ap, ◌∙◌, Bool, true, false, not, ◌&&◌, ◌||◌, ◌==◌, if◌then◌else◌, if_split,
  maybe_cases, List, length, Option, none, some, Bytes, eq_bytes, eq_bytes-eq, lookup,
  lookup-delete, lookup-store, has_key, delete, store, ◌⊎◌, inl, inr, Bool-cases, Option-cases,
  &&_both, ||_either,
}
use wire_rift.Server.Names.{custom_key}
use wire_rift.Server.Tunnels.{Tunnel, Session, Server, tunnels_of, listed, unlist}
use wire_rift.Server.Tunnels.Close.{mark_closed}
use wire_rift.Server.Tunnels.Create.{
  is_http, can_take_over, replace_tunnel, claim_subdomain, claim_custom_domain,
}
use wire_rift.Server.Tunnels.Linked.{View, view, IsTied, Removed, Removed-IsTied, without}
use wire_rift.Server.Tunnels.Linked.Claims.{
  IsClaim, given_up, handed_over, handed_over-Removed, or_nothing,
}

-- What a claim came to.
abbrev pub AfterClaim : Tunnel → (Bytes → Bool) → Bool × Server → Type 0
AfterClaim t claimed (true, s) = IsClaim t claimed (view s)
AfterClaim t claimed (false, s) = IsTied (view s)

twice :
    (b : Bool) (o p q : Option Tunnel)
    → (if b then o else p) ≡ (if b then o else if b then q else p)
twice true o p q = refl
twice false o p q = refl

without-none : (t : Tunnel) (o : Option Tunnel) → o ≡ none → without t o ≡ none
without-none t o e = ap (without t) e

-- A free subdomain is claimed.
new_claim :
    (s : Server) (t : Tunnel)
    → IsTied (view s)
    → listed t.session_id t.id s ≡ none
    → lookup t.subdomain s.tunnels ≡ none
    → IsClaim t (eq_bytes t.subdomain) (view (record s { tunnels = store t.subdomain t s.tunnels }))
unfolding listed tunnels_of
new_claim s t tied fresh free = record {
  base = view s;
  tied = tied;
  names = λ k. lookup-store k t.subdomain t s.tunnels;
  lists = λ a b. refl;
  more_ports = λ p h. h;
  free = λ k e. ap (λ j. lookup j s.tunnels) (sym (eq_bytes-eq t.subdomain k e)) ∙ free;
  fresh = fresh;
}

-- A subdomain is taken over.
taken_over :
    (s : Server) (t old : Tunnel)
    → IsTied (view s)
    → listed t.session_id t.id s ≡ none
    → lookup t.subdomain s.tunnels ≡ some old
    → is_http old.tunnel_type ≡ true
    → (length old.custom_domain == 0) ≡ true
    → IsClaim t (eq_bytes t.subdomain) (view (replace_tunnel old t s))
unfolding replace_tunnel mark_closed unlist listed tunnels_of
taken_over s t old tied fresh e h l = record {
  base = view (handed_over old t.subdomain s);
  tied =
      Removed-IsTied (view s) (view (handed_over old t.subdomain s)) old old.session_id old.id tied
        (tied.leads t.subdomain old e).0 gone;
  names = λ k.
      lookup-store k t.subdomain t s.tunnels
      ∙ twice (eq_bytes t.subdomain k) (some t) (lookup k s.tunnels) none
      ∙ ap (λ o. if eq_bytes t.subdomain k then some t else o)
          (sym (lookup-delete k t.subdomain s.tunnels));
  lists = λ a b. refl;
  more_ports = λ p h. h;
  free = λ k e. lookup-delete k t.subdomain s.tunnels ∙ rw e refl;
  fresh = gone.lists t.session_id t.id ∙ without-none old (listed t.session_id t.id s) fresh;
}
  where
    gone : Removed old (view s) (view (handed_over old t.subdomain s))
    gone = handed_over-Removed s old t.subdomain tied e h l

can_take_over-http :
    (x : Session) (old : Tunnel)
    → can_take_over x old ≡ true
    → (is_http old.tunnel_type ≡ true) × ((length old.custom_domain == 0) ≡ true)
unfolding can_take_over
can_take_over-http x old e = &&_both _ _ (&&_both _ _ (&&_both _ _ e).0).0

pub claim_subdomain-AfterClaim :
    (reconnect : Bool) (x : Session) (t : Tunnel) (s : Server)
    → IsTied (view s)
    → listed t.session_id t.id s ≡ none
    → AfterClaim t (eq_bytes t.subdomain) (claim_subdomain reconnect x t s)
unfolding claim_subdomain
claim_subdomain-AfterClaim reconnect x t s tied fresh =
    maybe_cases (AfterClaim t (eq_bytes t.subdomain)) (lookup t.subdomain s.tunnels)
      (λ e. new_claim s t tied fresh e)
      (λ old e.
        if_split (AfterClaim t (eq_bytes t.subdomain)) (reconnect && can_take_over x old)
          (λ c.
            taken_over s t old tied fresh e (can_take_over-http x old (&&_both _ _ c).1).0
              (can_take_over-http x old (&&_both _ _ c).1).1)
          (λ _. tied))

-- Whether the tunnel has a name besides its subdomain.
abbrev pub both_names : Tunnel → Bytes → Bool
both_names t k =
    eq_bytes t.subdomain k
    || (not (length t.custom_domain == 0) && eq_bytes (custom_key t.custom_domain) k)

no_custom :
    (t : Tunnel) (k : Bytes)
    → (length t.custom_domain == 0) ≡ true
    → eq_bytes t.subdomain k ≡ both_names t k
no_custom t k l =
    rw l (sym (or_nothing (eq_bytes t.subdomain k) (eq_bytes (custom_key t.custom_domain) k)))

with_custom :
    (t : Tunnel) (k : Bytes)
    → (length t.custom_domain == 0) ≡ false
    → both_names t k ≡ (eq_bytes t.subdomain k || eq_bytes (custom_key t.custom_domain) k)
with_custom t k l = rw l refl

claim_more :
    (a b : Bool) (o p : Option Tunnel)
    → (if b then o else if a then o else p) ≡ (if a || b then o else p)
claim_more true true o p = refl
claim_more true false o p = refl
claim_more false true o p = refl
claim_more false false o p = refl

-- The claim of one name is the claim of all, if there is only one.
claim_all :
    (t : Tunnel) (w : View)
    → (length t.custom_domain == 0) ≡ true
    → IsClaim t (eq_bytes t.subdomain) w
    → IsClaim t (both_names t) w
claim_all t w l c = record {
  base = c.base;
  tied = c.tied;
  names = λ k. c.names k ∙ ap (λ b. if b then some t else c.base.names k) (no_custom t k l);
  lists = c.lists;
  more_ports = c.more_ports;
  free = λ k e. c.free k (no_custom t k l ∙ e);
  fresh = c.fresh;
}

key_free :
    (t : Tunnel) (k : Bytes) (w : View)
    → (c : IsClaim t (eq_bytes t.subdomain) w) → w.names k ≡ none
    → c.base.names k ≡ none
key_free t k w c e = elim (Bool-cases (eq_bytes t.subdomain k)) [
  | inl h ↦ c.free k h
  | inr h ↦ sym (c.names k ∙ rw h refl) ∙ e
]

claim_both :
    (t : Tunnel) (s : Server)
    → (length t.custom_domain == 0) ≡ false
    → lookup (custom_key t.custom_domain) s.tunnels ≡ none
    → IsClaim t (eq_bytes t.subdomain) (view s)
    → IsClaim t
        (both_names t)
        (view (record s { tunnels = store (custom_key t.custom_domain) t s.tunnels }))
unfolding listed tunnels_of
claim_both t s l e c = record {
  base = c.base;
  tied = c.tied;
  names = λ k.
      lookup-store k (custom_key t.custom_domain) t s.tunnels
      ∙ ap (λ o. if eq_bytes (custom_key t.custom_domain) k then some t else o) (c.names k)
      ∙ claim_more (eq_bytes t.subdomain k) (eq_bytes (custom_key t.custom_domain) k) (some t)
          (c.base.names k)
      ∙ ap (λ b. if b then some t else c.base.names k) (sym (with_custom t k l));
  lists = c.lists;
  more_ports = c.more_ports;
  free = λ k h. either k (||_either _ _ (sym (with_custom t k l) ∙ h));
  fresh = c.fresh;
}
  where
    either :
        (k : Bytes)
        → (eq_bytes t.subdomain k ≡ true) ⊎ (eq_bytes (custom_key t.custom_domain) k ≡ true)
        → c.base.names k ≡ none
    either k (inl h) = c.free k h
    either k (inr h) =
        ap c.base.names (sym (eq_bytes-eq (custom_key t.custom_domain) k h))
        ∙ key_free t (custom_key t.custom_domain) (view s) c e

not_has_key : (k : Bytes) (m : List (Bytes × Tunnel)) → has_key k m ≡ false → lookup k m ≡ none
unfolding has_key
not_has_key k m e = elim (Option-cases (lookup k m)) [
  | inl n ↦ n
  | inr (u, h) ↦ absurd (clash (rw h at e))
]
  where
    clash : true ≡ false → ⊥
    clash p = cc

pub claim_custom_domain-AfterClaim :
    (t : Tunnel) (s : Server)
    → IsClaim t (eq_bytes t.subdomain) (view s)
    → AfterClaim t (both_names t) (claim_custom_domain t s)
unfolding claim_custom_domain listed tunnels_of
claim_custom_domain-AfterClaim t s c =
    if_split (AfterClaim t (both_names t)) (length t.custom_domain == 0)
      (λ l. claim_all t (view s) l c)
      (λ l.
        if_split (AfterClaim t (both_names t)) (has_key (custom_key t.custom_domain) s.tunnels)
          (λ _.
            given_up t (eq_bytes t.subdomain) (view s)
              (view (record s { tunnels = delete t.subdomain s.tunnels })) c
              (λ k. lookup-delete k t.subdomain s.tunnels) (λ a b. refl) c.more_ports)
          (λ h. claim_both t s l (not_has_key _ s.tunnels h) c))
