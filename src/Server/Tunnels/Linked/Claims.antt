-- ===== src/Server/Tunnels/Linked/Claims.antt =====
-- While a tunnel is being made, some of its names lead to it already and no session lists it.
use wire_rift.Prelude.{
  ℕ, ◌≡◌, refl, sym, ap, ◌∙◌, Bool, true, false, not, ◌&&◌, ◌||◌, ◌==◌, if◌then◌else◌, length, none,
  some, Bytes, eq_bytes, eq_bytes-eq, lookup, lookup-delete, delete, Option-cases,
}
use wire_rift.Server.Names.{custom_key}
use wire_rift.Server.Tunnels.{
  Tunnel, TunnelType, http, tcp, other_type, Server, tunnels_of, listed, unlist,
}
use wire_rift.Server.Tunnels.Create.{is_http}
use wire_rift.Server.Tunnels.Linked.{View, view, IsTied, Removed, has_name}
use wire_rift.Server.Tunnels.Linked.Adds.{Alike-IsTied}
use wire_rift.Server.Tunnels.Linked.Lists.{listed-unlist, unlist-without}
use wire_rift.Server.Tunnels.Linked.Ends.{names_as, names_gone}

-- The names in `claimed` were free in a tied state, and now lead to the tunnel; no session lists
-- its ID.
pub record IsClaim (t : Tunnel) (claimed : Bytes → Bool) (w : View) : Type 0 where
  pub base : View
  pub tied : IsTied base
  pub names : (k : Bytes) → w.names k ≡ (if claimed k then some t else base.names k)
  pub lists : (a b : Bytes) → w.lists a b ≡ base.lists a b
  pub more_ports : (p : ℕ) → base.taken p ≡ true → w.taken p ≡ true
  pub free : (k : Bytes) → claimed k ≡ true → base.names k ≡ none
  pub fresh : base.lists t.session_id t.id ≡ none

-- A claim that is given up leaves the tied state.
pub given_up :
    (t : Tunnel) (claimed : Bytes → Bool) (v w : View)
    → (c : IsClaim t claimed v)
    → ((k : Bytes) → w.names k ≡ (if claimed k then none else v.names k))
    → ((a b : Bytes) → w.lists a b ≡ v.lists a b)
    → ((p : ℕ) → c.base.taken p ≡ true → w.taken p ≡ true)
    → IsTied w
given_up t claimed v w c names lists ports = Alike-IsTied c.base w c.tied (record {
  names = λ k. names k ∙ back k (claimed k) (c.names k) (c.free k);
  lists = λ a b. lists a b ∙ c.lists a b;
  more_ports = ports;
})
  where
    back :
        (k : Bytes) (b : Bool)
        → v.names k ≡ (if b then some t else c.base.names k)
        → (b ≡ true → c.base.names k ≡ none)
        → (if b then none else v.names k) ≡ c.base.names k
    back k true e f = sym (f refl)
    back k false e f = e

-- What `takeOver` leaves of the old tunnel's.
abbrev pub handed_over : Tunnel → Bytes → Server → Server
handed_over old name s = unlist old.session_id old.id (record s { tunnels = delete name s.tunnels })

pub or_nothing : (a b : Bool) → (a || (not true && b)) ≡ a
or_nothing true b = refl
or_nothing false b = refl

only_as :
    (old : Tunnel) (y : TunnelType) (name k : Bytes)
    → is_http y ≡ true
    → (length old.custom_domain == 0) ≡ true
    → names_as old y name ≡ true
    → names_as old y k ≡ eq_bytes name k
unfolding is_http
only_as old http name k h l n =
    rw l (or_nothing (eq_bytes old.subdomain k) (eq_bytes (custom_key old.custom_domain) k))
    ∙ ap (λ j. eq_bytes j k)
        (eq_bytes-eq old.subdomain name (
          sym (
            or_nothing (eq_bytes old.subdomain name) (eq_bytes (custom_key old.custom_domain) name))
          ∙ rw l at n))
only_as old tcp name k h l n = absurd (cc h)
only_as old (other_type m) name k h l n = absurd (cc h)

only_name :
    (old : Tunnel) (name k : Bytes)
    → is_http old.tunnel_type ≡ true
    → (length old.custom_domain == 0) ≡ true
    → has_name old name ≡ true
    → has_name old k ≡ eq_bytes name k
unfolding has_name
only_name old name k h l n = only_as old old.tunnel_type name k h l n

pub handed_over-Removed :
    (s : Server) (old : Tunnel) (name : Bytes)
    → IsTied (view s)
    → lookup name s.tunnels ≡ some old
    → is_http old.tunnel_type ≡ true
    → (length old.custom_domain == 0) ≡ true
    → Removed old (view s) (view (handed_over old name s))
unfolding unlist listed tunnels_of
handed_over-Removed s old name tied e h l = record {
  names = λ k.
      lookup-delete k name s.tunnels
      ∙ ap (λ b. if b then none else lookup k s.tunnels)
          (sym (only_name old name k h l (tied.leads name old e).1))
      ∙ names_gone (view s) old.session_id old.id old tied (tied.leads name old e).0 k
          (Option-cases (lookup k s.tunnels));
  lists = λ a b.
      listed-unlist old.session_id old.id a b (record s { tunnels = delete name s.tunnels })
      ∙ unlist-without (view s) old.session_id old.id a b old tied (tied.leads name old e).0;
  other_ports = λ p ne t. t;
}
