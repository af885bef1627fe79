-- ===== src/Server/Ports/Listen.antt =====
-- `listenTunnelPort` keeps no port but the one that it listens on.
use wire_rift.Prelude.{
  ℕ, zero, suc, ◌+◌, ◌%◌, ◌^◌, ◌≡◌, refl, sym, ap, ◌∙◌, Bool, true, false, ◌==◌, if◌then◌else◌,
  Option, none, some, arith, if_split, if_cases, Bool-cases, inl, inr, ==_iff,
}
use wire_rift.Server.Ports.{
  Ports, port_range, port_at, add_port, drop_port, scan_ports, allocate_port, release_port,
  Listened, listening, bind_failed, port_unavailable, try_port, try_ports, listen_tunnel_port,
}
use wire_rift.Server.Ports.Range.{InRange, Allocated, allocate_port-Allocated}

-- The same ports in the same range; the counter may differ.
abbrev pub SamePorts : Ports → Ports → Type 0
SamePorts p q =
    (q.tcp_port_start ≡ p.tcp_port_start)
    × (q.tcp_port_end ≡ p.tcp_port_end)
    × ((k : ℕ) → q.tcp_ports k ≡ p.tcp_ports k)

-- How `listenTunnelPort` ended: it listens on a port of the range that was free and could be
-- bound, and only that port is newly allocated; or it failed, and the ports are as before.
abbrev pub Bound : (ℕ → Bool) → Ports → Listened × Ports → Type 0
Bound can_bind p (listening port, q) =
    InRange p.tcp_port_start (port_range p) port
    × (can_bind port ≡ true)
    × (p.tcp_ports port ≡ false)
    × ((k : ℕ) → q.tcp_ports k ≡ add_port port p.tcp_ports k)
Bound can_bind p (bind_failed, q) = (k : ℕ) → q.tcp_ports k ≡ p.tcp_ports k
Bound can_bind p (port_unavailable, q) = (k : ℕ) → q.tcp_ports k ≡ p.tcp_ports k

Bound-SamePorts :
    (can_bind : ℕ → Bool) (p q : Ports) (r : Listened × Ports)
    → SamePorts p q
    → Bound can_bind q r
    → Bound can_bind p r
unfolding add_port
Bound-SamePorts can_bind p q (listening port, s) same b = (
  (omega (arith, same.0, same.1, b.0.0), omega (arith, same.0, same.1, b.0.1)),
  b.1,
  sym (same.2 port) ∙ b.2,
  λ k. b.3 k ∙ ap (λ t. if k == port then true else t) (same.2 k),
)
Bound-SamePorts can_bind p q (bind_failed, s) same b = λ k. b k ∙ same.2 k
Bound-SamePorts can_bind p q (port_unavailable, s) same b = λ k. b k ∙ same.2 k

abbrev SameRange : Ports → Option ℕ × Ports → Type 0
SameRange p (_, q) = (q.tcp_port_start ≡ p.tcp_port_start) × (q.tcp_port_end ≡ p.tcp_port_end)

scan_ports-SameRange : (rounds : ℕ) (p : Ports) → SameRange p (scan_ports rounds p)
unfolding scan_ports
scan_ports-SameRange zero p = (refl, refl)
scan_ports-SameRange (suc rounds) p =
    if_cases (SameRange p) (p.tcp_ports (port_at p.tcp_port_start (port_range p) raw))
      (scan_ports-SameRange rounds (record p { next_port = raw })) (refl, refl)
  where
    raw : ℕ
    raw = (p.next_port + 1) % 2 ^ 32

allocate_port-SameRange : (p : Ports) → SameRange p (allocate_port p)
unfolding allocate_port
allocate_port-SameRange p = scan_ports-SameRange (port_range p) p

-- A free port that is taken and released is free again, and the others are as before.
drop_port-add_port :
    (port : ℕ) (ports : ℕ → Bool) (k : ℕ)
    → ports port ≡ false
    → drop_port port (add_port port ports) k ≡ ports k
unfolding drop_port add_port
drop_port-add_port port ports k free = elim (Bool-cases (k == port)) [
  | inl e ↦ ground (arith, ap ports ((==_iff k port).0 e))
  | inr n ↦ rw n
]

-- The next attempt keeps its promise from any state, so this one does.
try_port-Bound :
    (can_bind : ℕ → Bool) (last : Bool) (p : Ports) (a : Option ℕ × Ports)
    (again : Ports → Listened × Ports)
    → Allocated p a
    → SameRange p a
    → ((q : Ports) → Bound can_bind q (again q))
    → Bound can_bind p (try_port can_bind last a again)
unfolding try_port release_port
try_port-Bound can_bind true p (none, q) again al same bound = λ k. ap (λ f. f k) al
try_port-Bound can_bind false p (none, q) again al same bound = λ k. ap (λ f. f k) al
try_port-Bound can_bind last p (some port, q) again al same bound =
    if_split (Bound can_bind p) (can_bind port) (λ b. (al.0, b, al.1, λ k. ap (λ f. f k) al.2))
      (λ _. Bound-SamePorts can_bind p freed (again freed) (same.0, same.1, restored) (bound freed))
  where
    freed : Ports
    freed = record q { tcp_ports = drop_port port q.tcp_ports }

    restored : (k : ℕ) → drop_port port q.tcp_ports k ≡ p.tcp_ports k
    restored k = ap (λ f. drop_port port f k) al.2 ∙ drop_port-add_port port p.tcp_ports k al.1

try_ports-Bound :
    (can_bind : ℕ → Bool) (attempts : ℕ) (last : Bool) (p : Ports)
    → Bound can_bind p (try_ports can_bind attempts last p)
unfolding try_ports
try_ports-Bound can_bind zero last p = λ k. refl
try_ports-Bound can_bind (suc attempts) last p =
    try_port-Bound can_bind last p (allocate_port p) (try_ports can_bind attempts true)
      (allocate_port-Allocated p) (allocate_port-SameRange p)
      (try_ports-Bound can_bind attempts true)

-- When it succeeds, `listenTunnelPort` listens on a port of the range that was free and that can
-- be bound, and exactly that port is newly allocated; when it fails, for want of a free port or
-- because its attempts could not be bound, the same ports are allocated as before.
pub listen_tunnel_port-Bound :
    (can_bind : ℕ → Bool) (p : Ports) → Bound can_bind p (listen_tunnel_port can_bind p)
unfolding listen_tunnel_port
listen_tunnel_port-Bound can_bind p = try_ports-Bound can_bind _ false p
