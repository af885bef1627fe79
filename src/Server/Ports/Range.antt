-- ===== src/Server/Ports/Range.antt =====
-- Which ports `allocatePort` gives, and that it finds a free one.
use native.Mathlib.Nat.{mod-lt}
use wire_rift.Prelude.{
  ℕ, zero, suc, ◌+◌, ◌-◌, ◌%◌, ◌^◌, ◌<◌, ◌≤◌, ◌≡◌, refl, false, ltb, leb, Option, none, some, arith,
  if_split,
}
use wire_rift.Server.Ports.{
  Ports, port_range, port_below, port_at, add_port, scan_ports, allocate_port,
}

abbrev pub InRange : ℕ → ℕ → ℕ → Type 0
InRange start range port = (start ≤ port) × (port < start + range)

port_below-InRange :
    (start range m : ℕ) → m < range → InRange start range (port_below start range m)
unfolding port_below
port_below-InRange start range m h = ground arith

pub port_at-InRange :
    (start range raw : ℕ) → 0 < range → InRange start range (port_at start range raw)
unfolding port_at
port_at-InRange start range raw h =
    if_split (InRange start range) (ltb raw (2 ^ 31))
      (λ _.
        if_split (InRange start range) (leb start raw) (λ _. omega (arith, mod-lt (raw - start) h))
          (λ _. port_below-InRange start range _ (mod-lt (start - raw) h)))
      (λ _. port_below-InRange start range _ (mod-lt (2 ^ 32 - raw + start) h))

-- What an allocation did: the port is in the range, was free and is now taken, and nothing else
-- of the set of ports changed; without a port nothing changed.
abbrev pub Allocated : Ports → Option ℕ × Ports → Type 0
Allocated p (none, q) = q.tcp_ports ≡ p.tcp_ports
Allocated p (some port, q) =
    InRange p.tcp_port_start (port_range p) port
    × (p.tcp_ports port ≡ false)
    × (q.tcp_ports ≡ add_port port p.tcp_ports)

scan_ports-Allocated :
    (rounds : ℕ) (p : Ports) → rounds ≤ port_range p → Allocated p (scan_ports rounds p)
unfolding scan_ports
scan_ports-Allocated zero p h = refl
scan_ports-Allocated (suc rounds) p h =
    if_split (Allocated p) (p.tcp_ports port)
      (λ _. scan_ports-Allocated rounds (record p { next_port = raw }) (omega arith))
      (λ free. (port_at-InRange p.tcp_port_start (port_range p) raw (omega arith), free, refl))
  where
    raw : ℕ
    raw = (p.next_port + 1) % 2 ^ 32

    port : ℕ
    port = port_at p.tcp_port_start (port_range p) raw

pub allocate_port-Allocated : (p : Ports) → Allocated p (allocate_port p)
unfolding allocate_port
allocate_port-Allocated p = scan_ports-Allocated (port_range p) p (omega arith)
