-- ===== src/Server/Ports.antt =====
-- internal/server/server.go: the ports of TCP tunnels. The counter is an int32, as its 32 bits.
pub mod Range
pub mod Listen
use wire_rift.Prelude.{
  ℕ, zero, suc, ◌+◌, ◌-◌, ◌%◌, ◌^◌, Bool, true, false, ltb, leb, ◌==◌, if◌then◌else◌, Option, none,
  some,
}

-- The fields of `Server` for ports. A port that `tcp_ports` has is allocated.
pub record Ports : Type 0 where
  pub tcp_port_start : ℕ
  pub tcp_port_end : ℕ
  pub tcp_ports : ℕ → Bool
  pub next_port : ℕ

-- `portRange`; where it is not positive there is no round of the loop.
abbrev pub port_range : Ports → ℕ
port_range p = p.tcp_port_end + 1 - p.tcp_port_start

-- The port below `start` by m, where m < range, moved up into the range.
unfoldable pub port_below : ℕ → ℕ → ℕ → ℕ
port_below start range m = if m == 0 then start else start + range - m

-- The port that a value of the counter stands for. Go's remainder has the sign of the dividend.
unfoldable pub port_at : ℕ → ℕ → ℕ → ℕ
port_at start range raw =
    if ltb raw (2 ^ 31)
    then if leb start raw
      then start + (raw - start) % range
      else port_below start range ((start - raw) % range)
    else port_below start range ((2 ^ 32 - raw + start) % range)

unfoldable pub add_port : ℕ → (ℕ → Bool) → ℕ → Bool
add_port port ports k = if k == port then true else ports k

unfoldable pub drop_port : ℕ → (ℕ → Bool) → ℕ → Bool
drop_port port ports k = if k == port then false else ports k

-- The loop of `allocatePort` with the rounds that are left.
unfoldable pub scan_ports : ℕ → Ports → Option ℕ × Ports
scan_ports zero p = (none, p)
scan_ports (suc rounds) p =
    let raw = (p.next_port + 1) % 2 ^ 32 in
    let port = port_at p.tcp_port_start (port_range p) raw in
    let further = scan_ports rounds (record p { next_port = raw }) in
    if p.tcp_ports port
    then further
    else (some port, record p { next_port = raw; tcp_ports = add_port port p.tcp_ports })

-- `allocatePort`; `none` is ErrPortUnavailable.
unfoldable pub allocate_port : Ports → Option ℕ × Ports
allocate_port p = scan_ports (port_range p) p

-- `releasePort`
unfoldable pub release_port : ℕ → Ports → Ports
release_port port p = record p { tcp_ports = drop_port port p.tcp_ports }

abbrev pub max_tunnel_bind_attempts : ℕ
max_tunnel_bind_attempts = 16

-- What `listenTunnelPort` returns: a port that it listens on, the last error of net.Listen, or
-- ErrPortUnavailable.
pub data Listened : Type 0 where
  listening : ℕ → Listened
  bind_failed port_unavailable : Listened

-- An attempt of `listenTunnelPort` with what `allocatePort` gave; `can_bind` says of which ports
-- net.Listen succeeds, and `again` is the next attempt.
unfoldable pub try_port :
    (ℕ → Bool) → Bool → Option ℕ × Ports → (Ports → Listened × Ports) → Listened × Ports
try_port can_bind last (none, p) again = (if last then bind_failed else port_unavailable, p)
try_port can_bind last (some port, p) again =
    let next = again (release_port port p) in if can_bind port then (listening port, p) else next

-- The loop of `listenTunnelPort` with the attempts that are left; `last` says whether one has
-- failed before.
unfoldable pub try_ports : (ℕ → Bool) → ℕ → Bool → Ports → Listened × Ports
try_ports can_bind zero last p = (bind_failed, p)
try_ports can_bind (suc attempts) last p =
    try_port can_bind last (allocate_port p) (try_ports can_bind attempts true)

-- `listenTunnelPort`
unfoldable pub listen_tunnel_port : (ℕ → Bool) → Ports → Listened × Ports
listen_tunnel_port can_bind p = try_ports can_bind max_tunnel_bind_attempts false p
