-- ===== src/Server/Pending.antt =====
-- internal/server/pending.go: the slots of control connections that have not authenticated yet.
pub mod Limits
use wire_rift.Prelude.{
  ℕ, ◌+◌, ◌-◌, Bool, true, false, leb, ◌||◌, if◌then◌else◌, maybe, List, [], Option, none, some,
  Bytes, eq_bytes,
}

abbrev pub max_pending_control_conns : ℕ
max_pending_control_conns = 1024

abbrev pub max_pending_control_conns_per_ip : ℕ
max_pending_control_conns_per_ip = 32

-- `pendingConns`; a missing key of `perIP` counts 0.
pub record PendingConns : Type 0 where
  pub total : ℕ
  pub per_ip : Bytes → ℕ

-- The release function that `acquire` returns: the address it is for, and whether it ran.
pub record Release : Type 0 where
  pub ip : Bytes
  pub once : Bool

abbrev pub set_count : (Bytes → ℕ) → Bytes → ℕ → Bytes → ℕ
set_count f ip n k = if eq_bytes k ip then n else f k

-- The address that is counted; `split_host_port` is net.SplitHostPort's host, if it has one.
unfoldable pub counted_ip : (Bytes → Option Bytes) → Option Bytes → Bytes
counted_ip split_host_port addr = maybe addr [] (λ a. maybe (split_host_port a) a (λ host. host))

unfoldable pub is_full : PendingConns → Bytes → Bool
is_full p ip =
    leb max_pending_control_conns p.total || leb max_pending_control_conns_per_ip (p.per_ip ip)

-- `acquire`, once the address is known: the release function, if there is a slot.
unfoldable pub acquire_ip : PendingConns → Bytes → Option Release × PendingConns
acquire_ip p ip = if is_full p ip then (none, p) else (
  some (record { ip = ip; once = false }),
  record { total = p.total + 1; per_ip = set_count p.per_ip ip (p.per_ip ip + 1) },
)

-- `acquire`
unfoldable pub acquire :
    (Bytes → Option Bytes) → PendingConns → Option Bytes → Option Release × PendingConns
acquire split_host_port p addr = acquire_ip p (counted_ip split_host_port addr)

-- A call of the release function. A count that is not positive is deleted, so it reads as 0.
unfoldable pub release : Release → PendingConns → Release × PendingConns
release r p = if r.once then (r, p) else (
  record r { once = true },
  record { total = p.total - 1; per_ip = set_count p.per_ip r.ip (p.per_ip r.ip - 1) },
)
