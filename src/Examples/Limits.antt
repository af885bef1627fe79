-- ===== src/Examples/Limits.antt =====
-- Rates and ports at concrete inputs.
use wire_rift.Prelude.{
  ℕ, ◌+◌, ◌*◌, ◌≤◌, ◌≡◌, refl, sym, ap, maybe, ◌==◌, ◌!=◌, Bool, [], ◌∷◌, Option, some, lookup,
  eq_bytes, arith,
}
use wire_rift.RateLimit.{Limiter, Manager, unit, refilled, allow_n, allow_key_n, wait_n, evict}
use wire_rift.RateLimit.Bucket.{Calls, duration, granted, after, IsFilled, granted_le}
use wire_rift.RateLimit.Waiting.{wait_n_returns}
use wire_rift.RateLimit.Evicted.{seen, evict-allow_key_n}
use wire_rift.Server.Ports.{
  Ports, allocate_port, listen_tunnel_port, scan_ports, port_at, add_port, drop_port, try_ports,
  try_port, release_port, listening,
}
use wire_rift.Server.Ports.Listen.{Bound, listen_tunnel_port-Bound}

-- One token per second and a burst of 2: three calls within half a second, of which two are granted.
abbrev slow : Limiter
slow = record { rate = 1000; burst = 2; tokens = 2 * unit; last_update = 0 }

abbrev calls : Calls
calls = (0, 1) ∷ (0, 1) ∷ (500000000, 1) ∷ []

two_granted : granted calls slow ≡ 2
unfolding allow_n refilled
two_granted = refl

granted_le_example :
    IsFilled (after calls slow)
    × (granted calls slow * unit + (after calls slow).tokens
        ≤ slow.tokens + duration calls * slow.rate)
    × (granted calls slow * unit ≤ slow.burst * unit + duration calls * slow.rate)
granted_le_example = granted_le calls slow (omega arith)

-- A token after 100 sleeps of 10 ms from an empty bucket.
abbrev drained : Limiter
drained = record { rate = 1000; burst = 2; tokens = 0; last_update = 0 }

abbrev ticks : ℕ → ℕ
ticks i = i * 10000000

wait_n_returns_example : (l : Limiter) × (wait_n 101 ticks 0 1 drained ≡ some l)
wait_n_returns_example =
    wait_n_returns ticks 0 1 100 drained (λ i. omega arith) (omega arith) (omega arith)

-- A manager whose only limiter was drained at time 0 and is evicted 700 s later.
abbrev limits : Manager
limits = record {
  limiters = (49 ∷ [], record drained { rate = 200; burst = 10 }) ∷ [];
  rate = 200;
  burst = 10;
}

made :
    (l : Limiter)
    → lookup (49 ∷ []) limits.limiters ≡ some l
    → (l.rate ≡ limits.rate) × (l.burst ≡ limits.burst)
unfolding lookup eq_bytes
made l e = (
  ap (λ (o : Option Limiter). maybe o 200 (λ x. x.rate)) (sym e),
  ap (λ (o : Option Limiter). maybe o 10 (λ x. x.burst)) (sym e),
)

evict-allow_key_n_example :
    seen (49 ∷ []) (allow_key_n 700000000000 (49 ∷ []) 1 (evict 700000000000 600000000000 limits).1)
    ≡ seen (49 ∷ []) (allow_key_n 700000000000 (49 ∷ []) 1 limits)
unfolding lookup
evict-allow_key_n_example =
    evict-allow_key_n 700000000000 700000000000 1 (49 ∷ []) 600000000000 limits (refl, tt)
      (omega arith) (omega arith) made

-- Three ports, of which the first is allocated and the second belongs to another program.
abbrev ports : Ports
ports = record {
  tcp_port_start = 20000;
  tcp_port_end = 20002;
  tcp_ports = λ p. p == 20000;
  next_port = 19999;
}

abbrev not_second : ℕ → Bool
not_second p = p != 20001

third_port : (listen_tunnel_port not_second ports).0 ≡ listening 20002
unfolding listen_tunnel_port try_ports try_port allocate_port scan_ports port_at add_port drop_port
    release_port
third_port = refl

listen_tunnel_port-Bound_example : Bound not_second ports (listen_tunnel_port not_second ports)
listen_tunnel_port-Bound_example = listen_tunnel_port-Bound not_second ports
