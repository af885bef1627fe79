-- ===== src/Proto/Heartbeat.antt =====
-- internal/proto/messages.go: the timestamp in a heartbeat's payload.
use Prim.Native.Nat.{bit_or}
use wire_rift.Prelude.{
  ℕ, zero, suc, ◌+◌, ◌-◌, ◌*◌, ◌/◌, ◌%◌, ◌^◌, ◌<◌, ◌≡◌, ap, ◌∙◌, ltb, if◌then◌else◌, List, [], ◌∷◌,
  ◌++◌, length, Option, none, some, arith,
}
use wire_rift.Prelude.Bits.{bit_or_shift}

-- The loop of `HeartbeatPayload`, with `rounds` rounds left: buf[i] = byte(ts >> (56 - i*8)).
unfoldable pub payload_loop : ℕ → ℕ → ℕ → List ℕ
payload_loop ts i zero = []
payload_loop ts i (suc rounds) = ts / 2 ^ (56 - i * 8) % 256 ∷ payload_loop ts (i + 1) rounds

-- `HeartbeatPayload` at the clock reading `ts`, a uint64.
unfoldable pub heartbeat_payload : ℕ → List ℕ
unfolding payload_loop
heartbeat_payload ts = payload_loop ts 0 8

-- One round of `ParseHeartbeat`, on uint64: ts = (ts << 8) | uint64(payload[i]).
abbrev pub parse_step : ℕ → ℕ → ℕ
parse_step ts b = bit_or (ts * 2 ^ 8 % 2 ^ 64) b

unfoldable pub parse_loop : ℕ → ℕ → List ℕ → ℕ
parse_loop zero ts p = ts
parse_loop (suc rounds) ts [] = ts
parse_loop (suc rounds) ts (b ∷ p) = parse_loop rounds (parse_step ts b) p

-- `ParseHeartbeat`; `none` is the zero time of a payload that is too short, and the time is the
-- uint64 of nanoseconds, before Go reads it as an int64.
unfoldable pub parse_heartbeat : List ℕ → Option ℕ
unfolding parse_loop
parse_heartbeat p = if ltb (length p) 8 then none else some (parse_loop 8 0 p)

parse_step-low : (ts q : ℕ) → ts ≡ q / 256 → q < 2 ^ 64 → parse_step ts (q % 256) ≡ q
parse_step-low ts q e h =
    ap (λ x. bit_or x (q % 256)) fits ∙ bit_or_shift 8 ts (q % 256) (omega arith) ∙ omega arith
  where
    fits : ts * 2 ^ 8 % 2 ^ 64 ≡ ts * 2 ^ 8
    fits = omega arith

-- The payload of a time below 2^64 gives back the time that it was made of, whatever follows it.
pub parse_heartbeat-heartbeat_payload :
    (ts : ℕ) (more : List ℕ)
    → ts < 2 ^ 64
    → parse_heartbeat (heartbeat_payload ts ++ more) ≡ some ts
unfolding parse_heartbeat heartbeat_payload
parse_heartbeat-heartbeat_payload ts more h = ground (arith, first)
  where
    t0 : ℕ
    t0 = parse_step 0 (ts / 2 ^ 56 % 256)

    e56 : t0 ≡ ts / 2 ^ 56
    e56 = parse_step-low 0 (ts / 2 ^ 56) (omega arith) (omega arith)

    t1 : ℕ
    t1 = parse_step t0 (ts / 2 ^ 48 % 256)

    e48 : t1 ≡ ts / 2 ^ 48
    e48 = parse_step-low t0 (ts / 2 ^ 48) (e56 ∙ omega arith) (omega arith)

    t2 : ℕ
    t2 = parse_step t1 (ts / 2 ^ 40 % 256)

    e40 : t2 ≡ ts / 2 ^ 40
    e40 = parse_step-low t1 (ts / 2 ^ 40) (e48 ∙ omega arith) (omega arith)

    t3 : ℕ
    t3 = parse_step t2 (ts / 2 ^ 32 % 256)

    e32 : t3 ≡ ts / 2 ^ 32
    e32 = parse_step-low t2 (ts / 2 ^ 32) (e40 ∙ omega arith) (omega arith)

    t4 : ℕ
    t4 = parse_step t3 (ts / 2 ^ 24 % 256)

    e24 : t4 ≡ ts / 2 ^ 24
    e24 = parse_step-low t3 (ts / 2 ^ 24) (e32 ∙ omega arith) (omega arith)

    t5 : ℕ
    t5 = parse_step t4 (ts / 2 ^ 16 % 256)

    e16 : t5 ≡ ts / 2 ^ 16
    e16 = parse_step-low t4 (ts / 2 ^ 16) (e24 ∙ omega arith) (omega arith)

    t6 : ℕ
    t6 = parse_step t5 (ts / 2 ^ 8 % 256)

    e8 : t6 ≡ ts / 2 ^ 8
    e8 = parse_step-low t5 (ts / 2 ^ 8) (e16 ∙ omega arith) (omega arith)

    t7 : ℕ
    t7 = parse_step t6 (ts / 2 ^ 0 % 256)

    first : t7 ≡ ts / 2 ^ 0
    first = parse_step-low t6 (ts / 2 ^ 0) (e8 ∙ omega arith) (omega arith)
