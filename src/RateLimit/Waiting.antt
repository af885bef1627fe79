-- ===== src/RateLimit/Waiting.antt =====
-- When `WaitN` returns.
use native.Mathlib.Nat.{mul-le-mul_right}
use wire_rift.Prelude.{
  ℕ, zero, suc, ◌+◌, ◌-◌, ◌*◌, ◌≤◌, ◌<◌, ◌≡◌, refl, ap, ap₂, Bool, true, false, leb, if_split, some,
  arith, inl, inr, Bool-cases,
}
use wire_rift.RateLimit.{Limiter, unit, refilled, allow_n, wait_n}

-- Between two rounds there are at least the 10 ms of the sleep.
abbrev pub Sleeps : (ℕ → ℕ) → Type 0
Sleeps clock = (i : ℕ) → clock i + 10000000 ≤ clock (i + 1)

-- The credit for round i: the tokens that the limiter has by then if its burst does not cut them.
abbrev credit : (ℕ → ℕ) → ℕ → Limiter → ℕ
credit clock i l = l.tokens + (clock i - l.last_update) * l.rate

-- A call that the credit covers is granted, and a refused one leaves all of the credit.
abbrev Answered : (ℕ → ℕ) → ℕ → ℕ → Limiter → Bool × Limiter → Type 0
Answered clock i n l (true, k) = Unit {0}
Answered clock i n l (false, k) =
    (credit clock i l < n * unit)
    × (k.tokens ≡ credit clock i l)
    × (k.last_update ≡ clock i)
    × (k.rate ≡ l.rate)
    × (k.burst ≡ l.burst)

covered :
    (clock : ℕ → ℕ) (i n : ℕ) (l : Limiter)
    → n ≤ l.burst
    → refilled (clock i) l < n * unit
    → refilled (clock i) l ≡ credit clock i l
unfolding refilled
covered clock i n l h e = ground arith

allow_n-Answered :
    (clock : ℕ → ℕ) (i n : ℕ) (l : Limiter)
    → n ≤ l.burst
    → Answered clock i n l (allow_n (clock i) n l)
unfolding allow_n
allow_n-Answered clock i n l h =
    if_split (Answered clock i n l) (leb (n * unit) (refilled (clock i) l)) (λ _. tt)
      (λ e. (
        omega (arith, short e, covered clock i n l h (short e)),
        covered clock i n l h (short e),
        refl,
        refl,
        refl,
      ))
  where
    short : leb (n * unit) (refilled (clock i) l) ≡ false → refilled (clock i) l < n * unit
    short e = ground arith

abbrev Returns : (ℕ → ℕ) → ℕ → ℕ → ℕ → Limiter → Type 0
Returns clock i n k l = (l' : Limiter) × (wait_n (suc k) clock i n l ≡ some l')

-- A round that is granted returns, and one that is refused returns when the rest does.
round-Returns :
    (clock : ℕ → ℕ) (i n k : ℕ) (l : Limiter)
    → ((allow_n (clock i) n l).0 ≡ false
        → (l' : Limiter) × (wait_n k clock (i + 1) n (allow_n (clock i) n l).1 ≡ some l'))
    → Returns clock i n k l
unfolding wait_n
round-Returns clock i n k l later = elim (Bool-cases (allow_n (clock i) n l).0) [
  | inl t ↦ ((allow_n (clock i) n l).1, rw t)
  | inr f ↦ ((later f).0, rw f (later f).1)
]

gap_adds :
    (x d ρ k m : ℕ)
    → 10000000 ≤ d
    → m ≤ x + suc k * (10000000 * ρ)
    → m ≤ x + d * ρ + k * (10000000 * ρ)
gap_adds x d ρ k m h c = omega (arith, mul-le-mul_right ρ h)

-- A refused round leaves the credit, and the sleep adds to it.
sleep_adds :
    (clock : ℕ → ℕ) (i n k : ℕ) (l : Limiter)
    → Sleeps clock
    → n ≤ l.burst
    → n * unit ≤ credit clock i l + suc k * (10000000 * l.rate)
    → (r : Bool × Limiter) → Answered clock i n l r
    → r.0 ≡ false
    → (n ≤ r.1.burst) × (n * unit ≤ credit clock (i + 1) r.1 + k * (10000000 * r.1.rate))
sleep_adds clock i n k l sleeps h c (true, r) a f = cc
sleep_adds clock i n k l sleeps h c (false, r) a f = (
  omega (arith, a.4),
  omega (
    arith,
    gap_adds (credit clock i l) (clock (i + 1) - clock i) l.rate k (n * unit),
    sleeps i,
    c,
    a,
    gap,
    rest,
  ),
)
  where
    gap : (clock (i + 1) - r.last_update) * r.rate ≡ (clock (i + 1) - clock i) * l.rate
    gap = ap₂ (λ t ρ. (clock (i + 1) - t) * ρ) a.2 a.3

    rest : k * (10000000 * r.rate) ≡ k * (10000000 * l.rate)
    rest = ap (λ ρ. k * (10000000 * ρ)) a.3

-- `WaitN` of at most the burst returns: after at most k + 1 rounds when the tokens by the first
-- round and k sleeps' worth of the rate are n tokens.
pub wait_n_returns :
    (clock : ℕ → ℕ) (i n k : ℕ) (l : Limiter)
    → Sleeps clock
    → n ≤ l.burst
    → n * unit ≤ credit clock i l + k * (10000000 * l.rate)
    → (l' : Limiter) × (wait_n (suc k) clock i n l ≡ some l')
wait_n_returns clock i n zero l sleeps h c =
    round-Returns clock i n zero l
      (λ f. absurd (broke (allow_n (clock i) n l) (allow_n-Answered clock i n l h) f))
  where
    broke : (r : Bool × Limiter) → Answered clock i n l r → r.0 ≡ false → ⊥
    broke (true, r) a f = cc
    broke (false, r) a f = omega arith
wait_n_returns clock i n (suc k) l sleeps h c =
    round-Returns clock i n (suc k) l
      (λ f. wait_n_returns clock (i + 1) n k (allow_n (clock i) n l).1 sleeps (next f).0 (next f).1)
  where
    next :
        (allow_n (clock i) n l).0 ≡ false
        → (n ≤ (allow_n (clock i) n l).1.burst)
          × (n * unit
              ≤ credit clock (i + 1) (allow_n (clock i) n l).1
                + k * (10000000 * (allow_n (clock i) n l).1.rate))
    next f =
        sleep_adds clock i n k l sleeps h c (allow_n (clock i) n l) (allow_n-Answered clock i n l h)
          f
