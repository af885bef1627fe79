-- ===== src/RateLimit/Bucket.antt =====
-- How much a limiter can grant.
use wire_rift.Prelude.{
  ℕ, ◌+◌, ◌*◌, ◌≤◌, ◌≡◌, refl, ap, Bool, leb, if◌then◌else◌, if_split, List, [], ◌∷◌, arith,
}
use wire_rift.RateLimit.{Limiter, unit, refilled, allow_n}

-- Calls of AllowN: for each the nanoseconds since the call before, and the tokens it asks for.
abbrev pub Calls : Type 0
Calls = List (ℕ × ℕ)

-- The nanoseconds from the first call's predecessor to the last call.
abbrev pub duration : Calls → ℕ
duration [] = 0
duration ((gap, n) ∷ calls) = gap + duration calls

-- The tokens that the calls are granted, and the limiter after them.
abbrev pub granted : Calls → Limiter → ℕ
granted [] l = 0
granted ((gap, n) ∷ calls) l =
    let r = allow_n (l.last_update + gap) n l in (if r.0 then n else 0) + granted calls r.1

abbrev pub after : Calls → Limiter → Limiter
after [] l = l
after ((gap, n) ∷ calls) l = after calls (allow_n (l.last_update + gap) n l).1

-- A bucket holds at most its burst.
abbrev pub IsFilled : Limiter → Type 0
IsFilled l = l.tokens ≤ l.burst * unit

-- What one call did to the limiter.
abbrev Paid : Limiter → ℕ → ℕ → Bool × Limiter → Type 0
Paid l gap n (b, k) =
    (k.tokens + (if b then n else 0) * unit ≤ l.tokens + gap * l.rate)
    × (k.tokens + (if b then n else 0) * unit ≤ l.burst * unit)
    × (k.rate ≡ l.rate)
    × (k.burst ≡ l.burst)

refilled_le :
    (l : Limiter) (gap : ℕ)
    → IsFilled l
    → (refilled (l.last_update + gap) l ≤ l.tokens + gap * l.rate)
      × (refilled (l.last_update + gap) l ≤ l.burst * unit)
unfolding refilled
refilled_le l gap h = ground arith

allow_n-Paid :
    (l : Limiter) (gap n : ℕ) → IsFilled l → Paid l gap n (allow_n (l.last_update + gap) n l)
unfolding allow_n
allow_n-Paid l gap n h =
    if_split (Paid l gap n) (leb (n * unit) t)
      (λ e. (ground (arith, refilled_le l gap h), ground (arith, refilled_le l gap h), refl, refl))
      (λ _. (
        omega (arith, (refilled_le l gap h).0),
        omega (arith, (refilled_le l gap h).1),
        refl,
        refl,
      ))
  where
    t : ℕ
    t = refilled (l.last_update + gap) l

abbrev IsFair : Calls → Limiter → Type 0
IsFair calls l =
    IsFilled (after calls l)
    × (granted calls l * unit + (after calls l).tokens ≤ l.tokens + duration calls * l.rate)
    × (granted calls l * unit ≤ l.burst * unit + duration calls * l.rate)

call-IsFair :
    (gap n : ℕ) (calls : Calls) (l : Limiter)
    → IsFilled l
    → IsFair calls (allow_n (l.last_update + gap) n l).1
    → IsFair ((gap, n) ∷ calls) l
call-IsFair gap n calls l h fair = (fair.0, ground (arith, paid, same), ground (arith, paid, same))
  where
    paid : Paid l gap n (allow_n (l.last_update + gap) n l)
    paid = allow_n-Paid l gap n h

    same : duration calls * (allow_n (l.last_update + gap) n l).1.rate ≡ duration calls * l.rate
    same = ap (λ r. duration calls * r) paid.2

-- Along any calls of AllowN, the bucket never holds more than its burst, and what was granted and
-- what is left are together at most what was there and what came in during that time; so the
-- calls are granted at most the burst and the rate times the time.
pub granted_le :
    (calls : Calls) (l : Limiter)
    → IsFilled l
    → IsFilled (after calls l)
      × (granted calls l * unit + (after calls l).tokens ≤ l.tokens + duration calls * l.rate)
      × (granted calls l * unit ≤ l.burst * unit + duration calls * l.rate)
granted_le [] l h = (h, omega arith, omega arith)
granted_le ((gap, n) ∷ calls) l h = call-IsFair gap n calls l h (
    granted_le calls (allow_n (l.last_update + gap) n l).1 (ground (arith, allow_n-Paid l gap n h)))
