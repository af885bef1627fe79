-- ===== src/RateLimit/Evicted.antt =====
-- `Evict` is not noticed by a key whose bucket had the time to fill up.
use native.Mathlib.Nat.{mul-le-mul_right}
use wire_rift.Prelude.{
  ℕ, ◌+◌, ◌-◌, ◌*◌, ◌≤◌, ◌<◌, ◌≡◌, refl, sym, ap, ap₂, ◌∙◌, Bool, true, false, leb, ltb,
  if◌then◌else◌, maybe, List, [], ◌∷◌, Option, none, some, arith, inl, inr, Bool-cases, Bytes,
  Distinct, eq_bytes, eq_bytes-eq, lookup, store, lookup-store_same, ltb→lt,
}
use wire_rift.RateLimit.{
  Limiter, Manager, unit, new_limiter, refilled, allow_n, get_with, allow_with, allow_key_n,
  evict_old, evict,
}

-- What eviction leaves of what a key had.
abbrev left : ℕ → ℕ → Option Limiter → Option Limiter
left now max_age o = maybe o none (λ l. if ltb (l.last_update + max_age) now then none else some l)

lookup-evict_old :
    (now max_age : ℕ) (key : Bytes) (m : List (Bytes × Limiter))
    → Distinct m
    → lookup key (evict_old now max_age m).1 ≡ left now max_age (lookup key m)
unfolding lookup evict_old
lookup-evict_old now max_age key [] d = refl
lookup-evict_old now max_age key ((k, l) ∷ m) d = elim (Bool-cases (eq_bytes k key)) [
  | inl e ↦ ground (
    arith,
    e,
    lookup-evict_old now max_age key m d.1,
    ap (λ j. lookup j m) (sym (eq_bytes-eq k key e)) ∙ d.0,
  )
  | inr e ↦ ground (arith, e, lookup-evict_old now max_age key m d.1)
]

-- A call by what the bucket holds.
abbrev taken : ℕ → ℕ → ℕ → ℕ → ℕ → Bool × Limiter
taken now n rate burst t =
    if leb (n * unit) t
    then (true, record { rate = rate; burst = burst; tokens = t - n * unit; last_update = now })
    else (false, record { rate = rate; burst = burst; tokens = t; last_update = now })

allow_n-taken :
    (now n : ℕ) (l : Limiter) → allow_n now n l ≡ taken now n l.rate l.burst (refilled now l)
unfolding allow_n
allow_n-taken now n l = refl

refilled-new_limiter :
    (now rate burst : ℕ) → refilled now (new_limiter now rate burst) ≡ burst * unit
unfolding refilled new_limiter
refilled-new_limiter now rate burst = ground arith

refilled_full :
    (now max_age : ℕ) (l : Limiter)
    → l.last_update + max_age < now
    → l.burst * unit ≤ max_age * l.rate
    → refilled now l ≡ l.burst * unit
unfolding refilled
refilled_full now max_age l old full =
    ground (arith, mul-le-mul_right {m = max_age} {n = now - l.last_update} l.rate (omega arith))

-- A bucket that had the time to fill up answers as a new one does.
allow_n_fresh :
    (now n max_age : ℕ) (l : Limiter)
    → l.last_update + max_age < now
    → l.burst * unit ≤ max_age * l.rate
    → allow_n now n (new_limiter now l.rate l.burst) ≡ allow_n now n l
unfolding new_limiter
allow_n_fresh now n max_age l old full =
    allow_n-taken now n (new_limiter now l.rate l.burst)
    ∙ ap (taken now n l.rate l.burst)
        (refilled-new_limiter now l.rate l.burst ∙ sym (refilled_full now max_age l old full))
    ∙ sym (allow_n-taken now n l)

abbrev pub Made : Bytes → ℕ → ℕ → Manager → Type 0
Made key rate burst m =
    (l : Limiter) → lookup key m.limiters ≡ some l → (l.rate ≡ rate) × (l.burst ≡ burst)

abbrev or_new : ℕ → ℕ → ℕ → Option Limiter → Limiter
or_new now rate burst o = maybe o (new_limiter now rate burst) (λ l. l)

-- The limiter that is left of one with the given rate and burst, or a new one, answers alike.
left_answers :
    (evicted now n rate burst max_age : ℕ) (o : Option Limiter)
    → evicted ≤ now
    → burst * unit ≤ max_age * rate
    → ((l : Limiter) → o ≡ some l → (l.rate ≡ rate) × (l.burst ≡ burst))
    → allow_n now n (or_new now rate burst (left evicted max_age o))
      ≡ allow_n now n (or_new now rate burst o)
left_answers evicted now n rate burst max_age none h full made = refl
left_answers evicted now n rate burst max_age (some l) h full made =
    elim (Bool-cases (ltb (l.last_update + max_age) evicted)) [
      | inl old ↦
          ap (λ o. allow_n now n (or_new now rate burst o)) (gone old)
          ∙ ap₂ (λ r b. allow_n now n (new_limiter now r b)) (sym (made l refl).0)
              (sym (made l refl).1)
          ∙ allow_n_fresh now n max_age l (omega (arith, ltb→lt _ _ old)) filled
      | inr young ↦ ap (λ o. allow_n now n (or_new now rate burst o)) (kept young)
    ]
  where
    gone : ltb (l.last_update + max_age) evicted ≡ true → left evicted max_age (some l) ≡ none
    gone e = rw e

    kept : ltb (l.last_update + max_age) evicted ≡ false → left evicted max_age (some l) ≡ some l
    kept e = rw e

    filled : l.burst * unit ≤ max_age * l.rate
    filled = omega (arith, full, (made l refl).1, ap (λ r. max_age * r) (made l refl).0)

get_with-evict :
    (evicted now n : ℕ) (key : Bytes) (rate burst max_age : ℕ) (m : Manager)
    → Distinct m.limiters
    → evicted ≤ now
    → burst * unit ≤ max_age * rate
    → Made key rate burst m
    → allow_n now n (get_with now key rate burst (evict evicted max_age m).1)
      ≡ allow_n now n (get_with now key rate burst m)
unfolding get_with evict
get_with-evict evicted now n key rate burst max_age m d h full made =
    ap (λ o. allow_n now n (or_new now rate burst o))
      (lookup-evict_old evicted max_age key m.limiters d)
    ∙ left_answers evicted now n rate burst max_age (lookup key m.limiters) h full made

-- The answer of a call and the limiter that it leaves for the key.
abbrev pub seen : Bytes → Bool × Manager → Bool × Option Limiter
seen key r = (r.0, lookup key r.1.limiters)

seen_same :
    (key : Bytes) (r s : Bool × Limiter) (m k : Manager)
    → r ≡ s
    → seen key (r.0, record m { limiters = store key r.1 m.limiters })
      ≡ seen key (s.0, record k { limiters = store key s.1 k.limiters })
seen_same key r s m k e =
    ap₂ (λ b o. (b, o)) (ap (λ p. p.0) e)
      (lookup-store_same key r.1 m.limiters
        ∙ ap (λ (p : Bool × Limiter). some p.1) e
        ∙ sym (lookup-store_same key s.1 k.limiters))

-- When an empty bucket fills up within the age at which `Evict` removes it, no later call of a key
-- whose limiter has the manager's rate and burst, or that has none, is answered otherwise, or
-- leaves another limiter for the key, for the eviction.
pub evict-allow_key_n :
    (evicted now n : ℕ) (key : Bytes) (max_age : ℕ) (m : Manager)
    → Distinct m.limiters
    → evicted ≤ now
    → m.burst * unit ≤ max_age * m.rate
    → Made key m.rate m.burst m
    → seen key (allow_key_n now key n (evict evicted max_age m).1)
      ≡ seen key (allow_key_n now key n m)
unfolding allow_key_n evict
evict-allow_key_n evicted now n key max_age m d h full made =
    seen_same key _ _ (evict evicted max_age m).1 m
      (get_with-evict evicted now n key m.rate m.burst max_age m d h full made)

-- The same for a key with a rate and a burst of its own.
pub evict-allow_with :
    (evicted now : ℕ) (key : Bytes) (rate burst max_age : ℕ) (m : Manager)
    → Distinct m.limiters
    → evicted ≤ now
    → burst * unit ≤ max_age * rate
    → Made key rate burst m
    → seen key (allow_with now key rate burst (evict evicted max_age m).1)
      ≡ seen key (allow_with now key rate burst m)
unfolding allow_with evict
evict-allow_with evicted now key rate burst max_age m d h full made =
    seen_same key _ _ (evict evicted max_age m).1 m
      (get_with-evict evicted now 1 key rate burst max_age m d h full made)
