-- ===== src/Server/Pin.antt =====
-- internal/server/pin.go: the guard against guessing the PIN of a tunnel. Times are in nanoseconds.
pub mod Lockout
use wire_rift.Prelude.{
  ℕ, ◌+◌, ◌-◌, ◌≤◌, ◌<◌, ◌≡◌, refl, ap, sym, ◌∙◌, Bool, true, false, ltb, leb, le→ltb, lt→ltb,
  if◌then◌else◌, if_cases, if_split, maybe, List, [], ◌∷◌, length, Option, none, some, Bytes,
  eq_bytes, lookup, delete, store, lookup-store_same, arith, Bool-cases, inl, inr,
}

abbrev pub pin_max_failures : ℕ
pin_max_failures = 5

-- 5 minutes.
abbrev pub pin_lockout : ℕ
pin_lockout = 300000000000

-- `pinFailure`; the zero time of `until` is 0.
pub record PinFailure : Type 0 where
  pub count : ℕ
  pub until : ℕ
  pub last : ℕ

abbrev pub Failures : Type 0
Failures = List (Bytes × PinFailure)

-- `pinGuard.locked`
unfoldable pub locked : ℕ → Bytes → Failures → Bool
locked now key g = maybe (lookup key g) false (λ f. ltb now f.until)

-- The entries that `fail` keeps when there are too many.
unfoldable pub drop_stale : ℕ → Failures → Failures
drop_stale now [] = []
drop_stale now ((k, f) ∷ g) =
    let rest = drop_stale now g in if ltb pin_lockout (now - f.last) then rest else (k, f) ∷ rest

abbrev pub no_failure : PinFailure
no_failure = record { count = 0; until = 0; last = 0 }

-- The entry that a failure starts from: an old one is forgotten.
unfoldable pub current : ℕ → Option PinFailure → PinFailure
current now o = maybe o no_failure (λ f. if ltb pin_lockout (now - f.last) then no_failure else f)

-- The entry after one more failure.
unfoldable pub one_more : ℕ → PinFailure → PinFailure
one_more now f =
    if leb pin_max_failures (f.count + 1)
    then record { count = 0; until = now + pin_lockout; last = now }
    else record { count = f.count + 1; until = f.until; last = now }

-- `pinGuard.fail`
unfoldable pub fail : ℕ → Bytes → Failures → Bool × Failures
fail now key g =
    let kept = if ltb 10000 (length g) then drop_stale now g else g in
    let f = one_more now (current now (lookup key kept)) in (ltb now f.until, store key f kept)

-- `pinGuard.reset`
unfoldable pub reset_failures : Bytes → Failures → Failures
reset_failures key g = delete key g
