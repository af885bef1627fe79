-- ===== src/RateLimit.antt =====
-- internal/ratelimit/ratelimit.go: the token bucket and the manager's map. Go's float64 arithmetic
-- is taken as exact: a rate is in thousandths of a token per second, a time in nanoseconds, and an
-- amount of tokens in units of 10 ^ -12 token, so a rate of r adds r units in a nanosecond. The
-- clock does not run backwards.
pub mod Bucket
pub mod Waiting
pub mod Evicted
use wire_rift.Prelude.{
  ℕ, zero, suc, ◌+◌, ◌-◌, ◌*◌, ◌/◌, ◌^◌, Bool, true, false, ltb, leb, if◌then◌else◌, maybe, List,
  [], ◌∷◌, Option, none, some, Bytes, lookup, delete, store,
}

-- The units of one token.
abbrev pub unit : ℕ
unit = 10 ^ 12

-- `Limiter`
pub record Limiter : Type 0 where
  pub rate : ℕ
  pub burst : ℕ
  pub tokens : ℕ
  pub last_update : ℕ

-- `New` at time `now`.
unfoldable pub new_limiter : ℕ → ℕ → ℕ → Limiter
new_limiter now rate burst = record {
  rate = rate;
  burst = burst;
  tokens = burst * unit;
  last_update = now;
}

-- The tokens at time `now`, cut off at the burst; all of `Tokens`.
unfoldable pub refilled : ℕ → Limiter → ℕ
refilled now l =
    let t = l.tokens + (now - l.last_update) * l.rate in
    if ltb (l.burst * unit) t then l.burst * unit else t

-- `AllowN` at time `now`, and `Allow`.
unfoldable pub allow_n : ℕ → ℕ → Limiter → Bool × Limiter
allow_n now n l =
    let t = refilled now l in
    if leb (n * unit) t
    then (true, record l { tokens = t - n * unit; last_update = now })
    else (false, record l { tokens = t; last_update = now })

abbrev pub allow : ℕ → Limiter → Bool × Limiter
allow now l = allow_n now 1 l

-- The loop of `WaitN` with the rounds that are left. Round i calls AllowN at `clock i`; `none` is
-- a loop that has not returned yet.
unfoldable pub wait_n : ℕ → (ℕ → ℕ) → ℕ → ℕ → Limiter → Option Limiter
wait_n zero clock i n l = none
wait_n (suc rounds) clock i n l =
    let r = allow_n (clock i) n l in
    let again = wait_n rounds clock (i + 1) n r.1 in if r.0 then some r.1 else again

-- `ReserveN` at time `now`: the wait in nanoseconds. The rate is not 0.
unfoldable pub reserve_n : ℕ → ℕ → Limiter → ℕ × Limiter
reserve_n now n l =
    let t = refilled now l in
    if leb (n * unit) t
    then (0, record l { tokens = t - n * unit; last_update = now })
    else ((n * unit - t) / l.rate, record l { tokens = t; last_update = now })

-- `SetRate`
unfoldable pub set_rate : ℕ → Limiter → Limiter
set_rate rate l = record l { rate = rate }

-- `Manager`
pub record Manager : Type 0 where
  pub limiters : List (Bytes × Limiter)
  pub rate : ℕ
  pub burst : ℕ

-- The limiter of a key, or a new one of the given rate and burst.
unfoldable pub get_with : ℕ → Bytes → ℕ → ℕ → Manager → Limiter
get_with now key rate burst m = maybe (lookup key m.limiters) (new_limiter now rate burst) (λ l. l)

-- `AllowWith`; the map holds the limiter as the call has left it.
unfoldable pub allow_with : ℕ → Bytes → ℕ → ℕ → Manager → Bool × Manager
allow_with now key rate burst m =
    let r = allow now (get_with now key rate burst m) in
    (r.0, record m { limiters = store key r.1 m.limiters })

-- `Get`: a new limiter stays in the map.
unfoldable pub get_limiter : ℕ → Bytes → Manager → Limiter × Manager
get_limiter now key m =
    let l = get_with now key m.rate m.burst m in (l, record m { limiters = store key l m.limiters })

-- `Manager.AllowN` and `Manager.Allow`
unfoldable pub allow_key_n : ℕ → Bytes → ℕ → Manager → Bool × Manager
allow_key_n now key n m =
    let r = allow_n now n (get_with now key m.rate m.burst m) in
    (r.0, record m { limiters = store key r.1 m.limiters })

abbrev pub allow_key : ℕ → Bytes → Manager → Bool × Manager
allow_key now key m = allow_key_n now key 1 m

-- `Remove` and `Clear`
unfoldable pub remove_key : Bytes → Manager → Manager
remove_key key m = record m { limiters = delete key m.limiters }

unfoldable pub clear : Manager → Manager
clear m = record m { limiters = [] }

-- The range of `Evict`: what is left of the map, and how many went.
unfoldable pub evict_old : ℕ → ℕ → List (Bytes × Limiter) → ℕ × List (Bytes × Limiter)
evict_old now max_age [] = (0, [])
evict_old now max_age ((k, l) ∷ m) =
    let rest = evict_old now max_age m in
    if ltb (l.last_update + max_age) now then (rest.0 + 1, rest.1) else (rest.0, (k, l) ∷ rest.1)

-- `Evict`
unfoldable pub evict : ℕ → ℕ → Manager → ℕ × Manager
evict now max_age m = let r = evict_old now max_age m.limiters in (r.0, record m { limiters = r.1 })
