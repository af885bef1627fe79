-- ===== src/Server/Held.antt =====
-- internal/server/offline.go: the subdomains that are held for clients that dropped. Times are in
-- nanoseconds.
pub mod Grace
use wire_rift.Prelude.{
  ℕ, ◌+◌, Bool, true, false, ◌&&◌, ltb, leb, ◌==◌, if◌then◌else◌, maybe, List, [], ◌∷◌, length,
  Option, none, some, Bytes, lookup, delete, store,
}

-- `heldName`
pub record HeldName : Type 0 where
  pub account_id : Bytes
  pub until : ℕ

abbrev pub HeldNames : Type 0
HeldNames = List (Bytes × HeldName)

-- `holdSubdomain` with the grace period of the configuration; one that is not positive is 0.
unfoldable pub hold_subdomain : ℕ → ℕ → Bytes → Bytes → HeldNames → HeldNames
hold_subdomain grace now subdomain account_id held =
    if grace == 0
    then held
    else store subdomain (record { account_id = account_id; until = now + grace }) held

-- `heldBy`: an expired hold is dropped on the way.
unfoldable pub held_by : ℕ → Bytes → HeldNames → Option Bytes × HeldNames
held_by now subdomain held =
    maybe (lookup subdomain held) (none, held)
      (λ h. if ltb h.until now then (none, delete subdomain held) else (some h.account_id, held))

-- `sweepHeld`
unfoldable pub sweep_held : ℕ → HeldNames → HeldNames
sweep_held now [] = []
sweep_held now ((k, h) ∷ held) =
    let rest = sweep_held now held in if ltb h.until now then rest else (k, h) ∷ rest

-- `heldRecord`
pub record HeldRecord : Type 0 where
  pub subdomain : Bytes
  pub account_id : Bytes
  pub until : ℕ

-- The loop of `loadHeld` over the records of the file.
unfoldable pub load_held : ℕ → List HeldRecord → HeldNames → HeldNames
load_held now [] held = held
load_held now (r ∷ records) held =
    let kept =
      load_held now records
        (store r.subdomain (record { account_id = r.account_id; until = r.until }) held) in
    let skipped = load_held now records held in
    if (ltb 0 (length r.subdomain) && ltb now r.until) then kept else skipped
