-- ===== src/Mux/Registry.antt =====
-- The registry of live streams (internal/mux/mux.go, `streams` and `streamCount`): its invariant.
pub mod Map
pub mod Parts
pub mod Methods
pub mod Handlers
pub mod Ids
pub mod Transfer
pub mod Open
pub mod Limit
pub mod Steps
use wire_rift.Prelude.{ℕ, ◌<◌, ◌≡◌, Bool, false, List, length, All}
use wire_rift.Mux.Stream.{Stream, is_closed}
use wire_rift.Mux.State.{Mux}
use Map.{Distinct}

-- An entry is an ID and the handle of a stream object that has this ID and is not closed yet.
abbrev pub Owns : (ℕ → Stream) → ℕ → ℕ × ℕ → Type 0
Owns obj allocated e = (e.1 < allocated) × ((obj e.1).id ≡ e.0) × (is_closed (obj e.1) ≡ false)

pub record IsRegistry (m : Mux) : Type 0 where
  pub distinct : Distinct m.streams
  pub counted : m.stream_count ≡ length m.streams
  pub owned : All (Owns m.obj m.allocated) m.streams
