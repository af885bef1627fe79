-- ===== src/Mux/Transfer/Accept.antt =====
-- internal/mux/mux.go: `AcceptStream`.
use wire_rift.Prelude.{ℕ, Bool, ◌&&◌, if◌then◌else◌, List, [], ◌∷◌}
use wire_rift.Mux.State.{Mux, MuxError, end_of_stream}

pub data Accepted : Type 0 where
  accepted : ℕ → Accepted
  no_more : MuxError → Accepted
  must_wait : Accepted

-- The channel of accepted streams.
unfoldable pub next_accepted : List ℕ → Mux → Accepted × Mux
next_accepted [] m = (if m.done then no_more end_of_stream else must_wait, m)
next_accepted (h ∷ rest) m = (accepted h, record m { accept = rest })

-- `AcceptStream`; `prefer_done` is what its select picks when both channels are ready.
unfoldable pub accept_stream : Bool → Mux → Accepted × Mux
accept_stream prefer_done m =
    if (prefer_done && m.done) then (no_more end_of_stream, m) else next_accepted m.accept m
