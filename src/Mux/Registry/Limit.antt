-- ===== src/Mux/Registry/Limit.antt =====
-- The limit on a peer's streams.
use wire_rift.Prelude.{
  ℕ, ◌+◌, ◌<◌, ◌≤◌, ◌≡◌, false, ltb, leb, ◌==◌, ◌||◌, if_cases, if_split, maybe_cases, length,
  Option, arith, ◌⊎◌, inl, inr, [],
}
use wire_rift.Proto.Types.{control_stream_id, stream_rst}
use wire_rift.Proto.Io as Io
use wire_rift.Proto.Frame.{Frame}
use wire_rift.Mux.Stream.{Stream, new_stream, set_metadata}
use wire_rift.Mux.State.{
  frame, Codec, Mux, StreamOpen, find, get_stream, add_stream, remove_stream, modify, send_frame,
  send_stream_reset, accept_capacity,
}
use wire_rift.Mux.Methods.{abort, cleanup, unless_done, reset}
use wire_rift.Mux.Handlers.{hand_over, register_open, refuse, try_open, handle_stream_open}
use wire_rift.Mux.Registry.Parts.{send_frame-Same}
use wire_rift.Mux.Registry.Handlers.{Leaves}

cleanup-count : (m : Mux) (h : ℕ) → (cleanup m h).stream_count ≤ m.stream_count
unfolding cleanup remove_stream
cleanup-count m h =
    maybe_cases (λ (m' : Mux). m'.stream_count ≤ m.stream_count) (find (m.obj h).id m.streams)
      (λ _. omega arith) (λ _ _. omega arith)

reset-count : (m : Mux) (h : ℕ) → (reset m h).stream_count ≤ m.stream_count
unfolding reset unless_done send_stream_reset
reset-count m h =
    if_cases (λ (sent : Option Io.Error × Mux). (cleanup sent.1 h).stream_count ≤ m.stream_count)
      m.done (cleanup-count (modify m h abort) h)
      (omega (
        arith,
        cleanup-count (send_frame (modify m h abort) _).1 h,
        (send_frame-Same (modify m h abort) _).stream_count,
      ))

register_open-count : (m : Mux) (s : Stream) → (register_open m s).stream_count ≤ m.stream_count + 1
unfolding register_open hand_over add_stream
register_open-count m s =
    if_cases (λ (m' : Mux). m'.stream_count ≤ m.stream_count + 1)
      (ltb (length m.accept) accept_capacity) (omega arith) (reset-count _ m.allocated)

-- A peer's frame that opens a stream never takes the number of streams above the limit, nor above
-- what it was, if it was above already.
pub handle_stream_open-limit :
    (c : Codec) (m : Mux) (f : Frame)
    → Leaves
        (λ m'. (m'.stream_count ≤ m.stream_count) ⊎ (m'.stream_count ≤ m.max_streams))
        (handle_stream_open c m f)
unfolding handle_stream_open try_open refuse send_stream_reset
handle_stream_open-limit c m f =
    maybe_cases (Leaves P) (c.decode_open f.payload) (λ _. kept)
      (λ msg _.
        if_split (Leaves P) (f.stream_id == control_stream_id || leb m.max_streams m.stream_count)
          (λ _. refused)
          (λ e.
            maybe_cases (Leaves P) (get_stream m f.stream_id)
              (λ _. inr (omega (arith, register_open-count m (opened msg), below e)))
              (λ _ _. refused)))
  where
    P : Mux → Type 0
    P m' = (m'.stream_count ≤ m.stream_count) ⊎ (m'.stream_count ≤ m.max_streams)

    opened : StreamOpen → Stream
    opened msg =
        set_metadata (new_stream f.stream_id m.config.window_size) msg.remote_addr msg.protocol
          msg.tunnel_id

    kept : P m
    kept = inl (omega arith)

    refused : P (send_frame m (frame stream_rst f.stream_id [])).1
    refused = inl (omega (arith, (send_frame-Same m _).stream_count))

    below :
        (f.stream_id == control_stream_id || leb m.max_streams m.stream_count) ≡ false
        → m.stream_count < m.max_streams
    below e = ground arith
