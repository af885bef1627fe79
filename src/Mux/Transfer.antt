-- ===== src/Mux/Transfer.antt =====
-- internal/mux/stream.go: `Read` and `Write` of a stream. A call runs until it returns or has to
-- wait for the peer; a caller that waits calls again when it is woken. Nothing else happens
-- between the rounds of a call here; what may happen is in Mux/Flow.antt.
pub mod Accept
pub mod Outcome
pub mod Sending
use wire_rift.Prelude.{
  ℕ, zero, suc, ◌+◌, ◌-◌, Bool, true, false, ltb, ◌==◌, if◌then◌else◌, maybe, List, [], length,
  take, drop, Option, none, some,
}
use wire_rift.Proto.Io as Io
use wire_rift.Mux.Stream.{
  Stream, State, active, half_closed_local, half_closed_remote, closed, was_reset, take_data, chunk,
  reserve, refund,
}
use wire_rift.Mux.State.{
  Codec, Mux, MuxError, stream_closed, stream_reset, end_of_stream, unexpected_end, frame_error,
  modify, send_data_frame, send_window_update,
}

abbrev pub drained : ℕ → Stream → Stream
drained k s = (take_data s k).1

-- `readFromBuffer`: the error of the window update is dropped by `Read`.
unfoldable pub read_from_buffer : Codec → Mux → ℕ → ℕ → List ℕ × Mux
read_from_buffer c m h k =
    let bytes = (take_data (m.obj h) k).0 in
    let m1 = modify m h (drained k) in
    if ltb 0 (length bytes)
    then (bytes, (send_window_update c m1 (m.obj h).id (length bytes)).1)
    else (bytes, m1)

-- What `Read` returns when the buffer is empty, unless it waits.
unfoldable pub read_verdict : State → Bool → Option MuxError
read_verdict closed mux_done = some end_of_stream
read_verdict half_closed_remote mux_done = some end_of_stream
read_verdict was_reset mux_done = some stream_reset
read_verdict active mux_done = if mux_done then some unexpected_end else none
read_verdict half_closed_local mux_done = if mux_done then some unexpected_end else none

pub data ReadOut : Type 0 where
  returned : List ℕ → Option MuxError → ReadOut
  waiting no_rounds : ReadOut

abbrev pub take_read_token : Stream → Stream
take_read_token s = record s { read_ch = false }

-- The rounds of `Read`. Where both channels are ready, the token is taken first: the next round
-- then finds the multiplexer done.
unfoldable pub read_rounds : ℕ → Codec → Bool → Mux → ℕ → ℕ → ReadOut × Mux
read_rounds zero c mux_done m h k = (no_rounds, m)
read_rounds (suc n) c mux_done m h k =
    let (bytes, m1) = read_from_buffer c m h k in
    let woken = read_rounds n c mux_done (modify m1 h take_read_token) h k in
    let last = read_rounds n c true m1 h k in
    if ltb 0 (length bytes)
    then (returned bytes none, m1)
    else maybe (read_verdict (m.obj h).state mux_done)
        (if (m1.obj h).read_ch then woken else if m1.done then last else (waiting, m1))
        (λ e. (returned [] (some e), m1))

-- `Read`: a token and a closed multiplexer are each seen once, so there are three rounds at most.
unfoldable pub read_stream : Codec → Mux → ℕ → ℕ → ReadOut × Mux
read_stream c m h k = read_rounds 3 c false m h k

-- The states in which `Write` gives up.
unfoldable pub write_verdict : State → Option MuxError
write_verdict closed = some stream_closed
write_verdict half_closed_local = some stream_closed
write_verdict was_reset = some stream_reset
write_verdict active = none
write_verdict half_closed_remote = none

-- `wrote n e` returns; `blocked n` waits for credit, with n bytes sent.
pub data WriteOut : Type 0 where
  wrote : ℕ → Option MuxError → WriteOut
  blocked : ℕ → WriteOut
  out_of_rounds : WriteOut

abbrev pub take_window_token : Stream → Stream
take_window_token s = record s { window_ch = false }

abbrev pub reserving : ℕ → Stream → Stream
reserving n s = reserve s n

abbrev pub refunding : ℕ → Stream → Stream
refunding n s = refund s n

-- A round of `Write` without credit: it waits for a window update or the end of the connection.
abbrev pub no_credit : Mux → ℕ → WriteOut × Mux → ℕ → WriteOut × Mux
no_credit m h woken total =
    if (m.obj h).window_ch
    then woken
    else if m.done
    then (wrote total (some end_of_stream), m)
    else (blocked total, m)

-- The rounds of `Write`, with `total` bytes sent and `bytes` to go.
unfoldable pub write_rounds : ℕ → Mux → ℕ → ℕ → List ℕ → WriteOut × Mux
write_rounds zero m h total bytes = (out_of_rounds, m)
write_rounds (suc n) m h total bytes =
    let s = m.obj h in
    let size = chunk s m.config.max_frame_size (length bytes) in
    let (e, m1) = send_data_frame (modify m h (reserving size)) s.id (take size bytes) in
    let woken = write_rounds n (modify m h take_window_token) h total bytes in
    let rest = write_rounds n m1 h (total + size) (drop size bytes) in
    if length bytes == 0
    then (wrote total none, m)
    else maybe (write_verdict s.state)
        (if s.window == 0
          then no_credit m h woken total
          else maybe e rest
              (λ x. (wrote total (some (frame_error x)), modify m1 h (refunding size))))
        (λ x. (wrote total (some x), m))

-- `Write`: every round sends a byte, but for the last ones, which wait or return.
unfoldable pub write_stream : Mux → ℕ → List ℕ → WriteOut × Mux
write_stream m h bytes =
    maybe (write_verdict (m.obj h).state) (write_rounds (length bytes + 2) m h 0 bytes)
      (λ x. (wrote 0 (some x), m))
