-- ===== src/Mux/Handlers.antt =====
-- internal/mux/mux.go: opening and accepting streams, the frame handlers, the read loop, closing.
use wire_rift.Prelude.{
  maybe, ℕ, zero, suc, ◌+◌, true, ltb, leb, ◌==◌, ◌||◌, ◌⊎◌, inl, inr, if◌then◌else◌, List, [], ◌∷◌,
  ◌++◌, length, Option, none, some,
}
use wire_rift.Proto.Types as Types
use wire_rift.Proto.Types.{control_stream_id, max_stream_id}
use wire_rift.Proto.Frame.{Frame}
use wire_rift.Mux.Stream.{Stream, new_stream, set_metadata}
use wire_rift.Mux.State.{
  Codec, Mux, MuxError, StreamOpen, mux_closed, too_many_streams, frame_error, bad_json, peer_error,
  accept_capacity, control_capacity, find, get_stream, add_stream, allocate, send_frame, frame,
  send_stream_reset,
}
use wire_rift.Mux.Methods.{
  on_data_frame, on_window_update, on_close_frame, on_reset_frame, on_mux_closed, reset,
}

-- `maxLocalStreamID`: the largest even ID.
abbrev pub max_local_stream_id : ℕ
max_local_stream_id = 16777214

-- The wrap of `allocIDLocked` to the even IDs from 2 on.
unfoldable pub usable_id : ℕ → ℕ
usable_id n = if (ltb n 2 || ltb max_local_stream_id n) then 2 else n

-- The scan of `allocIDLocked`, with `tries` rounds left: the ID, and the new `nextID`.
unfoldable pub alloc_scan : ℕ → List (ℕ × ℕ) → ℕ → Option ℕ × ℕ
alloc_scan zero live next = (none, next)
alloc_scan (suc tries) live next =
    let id = usable_id next in
    let rest = alloc_scan tries live (id + 2) in
    elim (find id live) [ none ↦ (some id, id + 2) | some _ ↦ rest ]

-- `allocIDLocked`
unfoldable pub alloc_id : Mux → Option ℕ × Mux
alloc_id m =
    let (id, next) = alloc_scan (m.max_streams + 2) m.streams m.next_id in
    (id, record m { next_id = next })

-- The registration of a new stream under the ID that was found.
unfoldable pub open_with : Mux → ℕ → (MuxError ⊎ ℕ) × Mux
open_with m id =
    let (h, m1) = allocate m (new_stream id m.config.window_size) in (inr h, add_stream m1 h)

-- `OpenStream`: the handle of the new stream.
unfoldable pub open_stream : Mux → (MuxError ⊎ ℕ) × Mux
open_stream m =
    if m.done
    then (inl mux_closed, m)
    else if leb m.max_streams m.stream_count
    then (inl too_many_streams, m)
    else let (id, m1) = alloc_id m in maybe id (inl too_many_streams, m1) (open_with m1)

-- `SetMaxStreams`
unfoldable pub set_max_streams : Mux → ℕ → Mux
set_max_streams m n = record m { max_streams = n }

-- `closeWithError`: every registered stream is told, and the connection takes no more.
unfoldable pub close_all : List (ℕ × ℕ) → Mux → Mux
close_all [] m = m
close_all ((id, h) ∷ rest) m = close_all rest (on_mux_closed m h)

unfoldable pub close_with_error : Mux → MuxError → Mux
close_with_error m e =
    if m.done
    then m
    else let m1 = record m { err = some e; done = true } in
      let m2 = close_all m.streams m1 in record m2 { out = record m2.out { room = 0 } }

-- The close that `deadlineWriter` started.
unfoldable pub close_pending : Mux → Mux
close_pending m = maybe m.closing m (λ e. close_with_error (record m { closing = none }) e)

-- A handler gives the error that ends the read loop, or the new state. `stuck` is a handler that
-- waits for room in the control channel, with the frame still to be delivered.
pub data Handled : Type 0 where
  go_on : Mux → Handled
  stop : MuxError → Mux → Handled
  stuck : Mux → Handled

-- The hand-over to `AcceptStream`: a full backlog resets the stream.
unfoldable pub hand_over : Mux → ℕ → Mux
hand_over m h =
    if ltb (length m.accept) accept_capacity
    then record m { accept = m.accept ++ (h ∷ []) }
    else reset m h

-- The part of `handleStreamOpen` that registers the stream and hands it to `AcceptStream`.
unfoldable pub register_open : Mux → Stream → Mux
register_open m s = let (h, m1) = allocate m s in hand_over (add_stream m1 h) h

unfoldable pub refuse : Mux → ℕ → Handled
refuse m id = go_on (send_stream_reset m id).1

-- `handleStreamOpen` after the message was decoded.
unfoldable pub try_open : Mux → ℕ → StreamOpen → Handled
try_open m id msg =
    if id == control_stream_id || leb m.max_streams m.stream_count
    then refuse m id
    else maybe (get_stream m id)
        (go_on (
          register_open m (
            set_metadata (new_stream id m.config.window_size) msg.remote_addr msg.protocol
              msg.tunnel_id)))
        (λ _. refuse m id)

module _ (c : Codec) where
  -- `handleStreamOpen`
  unfoldable pub handle_stream_open : Mux → Frame → Handled
  handle_stream_open m f =
      maybe (c.decode_open f.payload) (stop bad_json m) (λ msg. try_open m f.stream_id msg)

  -- `handleStreamWindow`
  unfoldable pub handle_stream_window : ℕ → Mux → Frame → Handled
  handle_stream_window now m f = maybe (c.decode_window f.payload) (stop bad_json m) λ msg.
      maybe (get_stream m msg.stream_id) (go_on m) (λ h. go_on (on_window_update now m h msg.delta))

  -- `handleGoAway`
  unfoldable pub handle_go_away : Mux → Frame → Handled
  handle_go_away m f =
      maybe (c.decode_go_away f.payload) (go_on (close_with_error m mux_closed))
        (λ ga. go_on (close_with_error (record m { go_away = some ga }) mux_closed))

  -- `handleError`
  unfoldable pub handle_error : Mux → Frame → Handled
  handle_error m f =
      maybe (c.decode_error f.payload) (stop bad_json m) (λ msg. stop (peer_error msg.message) m)

-- `handleStreamData`
unfoldable pub handle_stream_data : ℕ → Mux → Frame → Handled
handle_stream_data now m f =
    maybe (get_stream m f.stream_id) (refuse m f.stream_id)
      (λ h. go_on (on_data_frame now m h f.payload))

-- `handleStreamClose`
unfoldable pub handle_stream_close : Mux → Frame → Handled
handle_stream_close m f =
    maybe (get_stream m f.stream_id) (go_on m) (λ h. go_on (on_close_frame m h))

-- `handleStreamRst`
unfoldable pub handle_stream_rst : Mux → Frame → Handled
handle_stream_rst m f = maybe (get_stream m f.stream_id) (go_on m) (λ h. go_on (on_reset_frame m h))

-- `handleHeartbeat`
unfoldable pub handle_heartbeat : ℕ → Mux → Frame → Handled
handle_heartbeat now m f =
    let (e, m1) =
      send_frame (record m { last_heartbeat = now }) (frame Types.heartbeat_ack 0 f.payload) in
    maybe e (go_on m1) (λ x. stop (frame_error x) m1)

-- `handleHeartbeatAck`
unfoldable pub handle_heartbeat_ack : ℕ → Mux → Handled
handle_heartbeat_ack now m = go_on (record m { last_heartbeat = now })

-- `handleControlFrame`
unfoldable pub handle_control_frame : Mux → Frame → Handled
handle_control_frame m f =
    if m.done
    then stop mux_closed m
    else if ltb (length m.control_ch) control_capacity
    then go_on (record m { control_ch = m.control_ch ++ (f ∷ []) })
    else stuck m

-- `handleFrame`
unfoldable pub handle_frame : Codec → ℕ → Mux → Frame → Handled
handle_frame c now m f =
    let t = f.type in
    if t == Types.stream_open
    then handle_stream_open c m f
    else if t == Types.stream_data
    then handle_stream_data now m f
    else if t == Types.stream_close
    then handle_stream_close m f
    else if t == Types.stream_rst
    then handle_stream_rst m f
    else if t == Types.stream_window
    then handle_stream_window c now m f
    else if t == Types.heartbeat
    then handle_heartbeat now m f
    else if t == Types.heartbeat_ack
    then handle_heartbeat_ack now m
    else if t == Types.go_away
    then handle_go_away c m f
    else if t == Types.error_frame
    then handle_error c m f
    else if (t == Types.auth_req
        || t == Types.auth_res
        || t == Types.tunnel_req
        || t == Types.tunnel_res
        || t == Types.tunnel_close)
    then handle_control_frame m f
    else go_on m
