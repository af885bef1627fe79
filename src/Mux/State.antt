-- ===== src/Mux/State.antt =====
-- internal/mux/mux.go: the state of a `Mux`, the registry of its streams, and sending frames.
-- Stream objects live on a heap: `obj h` is the object with handle h, which stays readable after
-- its stream was removed from the registry. The registry maps stream IDs to handles.
use Prim.Native.String.{String}
use wire_rift.Prelude.{
  maybe, ℕ, ◌+◌, ◌-◌, Bool, false, ◌==◌, if◌then◌else◌, min, List, [], ◌∷◌, Option, none, some,
}
use wire_rift.Proto.Io as Io
use wire_rift.Proto.Io.{Writer}
use wire_rift.Proto.Types.{
  go_away, version, default_window_size, stream_data, stream_close, stream_rst, stream_window,
  control_stream_id,
}
use wire_rift.Proto.Frame.{Frame, encode}
use wire_rift.Mux.Ring.{max_ring_buffer_size}
use wire_rift.Mux.Stream.{Stream, new_stream}

-- The bodies of the JSON frames that the multiplexer reads.
pub record StreamOpen : Type 0 where
  pub tunnel_id : String
  pub stream_id : ℕ
  pub remote_addr : String
  pub protocol : String

pub record StreamWindow : Type 0 where
  pub stream_id : ℕ
  pub delta : ℕ

pub record GoAway : Type 0 where
  pub reason : String
  pub message : String
  pub reconnect_after : ℕ

pub record ErrorFrame : Type 0 where
  pub code : ℕ
  pub message : String

-- encoding/json, as far as the multiplexer uses it: `none` is a payload that does not decode.
pub record Codec : Type 0 where
  pub decode_open : List ℕ → Option StreamOpen
  pub encode_window : StreamWindow → List ℕ
  pub decode_window : List ℕ → Option StreamWindow
  pub encode_go_away : GoAway → List ℕ
  pub decode_go_away : List ℕ → Option GoAway
  pub decode_error : List ℕ → Option ErrorFrame

pub data MuxError : Type 0 where
  mux_closed too_many_streams : MuxError
  stream_closed stream_reset end_of_stream unexpected_end : MuxError
  frame_error : Io.Error → MuxError
  bad_json : MuxError
  peer_error : String → MuxError

-- `Config`, after `New` has put in the defaults. Durations are nanoseconds.
pub record Config : Type 0 where
  pub max_streams : ℕ
  pub window_size : ℕ
  pub max_frame_size : ℕ
  pub half_close_timeout : ℕ

-- `closing` is the error of a failed write, for which `deadlineWriter` has started a close that
-- has not run yet. The channels `accept` and `control_ch` list what waits in them.
pub record Mux : Type 0 where
  pub config : Config
  pub out : Writer
  pub obj : ℕ → Stream
  pub allocated : ℕ
  pub streams : List (ℕ × ℕ)
  pub next_id : ℕ
  pub accept : List ℕ
  pub control_ch : List Frame
  pub done : Bool
  pub err : Option MuxError
  pub closing : Option MuxError
  pub go_away : Option GoAway
  pub stream_count : ℕ
  pub max_streams : ℕ
  pub last_heartbeat : ℕ

abbrev pub accept_capacity : ℕ
accept_capacity = 128

abbrev pub control_capacity : ℕ
control_capacity = 16

-- The defaults of `New`; a count or size that is not positive is 0 here.
unfoldable pub or_default : ℕ → ℕ → ℕ
or_default n d = if n == 0 then d else n

unfoldable pub with_defaults : Config → Config
with_defaults c = record {
  max_streams = or_default c.max_streams 10000;
  window_size = min (or_default c.window_size default_window_size) max_ring_buffer_size;
  max_frame_size = or_default c.max_frame_size 65536;
  half_close_timeout = c.half_close_timeout;
}

-- `New`, over a connection; no handle is allocated yet.
unfoldable pub new_mux : Config → Writer → Mux
new_mux c out = record {
  config = with_defaults c;
  out = out;
  obj = λ _. new_stream 0 0;
  allocated = 0;
  streams = [];
  next_id = 2;
  accept = [];
  control_ch = [];
  done = false;
  err = none;
  closing = none;
  go_away = none;
  stream_count = 0;
  max_streams = (with_defaults c).max_streams;
  last_heartbeat = 0;
}

-- The map of live streams, a sync.Map.
unfoldable pub find : ℕ → List (ℕ × ℕ) → Option ℕ
find id [] = none
find id ((k, h) ∷ m) = if k == id then some h else find id m

unfoldable pub drop_id : ℕ → List (ℕ × ℕ) → List (ℕ × ℕ)
drop_id id [] = []
drop_id id ((k, h) ∷ m) = if k == id then drop_id id m else (k, h) ∷ drop_id id m

-- `getStream`
unfoldable pub get_stream : Mux → ℕ → Option ℕ
get_stream m id = find id m.streams

-- `addStream`
unfoldable pub add_stream : Mux → ℕ → Mux
add_stream m h = record m {
  streams = ((m.obj h).id, h) ∷ drop_id (m.obj h).id m.streams;
  stream_count = m.stream_count + 1;
}

-- `removeStream`
unfoldable pub remove_stream : Mux → ℕ → Mux
remove_stream m id =
    maybe (find id m.streams) m
      λ _. record m { streams = drop_id id m.streams; stream_count = m.stream_count - 1 }

-- A change of one stream object.
abbrev pub modify : Mux → ℕ → (Stream → Stream) → Mux
modify m h f = record m { obj = λ k. if k == h then f (m.obj k) else m.obj k }

-- A new stream object, and its handle.
abbrev pub allocate : Mux → Stream → ℕ × Mux
allocate m s = (
  m.allocated,
  record m { obj = λ k. if k == m.allocated then s else m.obj k; allocated = m.allocated + 1 },
)

-- `FrameWriter.Write` over `deadlineWriter`: a write that breaks off leaves a close to be done.
unfoldable pub send_frame : Mux → Frame → Option Io.Error × Mux
send_frame m f =
    let (e, w) = encode f m.out in
    let m' = record m { out = w } in
    elim e [
      | some Io.short_write ↦
          (some Io.short_write, record m' { closing = some (frame_error Io.short_write) })
      | other ↦ (other, m')
    ]

abbrev pub frame : ℕ → ℕ → List ℕ → Frame
frame t id payload = record { version = version; type = t; stream_id = id; payload = payload }

-- `sendDataFrame`, `sendStreamClose`, `sendStreamReset`, `sendWindowUpdate`
unfoldable pub send_data_frame : Mux → ℕ → List ℕ → Option Io.Error × Mux
send_data_frame m id bytes = send_frame m (frame stream_data id bytes)

unfoldable pub send_stream_close : Mux → ℕ → Option Io.Error × Mux
send_stream_close m id = send_frame m (frame stream_close id [])

unfoldable pub send_stream_reset : Mux → ℕ → Option Io.Error × Mux
send_stream_reset m id = send_frame m (frame stream_rst id [])

unfoldable pub send_window_update : Codec → Mux → ℕ → ℕ → Option Io.Error × Mux
send_window_update c m id delta =
    send_frame m
      (frame stream_window id (c.encode_window (record { stream_id = id; delta = delta })))

-- `SendGoAway`
unfoldable pub send_go_away : Codec → Mux → String → String → Option Io.Error × Mux
send_go_away c m reason message = send_frame m (
    frame go_away control_stream_id
      (c.encode_go_away (record { reason = reason; message = message; reconnect_after = 0 })))
