-- ===== src/Mux/Stream.antt =====
-- internal/mux/stream.go: the fields of a `Stream` and what its methods do to them. An atomic
-- field's load and compare-and-swap are one step here, so a compare-and-swap succeeds.
use Prim.Native.String.{String}
use wire_rift.Prelude.{
  ℕ, ◌+◌, ◌-◌, min, Bool, true, false, ltb, if◌then◌else◌, List, length, Option, none,
}
use wire_rift.Mux.Ring.{RingBuffer, new_ring_buffer, len, write, read}

pub data State : Type 0 where
  active half_closed_local half_closed_remote closed was_reset : State

abbrev pub initial_read_buffer : ℕ
initial_read_buffer = 4096

-- A channel of capacity 1 is whether its token is there. The window is an int32 that no method
-- lets fall below 0. Times are nanoseconds; `idle_timer` is when the timer fires, if it is armed.
pub record Stream : Type 0 where
  pub id : ℕ
  pub read_buf : RingBuffer
  pub read_ch : Bool
  pub window : ℕ
  pub max_window : ℕ
  pub window_ch : Bool
  pub state : State
  pub close_once : Bool
  pub last_active : ℕ
  pub idle_timer : Option ℕ
  pub remote_addr : String
  pub protocol : String
  pub tunnel_id : String

-- `newStream`
unfoldable pub new_stream : ℕ → ℕ → Stream
new_stream id window_size = record {
  id = id;
  read_buf = new_ring_buffer (min window_size initial_read_buffer);
  read_ch = false;
  window = window_size;
  max_window = window_size;
  window_ch = false;
  state = active;
  close_once = false;
  last_active = 0;
  idle_timer = none;
  remote_addr = "";
  protocol = "";
  tunnel_id = "";
}

-- `SetMetadata`
unfoldable pub set_metadata : Stream → String → String → String → Stream
set_metadata s addr proto tunnel = record s {
  remote_addr = addr;
  protocol = proto;
  tunnel_id = tunnel;
}

-- The non-blocking sends on `readCh` and `windowCh`.
abbrev pub signal_read : Stream → Stream
signal_read s = record s { read_ch = true }

-- `signalWindow`
abbrev pub signal_window : Stream → Stream
signal_window s = record s { window_ch = true }

-- `wake`
abbrev pub wake : Stream → Stream
wake s = record s { read_ch = true; window_ch = true }

-- The test of `onDataFrame`: more than one window of unread data is a protocol violation.
unfoldable pub overruns : Stream → List ℕ → Bool
overruns s bytes = ltb s.max_window (len s.read_buf + length bytes)

-- The rest of `onDataFrame` on data that is within the window.
unfoldable pub buffer_data : Stream → List ℕ → Stream
buffer_data s bytes = signal_read (record s { read_buf = (write s.read_buf bytes).1 })

-- `onWindowUpdate`: the saturating add.
unfoldable pub add_credit : Stream → ℕ → Stream
add_credit s delta =
    let next = s.window + delta in
    signal_window (record s { window = if ltb s.max_window next then s.max_window else next })

-- The chunk that a round of `Write` sends, with `left` bytes to go and credit in the window.
unfoldable pub chunk : Stream → ℕ → ℕ → ℕ
chunk s max_frame_size left =
    let fit = if ltb s.window left then s.window else left in
    if ltb max_frame_size fit then max_frame_size else fit

-- The reservation that `Write` makes for it, and the wake-up that it passes on.
unfoldable pub reserve : Stream → ℕ → Stream
reserve s c =
    let s' = record s { window = s.window - c } in if ltb 0 s'.window then signal_window s' else s'

-- `Write` gives the reservation back when the frame could not be sent.
unfoldable pub refund : Stream → ℕ → Stream
refund s c = signal_window (record s { window = s.window + c })

-- What `readFromBuffer` takes out of the buffer.
unfoldable pub take_data : Stream → ℕ → List ℕ × Stream
take_data s k = let (bytes, rb) = read s.read_buf k in (bytes, record s { read_buf = rb })

-- `IsClosed`
abbrev pub is_terminal : State → Bool
is_terminal active = false
is_terminal half_closed_local = false
is_terminal half_closed_remote = false
is_terminal closed = true
is_terminal was_reset = true

unfoldable pub is_closed : Stream → Bool
is_closed s = is_terminal s.state

-- The state after `Close` on the local side, and after the peer's close frame.
abbrev pub close_local : State → State
close_local active = half_closed_local
close_local half_closed_remote = closed
close_local s = s

abbrev pub close_remote : State → State
close_remote active = half_closed_remote
close_remote half_closed_local = closed
close_remote s = s
