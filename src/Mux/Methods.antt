-- ===== src/Mux/Methods.antt =====
-- internal/mux/stream.go: the methods of a stream that change the multiplexer, one function each.
-- `h` is the stream's handle and `now` the clock in nanoseconds.
use wire_rift.Prelude.{ℕ, ◌+◌, ◌-◌, true, ltb, if◌then◌else◌, List, Option, none, some}
use wire_rift.Proto.Io as Io
use wire_rift.Mux.Stream.{
  Stream, State, active, half_closed_local, half_closed_remote, closed, was_reset, signal_read,
  wake, overruns, buffer_data, add_credit, close_local, close_remote,
}
use wire_rift.Mux.State.{Mux, remove_stream, modify, send_stream_close, send_stream_reset}

-- What the methods write to the fields of their own stream.
abbrev pub touch : ℕ → Stream → Stream
touch now s = record s { last_active = now }

abbrev pub set_timer : Option ℕ → Stream → Stream
set_timer t s = record s { idle_timer = t }

abbrev pub abort : Stream → Stream
abort s = wake (record s { state = was_reset })

abbrev pub end_remote : Stream → Stream
end_remote s = signal_read (record s { state = close_remote s.state })

abbrev pub end_local : Stream → Stream
end_local s = record s { state = close_local s.state; close_once = true }

abbrev pub mark_reset : Stream → Stream
mark_reset s = record s { state = was_reset }

abbrev pub buffer : List ℕ → Stream → Stream
buffer bytes s = buffer_data s bytes

abbrev pub credit_at : ℕ → ℕ → Stream → Stream
credit_at now delta s = add_credit (touch now s) delta

-- A stream whose peer has finished keeps its state when the connection goes away.
abbrev pub cut_off : State → State
cut_off active = was_reset
cut_off half_closed_local = was_reset
cut_off s = s

abbrev pub end_mux : Stream → Stream
end_mux s = wake (record s { state = cut_off s.state })

-- `cleanup`
unfoldable pub cleanup : Mux → ℕ → Mux
cleanup m h = remove_stream (modify m h (set_timer none)) (m.obj h).id

-- `onResetFrame`
unfoldable pub on_reset_frame : Mux → ℕ → Mux
on_reset_frame m h = cleanup (modify m h abort) h

-- `onDataFrame`
unfoldable pub on_data_frame : ℕ → Mux → ℕ → List ℕ → Mux
on_data_frame now m h bytes =
    let m1 = modify m h (touch now) in
    if overruns (m.obj h) bytes
    then cleanup (send_stream_reset (on_reset_frame m1 h) (m.obj h).id).1 h
    else modify m1 h (buffer bytes)

-- `onWindowUpdate`
unfoldable pub on_window_update : ℕ → Mux → ℕ → ℕ → Mux
on_window_update now m h delta = modify m h (credit_at now delta)

-- `onCloseFrame`: the deferred cleanup runs if the local side was closed already.
unfoldable pub after_remote : State → Mux → ℕ → Mux
after_remote half_closed_local m h = cleanup m h
after_remote _ m h = m

unfoldable pub on_close_frame : Mux → ℕ → Mux
on_close_frame m h = after_remote (m.obj h).state (modify m h end_remote) h

-- `onMuxClosed`
unfoldable pub on_mux_closed : Mux → ℕ → Mux
on_mux_closed m h = cleanup (modify m h end_mux) h

-- The non-blocking send of `Reset` and `Close`: nothing is sent on a closed multiplexer.
unfoldable pub unless_done : Mux → Option Io.Error × Mux → Option Io.Error × Mux
unless_done m sent = if m.done then (none, m) else sent

-- `Reset`
unfoldable pub reset : Mux → ℕ → Mux
reset m h =
    let m1 = modify m h abort in cleanup (unless_done m1 (send_stream_reset m1 (m.obj h).id)).1 h

-- `armIdleReaper`
unfoldable pub arm_idle_reaper : ℕ → Mux → ℕ → Mux
arm_idle_reaper now m h =
    let d = m.config.half_close_timeout in
    if ltb 0 d then modify (modify m h (touch now)) h (set_timer (some (now + d))) else m

-- `reapIfIdle`, when the timer fires.
unfoldable pub reap : ℕ → Mux → ℕ → Mux
reap now m h =
    let d = m.config.half_close_timeout in
    let idle = now - (m.obj h).last_active in
    if ltb idle d
    then modify m h (set_timer (some (now + (d - idle))))
    else reset (modify m h mark_reset) h

unfoldable pub reap_if_idle : ℕ → Mux → ℕ → State → Mux
reap_if_idle now m h half_closed_local = reap now m h
reap_if_idle now m h _ = m

-- What `Close` does the first time: the new state, the close frame, and what becomes of the
-- registration.
unfoldable pub settle : State → ℕ → Mux → ℕ → Mux
settle active now m h = m
settle half_closed_remote now m h = m
settle half_closed_local now m h = arm_idle_reaper now m h
settle closed now m h = cleanup m h
settle was_reset now m h = cleanup m h

unfoldable pub close_first : ℕ → Mux → ℕ → Option Io.Error × Mux
close_first now m h =
    let m1 = modify m h end_local in
    let (e, m2) = unless_done m1 (send_stream_close m1 (m.obj h).id) in
    (e, settle (close_local (m.obj h).state) now m2 h)

-- `Close`
unfoldable pub close : ℕ → Mux → ℕ → Option Io.Error × Mux
close now m h = if (m.obj h).close_once then (none, m) else close_first now m h
