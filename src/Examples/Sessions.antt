-- ===== src/Examples/Sessions.antt =====
-- Streams and multiplexers at concrete inputs.
use wire_rift.Prelude.{
  All, ℕ, ◌<◌, ◌≤◌, ◌≡◌, ◌≢◌, ◌⊎◌, refl, List, [], ◌∷◌, take, none, some, arith,
}
use wire_rift.Proto.Io.{write_bytes}
use wire_rift.Proto.Frame.{Frame, encode, write_payload, header}
use wire_rift.Mux.Ring.{new_ring_buffer, write}
use wire_rift.Mux.Ring.Inv.{IsValid, contents, new_ring_buffer-IsValid}
use wire_rift.Mux.Stream.{set_metadata, Stream, new_stream, chunk, half_closed_remote}
use wire_rift.Mux.Flow.{
  Link, Reach, here, next, send, deliver, consume, start, after_send, after_deliver, after_consume,
  IsSound,
}
use wire_rift.Mux.Flow.Sound.{Reach-start}
use wire_rift.Mux.State.{
  get_stream, add_stream, find, drop_id, remove_stream, send_stream_close, send_frame, Codec,
  Config, Mux, with_defaults, or_default, new_mux,
}
use wire_rift.Mux.Methods.{on_reset_frame, cleanup, close_first, settle, unless_done, close}
use wire_rift.Mux.Handlers.{
  handle_stream_rst, try_open, register_open, hand_over, alloc_scan, handle_stream_open,
  handle_frame, open_stream,
}
use wire_rift.Mux.Transfer.{read_stream, write_stream}
use wire_rift.Mux.Transfer.Outcome.{read_answer, read_stream-answer}
use wire_rift.Mux.Transfer.Sending.{Balances, write_stream-Balances}
use wire_rift.Mux.Run.{Ended, run, run-Ended}
use wire_rift.Proto.Frame.Canonical.{IsByte}
use wire_rift.Mux.Registry.{IsRegistry}
use wire_rift.Mux.Registry.Ids.{alloc_scan_finds}
use wire_rift.Mux.Registry.Open.{Opened, open_stream-Opened}
use wire_rift.Mux.Registry.Limit.{handle_stream_open-limit}
use wire_rift.Mux.Registry.Handlers.{Leaves, handle_frame-IsRegistry}
use wire_rift.Mux.Registry.Steps.{MuxReach, MuxReach-IsRegistry}
use wire_rift.Mux.Registry.Steps as Steps

-- A window of 8 bytes and frames of at most 4: a send, its delivery, a read, a window update.
abbrev text : List ℕ
text = 1 ∷ 2 ∷ 3 ∷ 4 ∷ 5 ∷ []

abbrev sent_once : Link
sent_once = after_send 4 (start 2 8) text

abbrev delivered : Link
delivered = after_deliver sent_once (1 ∷ 2 ∷ 3 ∷ 4 ∷ []) []

abbrev consumed : Link
consumed = after_consume delivered 3

sent_once-Reach : Reach 4 (start 2 8) sent_once
unfolding start new_stream
sent_once-Reach = next here (send (start 2 8) text (omega arith))

delivered-Reach : Reach 4 (start 2 8) delivered
unfolding start new_stream after_send chunk
delivered-Reach = next sent_once-Reach (deliver sent_once (1 ∷ 2 ∷ 3 ∷ 4 ∷ []) [] refl)

Reach-start_example : IsSound 8 consumed
Reach-start_example = Reach-start 2 (omega arith) (next delivered-Reach (consume delivered 3))

-- Bodies that decode to fixed messages.
abbrev plain : Codec
plain = record {
  decode_open = λ _.
      some
        (record { tunnel_id = "t"; stream_id = 3; remote_addr = "10.0.0.1:80"; protocol = "http" });
  encode_window = λ w. w.stream_id ∷ w.delta ∷ [];
  decode_window = λ _. some (record { stream_id = 3; delta = 5 });
  encode_go_away = λ _. [];
  decode_go_away = λ _. none;
  decode_error = λ _. none;
}

abbrev config : Config
config = record { max_streams = 4; window_size = 0; max_frame_size = 0; half_close_timeout = 60 }

abbrev fresh_mux : Mux
fresh_mux = new_mux config (record { sent = []; room = 1000 })

abbrev open_frame : Frame
open_frame = record { version = 1; type = 16; stream_id = 3; payload = [] }

fresh_mux-IsRegistry : IsRegistry fresh_mux
fresh_mux-IsRegistry =
    MuxReach-IsRegistry plain config (record { sent = []; room = 1000 }) Steps.started

-- A peer's stream, one of our own, and the end of the peer's.
abbrev one_open : Mux
one_open = Steps.after (handle_frame plain 5 fresh_mux open_frame)

abbrev two_open : Mux
two_open = (open_stream one_open).1

MuxReach-IsRegistry_example : IsRegistry (close 9 two_open 0).1
MuxReach-IsRegistry_example =
    MuxReach-IsRegistry plain config (record { sent = []; room = 1000 })
      (Steps.next
        (Steps.next (Steps.next Steps.started (Steps.receive 5 open_frame)) Steps.open_one)
        (Steps.close_stream 9 0))

handle_frame-IsRegistry_example : Leaves IsRegistry (handle_frame plain 5 fresh_mux open_frame)
handle_frame-IsRegistry_example =
    handle_frame-IsRegistry plain 5 fresh_mux open_frame fresh_mux-IsRegistry

open_stream-Opened_example : (id : ℕ) × Opened fresh_mux id (open_stream fresh_mux)
unfolding new_mux with_defaults or_default
open_stream-Opened_example =
    open_stream-Opened fresh_mux 1 fresh_mux-IsRegistry refl refl (omega arith) (omega arith)

handle_stream_open-limit_example :
    Leaves
      (λ m'. (m'.stream_count ≤ fresh_mux.stream_count) ⊎ (m'.stream_count ≤ fresh_mux.max_streams))
      (handle_stream_open plain fresh_mux open_frame)
handle_stream_open-limit_example = handle_stream_open-limit plain fresh_mux open_frame

alloc_scan_finds_example : (alloc_scan 3 ((2, 0) ∷ (4, 1) ∷ []) 2).0 ≢ none
alloc_scan_finds_example =
    alloc_scan_finds 3 ((2, 0) ∷ (4, 1) ∷ []) 2 1 refl (omega arith)
      (((λ e. omega (arith, e)), tt), (tt, tt)) (omega arith)

-- A stream with three bytes to read.
abbrev buffered : Stream
buffered = record (new_stream 2 8) { read_buf = (write (new_ring_buffer 4) (7 ∷ 8 ∷ 9 ∷ [])).1 }

abbrev busy_mux : Mux
busy_mux = record fresh_mux { obj = λ _. buffered }

-- The same with nothing to read, where the peer has closed.
abbrev ended_mux : Mux
ended_mux = record fresh_mux { obj = λ _. record (new_stream 2 8) { state = half_closed_remote } }

-- Whose buffer is new.
ended-IsValid : IsValid (ended_mux.obj 0).read_buf
unfolding new_stream
ended-IsValid = (new_ring_buffer-IsValid 8 (omega arith)).0

read_stream-answer_example :
    (read_stream plain ended_mux 0 2).0
    ≡ read_answer (take 2 (contents (ended_mux.obj 0).read_buf)) half_closed_remote ended_mux.done
unfolding new_stream
read_stream-answer_example = read_stream-answer plain ended_mux 0 2 ended-IsValid

frames_fit : 0 < busy_mux.config.max_frame_size
unfolding new_mux with_defaults or_default
frames_fit = omega arith

write_stream-Balances_example : Balances busy_mux 0 0 5 (write_stream busy_mux 0 text)
write_stream-Balances_example = write_stream-Balances busy_mux 0 text frames_fit

-- An open frame, and then the end of the connection.
abbrev open_bytes : List ℕ
open_bytes = 1 ∷ 16 ∷ 0 ∷ 0 ∷ 3 ∷ 0 ∷ 0 ∷ 0 ∷ 0 ∷ []

open_bytes-All : All IsByte open_bytes
open_bytes-All = (
  omega arith,
  (
    omega arith,
    (
      omega arith,
      (omega arith, (omega arith, (omega arith, (omega arith, (omega arith, (omega arith, tt)))))),
    ),
  ),
)

run-Ended_example : Ended (run plain (λ n. n) fresh_mux open_bytes)
run-Ended_example =
    run-Ended plain (λ n. n) fresh_mux open_bytes open_bytes-All fresh_mux-IsRegistry

-- A peer opens a stream, resets it and opens its ID again: closing the first stream then takes the
-- second one out of the registry.
abbrev reset_frame : Frame
reset_frame = record { version = 1; type = 19; stream_id = 3; payload = [] }

abbrev reopened : Mux
reopened =
    Steps.after
      (handle_frame plain 7 (Steps.after (handle_frame plain 6 one_open reset_frame)) open_frame)

second_stream : get_stream reopened 3 ≡ some 1
unfolding handle_frame handle_stream_open handle_stream_rst try_open register_open hand_over
    get_stream add_stream find drop_id new_mux with_defaults or_default on_reset_frame cleanup
    remove_stream new_stream set_metadata
second_stream = refl

stale_close : get_stream (close 9 reopened 0).1 3 ≡ none
unfolding handle_frame handle_stream_open handle_stream_rst try_open register_open hand_over
    get_stream add_stream find drop_id new_mux with_defaults or_default on_reset_frame cleanup
    remove_stream new_stream set_metadata close close_first settle unless_done send_stream_close
    send_frame encode write_payload write_bytes header
stale_close = refl
