-- ===== src/Examples/Frames.antt =====
-- The frame codec and the receive buffer at concrete inputs.
use wire_rift.Prelude.{ℕ, ◌≡◌, refl, List, [], ◌∷◌, ◌++◌, take, All, none, some, arith}
use wire_rift.Proto.Io.{Error, ok, err, Writer}
use wire_rift.Proto.Frame.{Frame, header, encode, read_frame}
use wire_rift.Proto.Frame.RoundTrip.{IsValid, wire, read_frame-wire}
use wire_rift.Proto.Frame.Stream.{write_frames, read_frames, read_frames-write_frames}
use wire_rift.Proto.Frame.Canonical.{IsByte, read_frame-canonical}
use wire_rift.Proto.Frame.Truncated.{IsEnd, read_frame-truncated}
use wire_rift.Proto.Frame.Writes.{Sent, IsFault, encode-Sent, encode-IsFault}
use wire_rift.Proto.Heartbeat.{
  heartbeat_payload, parse_heartbeat, parse_heartbeat-heartbeat_payload,
}
use wire_rift.Mux.Ring.{RingBuffer, new_ring_buffer}
use wire_rift.Mux.Ring.Inv as Inv
use wire_rift.Mux.Ring.Inv.{contents, new_ring_buffer-IsValid}
use wire_rift.Mux.Ring.Queue
use wire_rift.Mux.Ring.Queue.{put, get, clear}
use wire_rift.Mux.Ring.Refine.{run, run_refines}

abbrev data_frame : Frame
data_frame = record { version = 1; type = 17; stream_id = 2; payload = 7 ∷ 8 ∷ [] }

abbrev close_frame : Frame
close_frame = record { version = 1; type = 18; stream_id = 2; payload = [] }

abbrev old_frame : Frame
old_frame = record { version = 0; type = 18; stream_id = 2; payload = [] }

abbrev wire_bytes : List ℕ
wire_bytes = 1 ∷ 17 ∷ 0 ∷ 0 ∷ 2 ∷ 0 ∷ 0 ∷ 0 ∷ 2 ∷ 7 ∷ 8 ∷ []

abbrev fresh : Writer
fresh = record { sent = []; room = 100 }

data_frame-IsValid : IsValid data_frame
data_frame-IsValid = record { versioned = refl; id_fits = omega arith; payload_fits = omega arith }

close_frame-IsValid : IsValid close_frame
close_frame-IsValid = record { versioned = refl; id_fits = omega arith; payload_fits = omega arith }

data_frame-wire : wire data_frame ≡ wire_bytes
unfolding header
data_frame-wire = refl

read_frames-write_frames_example :
    let (e, w) = write_frames (data_frame ∷ close_frame ∷ []) fresh in
    (e ≡ none) × (read_frames 2 w.sent ≡ (ok (data_frame ∷ close_frame ∷ []), []))
unfolding header
read_frames-write_frames_example =
    read_frames-write_frames (data_frame ∷ close_frame ∷ []) 100
      (data_frame-IsValid, (close_frame-IsValid, tt)) (omega arith)

-- The bytes of a frame followed by others.
read_back : read_frame (wire_bytes ++ (1 ∷ 2 ∷ [])) ≡ (ok data_frame, 1 ∷ 2 ∷ [])
unfolding header
read_back = read_frame-wire data_frame (1 ∷ 2 ∷ []) data_frame-IsValid

few_bytes : All IsByte (wire_bytes ++ (1 ∷ 2 ∷ []))
few_bytes = (
  omega arith,
  (
    omega arith,
    (
      omega arith,
      (
        omega arith,
        (
          omega arith,
          (
            omega arith,
            (
              omega arith,
              (
                omega arith,
                (omega arith, (omega arith, (omega arith, (omega arith, (omega arith, tt))))),
              ),
            ),
          ),
        ),
      ),
    ),
  ),
)

read_frame-canonical_example :
    IsValid data_frame × (wire_bytes ++ (1 ∷ 2 ∷ []) ≡ wire data_frame ++ (1 ∷ 2 ∷ []))
read_frame-canonical_example =
    read_frame-canonical (wire_bytes ++ (1 ∷ 2 ∷ [])) data_frame (1 ∷ 2 ∷ []) few_bytes read_back

read_frame-truncated_example :
    (e : Error) × IsEnd e × (read_frame (take 10 (wire data_frame)) ≡ (err e, []))
unfolding header
read_frame-truncated_example = read_frame-truncated data_frame 10 data_frame-IsValid (omega arith)

encode-Sent_example :
    Sent
      (record { sent = []; room = 10 })
      (wire data_frame)
      (encode data_frame (record { sent = []; room = 10 }))
encode-Sent_example = encode-Sent data_frame (record { sent = []; room = 10 }) data_frame-IsValid

old_frame-invalid : ¬ IsValid old_frame
old_frame-invalid v = omega (arith, v.versioned)

encode-IsFault_example :
    (e : Error) × IsFault old_frame e × (encode old_frame fresh ≡ (some e, fresh))
encode-IsFault_example = encode-IsFault old_frame fresh old_frame-invalid

parse_heartbeat-heartbeat_payload_example :
    parse_heartbeat (heartbeat_payload 1700000000 ++ (9 ∷ [])) ≡ some 1700000000
parse_heartbeat-heartbeat_payload_example =
    parse_heartbeat-heartbeat_payload 1700000000 (9 ∷ []) (omega arith)

-- A buffer of 4 bytes, which may grow to 16 MB.
abbrev small : RingBuffer
small = new_ring_buffer 4

small-IsValid : Inv.IsValid small
small-IsValid = (new_ring_buffer-IsValid 4 (omega arith)).0

abbrev ops : List Queue.Op
ops = put (1 ∷ 2 ∷ 3 ∷ []) ∷ get 2 ∷ put (4 ∷ 5 ∷ 6 ∷ 7 ∷ []) ∷ get 9 ∷ clear ∷ []

run_refines_example : run small ops ≡ Queue.run small.max_size (contents small) ops
run_refines_example = run_refines ops small small-IsValid
