-- ===== src/Proto/Frame/Writes.antt =====
-- What `Encode` leaves on the connection, whether it succeeds, refuses the frame or breaks off.
use wire_rift.Prelude.{
  ℕ, ◌-◌, ◌≤◌, ◌<◌, ◌≡◌, ◌≢◌, ◌↔◌, List, [], ◌∷◌, ◌++◌, length, take, Option, none, some, arith,
  append_assoc, append-nil, take_all, take-append_ge, take-append_le, ℕ_discrete, dec_lt,
}
use wire_rift.Proto.Io.{
  eof, unexpected_eof, invalid_magic, Error, invalid_version, invalid_stream_id, payload_too_large,
  short_write, Writer, write_bytes,
}
use wire_rift.Proto.Types.{header_size, version, max_stream_id, max_payload_size}
use wire_rift.Proto.Frame.{Frame, header, encode, write_payload}
use wire_rift.Proto.Frame.RoundTrip.{IsValid, wire, length-header, length-wire}

-- What a write of the frame's bytes in one piece would leave.
abbrev pub Sent : Writer → List ℕ → Option Error × Writer → Type 0
Sent w p out = (out.1.sent ≡ w.sent ++ take w.room p) × ((out.0 ≡ none) ↔ (length p ≤ w.room))

write_bytes-Sent : (w : Writer) (p : List ℕ) → Sent w p (write_bytes w p)
unfolding write_bytes
write_bytes-Sent w p = ground (arith, take_all w.room p)

write_payload-Sent : (w : Writer) (p : List ℕ) → Sent w p (write_payload p (none, w))
unfolding write_payload
write_payload-Sent w [] = ground (arith, append-nil w.sent, take_all {A = ℕ} w.room [])
write_payload-Sent w (x ∷ p) = ground (arith, write_bytes-Sent w (x ∷ p))

write_header-broken :
    (w : Writer) (f : Frame)
    → w.room < header_size
    → write_bytes w (header f)
      ≡ (some short_write, record { sent = w.sent ++ take w.room (header f); room = 0 })
unfolding write_bytes
write_header-broken w f h = ground (arith, length-header f)

write_header-ok :
    (w : Writer) (f : Frame)
    → header_size ≤ w.room
    → write_bytes w (header f)
      ≡ (none, record { sent = w.sent ++ header f; room = w.room - header_size })
unfolding write_bytes
write_header-ok w f h = ground (arith, length-header f)

pieces-Sent :
    (w : Writer) (f : Frame) → Sent w (wire f) (write_payload f.payload (write_bytes w (header f)))
unfolding write_payload
pieces-Sent w f = ground (
  arith,
  write_header-broken w f,
  write_header-ok w f,
  write_payload-Sent (record { sent = w.sent ++ header f; room = w.room - header_size }) f.payload,
  length-header f,
  length-wire f,
  take-append_ge w.room (header f) f.payload,
  take-append_le w.room (header f) f.payload,
  append_assoc w.sent (header f) (take (w.room - header_size) f.payload),
)

-- `Encode` of a valid frame sends the frame's bytes, as many as the connection still takes, and
-- reports success exactly when all of them went out.
pub encode-Sent : (f : Frame) (w : Writer) → IsValid f → Sent w (wire f) (encode f w)
unfolding encode
encode-Sent f w v = ground (arith, pieces-Sent w f)

-- What is wrong with a frame, by the error that names it.
abbrev pub IsFault : Frame → Error → Type 0
IsFault f invalid_version = f.version ≢ version
IsFault f invalid_stream_id = (f.version ≡ version) × (max_stream_id < f.stream_id)
IsFault f payload_too_large =
    (f.version ≡ version) × (f.stream_id ≤ max_stream_id) × (max_payload_size < length f.payload)
IsFault f invalid_magic = ⊥
IsFault f eof = ⊥
IsFault f unexpected_eof = ⊥
IsFault f short_write = ⊥

-- `Encode` of a frame that is not valid sends nothing, and names the first of its faults: another
-- version, a stream ID of more than 24 bits, a payload above the limit.
pub encode-IsFault :
    (f : Frame) (w : Writer) → ¬ IsValid f → (e : Error) × IsFault f e × (encode f w ≡ (some e, w))
unfolding encode
encode-IsFault f w bad = elim (ℕ_discrete f.version version) [
  | no v ↦ (invalid_version, v, ground arith)
  | yes v ↦ elim (dec_lt max_stream_id f.stream_id) [
    | yes i ↦ (invalid_stream_id, (v, i), ground arith)
    | no i ↦ elim (dec_lt max_payload_size (length f.payload)) [
      | yes p ↦ (payload_too_large, (v, omega arith, p), ground arith)
      | no p ↦
          absurd (bad (record { versioned = v; id_fits = omega arith; payload_fits = omega arith }))
    ]
  ]
]
