-- ===== src/Proto/Frame/Stream.antt =====
-- A sequence of frames over one connection, by FrameWriter.Write and FrameReader.Read.
use wire_rift.Prelude.{
  ℕ, zero, suc, ◌-◌, ◌≤◌, ◌≡◌, refl, sym, List, [], ◌∷◌, ◌++◌, length, Option, none, some, arith,
  append_assoc, append-nil, length-append, All,
}
use wire_rift.Proto.Io.{Error, ok, Reading, done, ◌>>=◌, Writer}
use wire_rift.Proto.Types.{header_size}
use wire_rift.Proto.Frame.{Frame, encode, read_frame}
use wire_rift.Proto.Frame.RoundTrip.{IsValid, wire, length-wire, encode-wire, read_frame-wire}

-- `FrameWriter.Write` for one frame after the other, up to the first error.
unfoldable pub write_frames : List Frame → Writer → Option Error × Writer
write_frames [] w = (none, w)
write_frames (f ∷ fs) w =
    let (e, w') = encode f w in
    let rest = write_frames fs w' in elim e [ none ↦ rest | some x ↦ (some x, w') ]

-- `FrameReader.Read`, n times, up to the first error.
unfoldable pub read_frames : ℕ → Reading (List Frame)
read_frames zero = done []
read_frames (suc n) = do f ← read_frame; fs ← read_frames n; done (f ∷ fs)

abbrev pub wires : List Frame → List ℕ
wires [] = []
wires (f ∷ fs) = wire f ++ wires fs

write_frames-wires :
    (fs : List Frame) (w : Writer)
    → All IsValid fs
    → length (wires fs) ≤ w.room
    → ((write_frames fs w).0 ≡ none) × ((write_frames fs w).1.sent ≡ w.sent ++ wires fs)
unfolding write_frames
write_frames-wires [] w v h = (refl, sym (append-nil w.sent))
write_frames-wires (f ∷ fs) w v h =
    let w' : Writer = record {
      sent = w.sent ++ wire f;
      room = w.room - header_size - length f.payload;
    } in
    ground (
      arith,
      length-wire f,
      length-append (wire f) (wires fs),
      encode-wire f w,
      write_frames-wires fs w',
      append_assoc w.sent (wire f) (wires fs),
    )

read_frames-wires :
    (fs : List Frame) (rest : List ℕ)
    → All IsValid fs
    → read_frames (length fs) (wires fs ++ rest) ≡ (ok fs, rest)
unfolding read_frames
read_frames-wires [] rest v = refl
read_frames-wires (f ∷ fs) rest v = rw (
  append_assoc (wire f) (wires fs) rest,
  read_frame-wire f (wires fs ++ rest) v.0,
  read_frames-wires fs rest v.1,
)

-- Valid frames written one after the other to a fresh connection with room for them are read back
-- as the same frames, in order, with nothing left over.
pub read_frames-write_frames :
    (fs : List Frame) (room : ℕ)
    → All IsValid fs
    → length (wires fs) ≤ room
    → let (e, w) = write_frames fs (record { sent = []; room = room }) in
      (e ≡ none) × (read_frames (length fs) w.sent ≡ (ok fs, []))
read_frames-write_frames fs room v h =
    let (sent, bytes) = write_frames-wires fs (record { sent = []; room = room }) v h in
    (sent, rw (bytes, ← append-nil (wires fs)) (read_frames-wires fs [] v))
