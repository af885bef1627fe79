-- ===== src/Proto/Frame.antt =====
-- internal/proto/frame.go: frames, their encoding and decoding, and the magic bytes.
pub mod RoundTrip
pub mod Writes
pub mod Stream
pub mod Truncated
pub mod Canonical
use Prim.Native.Nat.{bit_or}
use wire_rift.Prelude.{
  ℕ, ◌+◌, ◌*◌, ◌^◌, ◌%◌, Bool, true, false, ◌==◌, ◌!=◌, ltb, leb, if◌then◌else◌, List, [], ◌∷◌,
  ◌++◌, length, Option, none, some,
}
use wire_rift.Proto.Io.{
  Error, invalid_version, invalid_stream_id, payload_too_large, invalid_magic, eof, unexpected_eof,
  Result, ok, err, Reading, done, fail, ◌>>=◌, and_then, read_full, copy_n, Writer, write_bytes,
  byte_at, put_uint32, uint32,
}
use wire_rift.Proto.Types.{FrameType, version, max_stream_id, max_payload_size, header_size, magic}

pub record Frame : Type 0 where
  pub version : ℕ
  pub type : FrameType
  pub stream_id : ℕ
  pub payload : List ℕ

-- The nine bytes that `Encode` puts into the header buffer.
unfoldable pub header : Frame → List ℕ
header f =
    f.version
    ∷ f.type
    ∷ byte_at f.stream_id 16
    ∷ byte_at f.stream_id 8
    ∷ byte_at f.stream_id 0
    ∷ put_uint32 (length f.payload % 2 ^ 32)

-- The second write of `Encode`, made when the first one went through.
unfoldable pub write_payload : List ℕ → Option Error × Writer → Option Error × Writer
write_payload p (some e, w) = (some e, w)
write_payload p (none, w) = if ltb 0 (length p) then write_bytes w p else (none, w)

-- `Frame.Encode`
unfoldable pub encode : Frame → Writer → Option Error × Writer
unfolding header write_payload
encode f w =
    if f.version != version
    then (some invalid_version, w)
    else if ltb max_stream_id f.stream_id
    then (some invalid_stream_id, w)
    else if ltb max_payload_size (length f.payload)
    then (some payload_too_large, w)
    else write_payload f.payload (write_bytes w (header f))

abbrev pub small_payload_size : ℕ
small_payload_size = 65536

-- The branch of `ReadFrame` for a large payload, after `io.CopyN`.
unfoldable pub copied : (List ℕ × Option Error) × List ℕ → Result (List ℕ) × List ℕ
copied ((p, none), r) = (ok p, r)
copied ((p, some eof), r) = (err (if ltb 0 (length p) then unexpected_eof else eof), r)
copied ((p, some e), r) = (err e, r)

unfoldable pub read_payload : ℕ → Reading (List ℕ)
unfolding copied
read_payload n r =
    if ltb 0 n
    then if leb n small_payload_size then read_full n r else copied (copy_n n r)
    else (ok [], r)

-- `ReadFrame` after the header was read. A buffer of another length does not arise.
unfoldable pub read_body : List ℕ → Reading Frame
unfolding read_payload
read_body (v ∷ t ∷ s2 ∷ s1 ∷ s0 ∷ l3 ∷ l2 ∷ l1 ∷ l0 ∷ []) =
    let id = bit_or (bit_or (s2 * 2 ^ 16) (s1 * 2 ^ 8)) s0 in
    let len = uint32 l3 l2 l1 l0 in
    if v != version
    then fail invalid_version
    else if ltb max_payload_size len
    then fail payload_too_large
    else do
      p ← read_payload len
      done (record { version = v; type = t; stream_id = id; payload = p })
read_body _ = fail unexpected_eof

-- `ReadFrame`
unfoldable pub read_frame : Reading Frame
unfolding read_body
read_frame = do h ← read_full header_size; read_body h

-- `WriteMagic` and `ReadMagic`
unfoldable pub write_magic : Writer → Option Error × Writer
write_magic w = write_bytes w magic

-- The loop of `ReadMagic` over the buffer and the magic bytes.
unfoldable pub same_bytes : List ℕ → List ℕ → Bool
same_bytes [] m = true
same_bytes (b ∷ bs) [] = false
same_bytes (b ∷ bs) (m ∷ ms) = if b == m then same_bytes bs ms else false

unfoldable pub read_magic : Reading (Unit {0})
unfolding same_bytes
read_magic = do
  buf ← read_full (length magic)
  if same_bytes buf magic then done tt else fail invalid_magic
