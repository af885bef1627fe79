-- ===== src/Proto/Frame/RoundTrip.antt =====
-- Writing frames and reading them back.
use Prim.Native.Nat.{bit_or}
use wire_rift.Prelude.{
  ℕ, ◌+◌, ◌-◌, ◌*◌, ◌%◌, ◌^◌, ◌≤◌, ◌<◌, ◌≡◌, refl, ap, ◌∙◌, sym, List, [], ◌∷◌, ◌++◌, length, none,
  arith, append_assoc, append-nil, length-append, take_append, drop_append,
}
use wire_rift.Prelude.Bits.{bit_or_shift}
use wire_rift.Proto.Io.{ok, read_full, copy_n, Writer, write_bytes, byte_at, uint32}
use wire_rift.Proto.Types.{version, max_stream_id, max_payload_size, header_size}
use wire_rift.Proto.Frame.{
  Frame, header, encode, write_payload, read_payload, copied, read_body, read_frame,
}

-- What `Encode` accepts.
pub record IsValid (f : Frame) : Type 0 where
  pub versioned : f.version ≡ version
  pub id_fits : f.stream_id ≤ max_stream_id
  pub payload_fits : length f.payload ≤ max_payload_size

-- The bytes of a frame on the connection.
abbrev pub wire : Frame → List ℕ
wire f = header f ++ f.payload

pub length-header : (f : Frame) → length (header f) ≡ header_size
unfolding header
length-header f = refl

pub length-wire : (f : Frame) → length (wire f) ≡ header_size + length f.payload
length-wire f = omega (arith, length-append (header f) f.payload, length-header f)

pub read_full_append :
    (n : ℕ) (xs ys : List ℕ) → n ≡ length xs → read_full n (xs ++ ys) ≡ (ok xs, ys)
unfolding read_full
read_full_append n xs ys h =
    ground (arith, length-append xs ys, take_append n xs ys h, drop_append n xs ys h)

pub copy_n_append :
    (n : ℕ) (xs ys : List ℕ) → n ≡ length xs → copy_n n (xs ++ ys) ≡ ((xs, none), ys)
unfolding copy_n
copy_n_append n xs ys h =
    ground (arith, length-append xs ys, take_append n xs ys h, drop_append n xs ys h)

pub read_payload_append :
    (n : ℕ) (xs ys : List ℕ) → n ≡ length xs → read_payload n (xs ++ ys) ≡ (ok xs, ys)
unfolding read_payload copied
read_payload_append n [] ys h = ground (arith)
read_payload_append n (x ∷ xs) ys h =
    ground (arith, read_full_append n (x ∷ xs) ys h, copy_n_append n (x ∷ xs) ys h)

-- The three bytes of a stream ID give it back.
pub stream_id_bytes :
    (id : ℕ)
    → id ≤ max_stream_id
    → bit_or (bit_or (byte_at id 16 * 2 ^ 16) (byte_at id 8 * 2 ^ 8)) (byte_at id 0) ≡ id
stream_id_bytes id h =
    ap (λ x. bit_or x lo) upper ∙ bit_or_shift 8 (hi * 2 ^ 8 + mid) lo (omega arith) ∙ omega arith
  where
    hi : ℕ
    hi = byte_at id 16

    mid : ℕ
    mid = byte_at id 8

    lo : ℕ
    lo = byte_at id 0

    upper : bit_or (hi * 2 ^ 16) (mid * 2 ^ 8) ≡ (hi * 2 ^ 8 + mid) * 2 ^ 8
    upper = bit_or_shift 16 hi (mid * 2 ^ 8) (omega arith) ∙ omega arith

pub uint32_bytes :
    (n : ℕ) → n < 2 ^ 32 → uint32 (byte_at n 24) (byte_at n 16) (byte_at n 8) (byte_at n 0) ≡ n
uint32_bytes n h = omega arith

read_body-header :
    (f : Frame) (rest : List ℕ)
    → IsValid f
    → read_body (header f) (f.payload ++ rest) ≡ (ok f, rest)
unfolding read_body header
read_body-header f rest v = ground (
  arith,
  stream_id_bytes f.stream_id,
  uint32_bytes (length f.payload % 2 ^ 32),
  read_payload_append (length f.payload) f.payload rest refl,
)

pub read_frame-wire :
    (f : Frame) (rest : List ℕ) → IsValid f → read_frame (wire f ++ rest) ≡ (ok f, rest)
unfolding read_frame
read_frame-wire f rest v =
    rw
      (
        append_assoc (header f),
        read_full_append header_size (header f) (f.payload ++ rest) (sym (length-header f)),
      )
      (read_body-header f rest v)

write_payload-ok :
    (p : List ℕ) (w : Writer)
    → length p ≤ w.room
    → write_payload p (none, w) ≡ (none, record { sent = w.sent ++ p; room = w.room - length p })
unfolding write_payload write_bytes
write_payload-ok [] w h = ground (arith, append-nil w.sent)
write_payload-ok (x ∷ p) w h = ground arith

pub encode-wire :
    (f : Frame) (w : Writer)
    → IsValid f
    → header_size + length f.payload ≤ w.room
    → encode f w
      ≡ (none, record { sent = w.sent ++ wire f; room = w.room - header_size - length f.payload })
unfolding encode write_bytes
encode-wire f w v h = ground (
  arith,
  length-header f,
  append_assoc w.sent (header f) f.payload,
  write_payload-ok f.payload (record { sent = w.sent ++ header f; room = w.room - header_size }),
)
