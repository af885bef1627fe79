-- ===== src/Proto/Frame/Truncated.antt =====
-- A connection that ends inside a frame.
use wire_rift.Prelude.{
  ℕ, min, ◌%◌, ◌^◌, take-append_ge, dec_lt, ◌-◌, ◌≤◌, ◌<◌, ◌≡◌, refl, sym, ◌⊎◌, inl, inr, List, [],
  ◌∷◌, ◌++◌, length, take, arith, length-take,
}
use wire_rift.Proto.Io.{Error, eof, unexpected_eof, ok, err, read_full, copy_n}
use wire_rift.Proto.Types.{header_size}
use wire_rift.Proto.Frame.{Frame, header, read_payload, copied, read_body, read_frame}
use wire_rift.Proto.Frame.RoundTrip.{
  IsValid, wire, read_full_append, length-header, length-wire, uint32_bytes,
}

abbrev pub IsEnd : Error → Type 0
IsEnd e = (e ≡ eof) ⊎ (e ≡ unexpected_eof)

read_full-short :
    (n : ℕ) (r : List ℕ) → length r < n → (e : Error) × IsEnd e × (read_full n r ≡ (err e, []))
unfolding read_full
read_full-short n [] h = (eof, inl refl, ground arith)
read_full-short n (x ∷ r) h = (unexpected_eof, inr refl, ground arith)

read_payload-short :
    (n : ℕ) (r : List ℕ) → length r < n → (e : Error) × IsEnd e × (read_payload n r ≡ (err e, []))
unfolding read_payload read_full copied copy_n
read_payload-short n [] h = (eof, inl refl, ground arith)
read_payload-short n (x ∷ r) h = (unexpected_eof, inr refl, ground arith)

read_body-short :
    (f : Frame) (r : List ℕ)
    → IsValid f
    → length r < length f.payload
    → (e : Error) × IsEnd e × (read_body (header f) r ≡ (err e, []))
unfolding read_body header
read_body-short f r v h =
    let (e, ends, q) = read_payload-short (length f.payload) r h in
    (e, ends, ground (arith, uint32_bytes (length f.payload % 2 ^ 32)))

take-wire :
    (f : Frame) (n : ℕ)
    → header_size ≤ n
    → take n (wire f) ≡ header f ++ take (n - header_size) f.payload
unfolding header
take-wire f n h = take-append_ge n (header f) f.payload h

-- A valid frame that the connection cuts short is never taken for another one: the reader ends with
-- io.EOF or io.ErrUnexpectedEOF.
pub read_frame-truncated :
    (f : Frame) (n : ℕ)
    → IsValid f
    → n < length (wire f)
    → (e : Error) × IsEnd e × (read_frame (take n (wire f)) ≡ (err e, []))
unfolding read_frame
read_frame-truncated f n v h = elim (dec_lt n header_size) [
  | yes short ↦
      let (e, ends, q) =
        read_full-short header_size (take n (wire f)) (omega (arith, length-take n (wire f))) in
      (e, ends, rw q)
  | no long ↦
      let (e, ends, q) = read_body-short f tail v (omega (arith, tail_short, length-wire f)) in
      (e, ends, rw (take-wire f n (omega arith), whole) q)
]
  where
    tail : List ℕ
    tail = take (n - header_size) f.payload

    tail_short : length tail ≡ min (n - header_size) (length f.payload)
    tail_short = length-take (n - header_size) f.payload

    whole : read_full header_size (header f ++ tail) ≡ (ok (header f), tail)
    whole = read_full_append header_size (header f) tail (sym (length-header f))
