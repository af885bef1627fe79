-- ===== src/Proto/Frame/Canonical.antt =====
-- What `ReadFrame` accepts is exactly what `Encode` writes.
use Prim.Native.Nat.{bit_or}
use wire_rift.Prelude.{
  ℕ, ◌+◌, ◌*◌, ◌^◌, ◌<◌, ◌≡◌, refl, ap, ◌∙◌, sym, List, [], ◌∷◌, ◌++◌, length, arith, append_assoc,
  take-append-drop, length-take, All, All-append_left,
}
use wire_rift.Prelude.Bits.{bit_or_shift}
use wire_rift.Proto.Io.{Result, ok, err, read_full, copy_n, and_then, uint32}
use wire_rift.Proto.Types.{header_size}
use wire_rift.Proto.Frame.{Frame, header, read_payload, copied, read_body, read_frame}
use wire_rift.Proto.Frame.RoundTrip.{IsValid, wire}

abbrev pub IsByte : ℕ → Type 0
IsByte b = b < 256

pub and_then-ok {ℓ κ} :
    {A : Type ℓ} {B : Type κ} (m : Result A × List ℕ) (f : A → List ℕ → Result B × List ℕ) {b : B}
    {rest : List ℕ}
    → and_then m f ≡ (ok b, rest)
    → (a : A) × (r : List ℕ) × (m ≡ (ok a, r)) × (f a r ≡ (ok b, rest))
and_then-ok (ok a, r) f h = (a, r, refl, h)
and_then-ok (err e, r) f h = cc

pub read_full-ok :
    (n : ℕ) (r xs ys : List ℕ) → read_full n r ≡ (ok xs, ys) → (r ≡ xs ++ ys) × (length xs ≡ n)
unfolding read_full
read_full-ok n r xs ys h = ground (arith, take-append-drop n r, length-take n r)

read_payload-ok :
    (n : ℕ) (r xs ys : List ℕ) → read_payload n r ≡ (ok xs, ys) → (r ≡ xs ++ ys) × (length xs ≡ n)
unfolding read_payload copied copy_n
read_payload-ok n r xs ys h =
    ground (arith, take-append-drop n r, length-take n r, read_full-ok n r xs ys)

-- The stream ID as the header's bytes spell it.
stream_id_value :
    (a b c : ℕ)
    → IsByte b
    → IsByte c
    → bit_or (bit_or (a * 2 ^ 16) (b * 2 ^ 8)) c ≡ a * 2 ^ 16 + b * 2 ^ 8 + c
stream_id_value a b c hb hc =
    ap (λ x. bit_or x c) upper ∙ bit_or_shift 8 (a * 2 ^ 8 + b) c (omega arith) ∙ omega arith
  where
    upper : bit_or (a * 2 ^ 16) (b * 2 ^ 8) ≡ (a * 2 ^ 8 + b) * 2 ^ 8
    upper = bit_or_shift 16 a (b * 2 ^ 8) (omega arith) ∙ omega arith

read_body-ok :
    (h r : List ℕ) (f : Frame) (rest : List ℕ)
    → length h ≡ header_size
    → All IsByte h
    → read_body h r ≡ (ok f, rest)
    → IsValid f × (h ≡ header f) × (r ≡ f.payload ++ rest)
unfolding read_body header
read_body-ok (v ∷ t ∷ s2 ∷ s1 ∷ s0 ∷ l3 ∷ l2 ∷ l1 ∷ l0 ∷ []) r f rest len bytes e =
    ground (arith, stream_id_value s2 s1 s0, read_payload-ok (uint32 l3 l2 l1 l0) r f.payload rest)
read_body-ok _ r f rest len bytes e = absurd (omega arith)

join :
    (h r' : List ℕ) (f : Frame) (rest : List ℕ)
    → length h ≡ header_size
    → All IsByte (h ++ r')
    → read_body h r' ≡ (ok f, rest)
    → IsValid f × (h ++ r' ≡ wire f ++ rest)
join h r' f rest len bytes e =
    let (v, eh, er) = read_body-ok h r' f rest len (All-append_left IsByte h r' bytes) e in
    (v, rw (eh, er) (sym (append_assoc (header f) f.payload rest)))

-- Where `ReadFrame` gives a frame on an input of bytes, the frame is valid, and the input is the
-- frame's encoding followed by what was not read.
pub read_frame-canonical :
    (r : List ℕ) (f : Frame) (rest : List ℕ)
    → All IsByte r
    → read_frame r ≡ (ok f, rest)
    → IsValid f × (r ≡ wire f ++ rest)
unfolding read_frame
read_frame-canonical r f rest bytes e =
    let (h, r', e1, e2) = and_then-ok (read_full header_size r) read_body e in
    let (split, len) = read_full-ok header_size r h r' e1 in
    let (v, bytes_of) = join h r' f rest len (rw split at bytes) e2 in (v, split ∙ bytes_of)
