-- ===== src/Mux/Ring.antt =====
-- internal/mux/ringbuffer.go: the receive buffer of a stream. Sizes stay far below 2^63, so Go's
-- int is a natural number here; a buffer's lock makes each method one step.
pub mod Slices
pub mod Inv
pub mod Write
pub mod Grow
pub mod Read
pub mod Queue
pub mod Refine
use wire_rift.Prelude.{
  ℕ, zero, suc, ◌+◌, ◌-◌, ◌*◌, ◌%◌, Bool, true, false, not, ◌&&◌, ltb, leb, ◌==◌, if◌then◌else◌,
  List, [], ◌∷◌, ◌++◌, length, take, drop, replicate, Option, none, some,
}

abbrev pub max_ring_buffer_size : ℕ
max_ring_buffer_size = 16777216

pub record RingBuffer : Type 0 where
  pub buf : List ℕ
  pub size : ℕ
  pub max_size : ℕ
  pub r : ℕ
  pub w : ℕ
  pub full : Bool

-- `newRingBuffer`; a size below 1 is the default.
unfoldable pub new_ring_buffer : ℕ → RingBuffer
new_ring_buffer size = record {
  buf = replicate n 0;
  size = n;
  max_size = max_ring_buffer_size;
  r = 0;
  w = 0;
  full = false;
}
  where
    n : ℕ
    n = if size == 0 then 4096 else size

-- `xs[lo:hi]`
abbrev pub slice : ℕ → ℕ → List ℕ → List ℕ
slice lo hi xs = drop lo (take hi xs)

-- `copy(buf[i:i+len(bs)], bs)`, within the buffer.
abbrev pub copy_at : List ℕ → ℕ → List ℕ → List ℕ
copy_at buf i bs = take i buf ++ (bs ++ drop (i + length bs) buf)

-- `lenLocked`
unfoldable pub len : RingBuffer → ℕ
len rb = if rb.full then rb.size else if leb rb.r rb.w then rb.w - rb.r else rb.size - rb.r + rb.w

-- `availableLocked`
unfoldable pub available : RingBuffer → ℕ
available rb = if rb.full then 0 else if leb rb.r rb.w then rb.size - rb.w + rb.r else rb.r - rb.w

-- `isEmptyLocked`
unfoldable pub is_empty : RingBuffer → Bool
is_empty rb = if rb.full then false else rb.r == rb.w

-- The bytes that `growLocked` moves to the front of the new buffer.
unfoldable pub linear : RingBuffer → List ℕ
unfolding len
linear rb =
    if ltb 0 (len rb)
    then if ltb rb.r rb.w then slice rb.r rb.w rb.buf else drop rb.r rb.buf ++ take rb.w rb.buf
    else []

-- `growLocked`
unfoldable pub grow : RingBuffer → ℕ → RingBuffer
grow rb new_size = if leb new_size rb.size then rb else record {
  buf = copy_at (replicate new_size 0) 0 (linear rb);
  size = new_size;
  max_size = rb.max_size;
  r = 0;
  w = len rb;
  full = len rb == new_size;
}

-- The size that `Write` grows to for n bytes which do not fit.
unfoldable pub grown_size : RingBuffer → ℕ → ℕ
grown_size rb n =
    let needed = rb.size + n - available rb in
    let size = if ltb needed (rb.size * 2) then rb.size * 2 else needed in
    if ltb rb.max_size size then rb.max_size else size

unfoldable pub make_room : RingBuffer → ℕ → RingBuffer
make_room rb n = if ltb (available rb) n then grow rb (grown_size rb n) else rb

-- One round of the loop of `Write`: as many of the bytes `d` as fit in one piece.
unfoldable pub chunk_size : RingBuffer → List ℕ → ℕ
chunk_size rb d =
    let space = if leb rb.r rb.w then rb.size - rb.w else rb.r - rb.w in
    if ltb space (length d) then space else length d

unfoldable pub put_chunk : RingBuffer → List ℕ → RingBuffer
put_chunk rb bs =
    let w' = (rb.w + length bs) % rb.size in
    record rb { buf = copy_at rb.buf rb.w bs; w = w'; full = rb.r == w' }

-- The loop of `Write`: `d` is what is left of the data, n the bytes written. A round writes at
-- least one byte, so as much fuel as bytes is enough.
unfoldable pub write_loop : ℕ → RingBuffer → List ℕ → ℕ → ℕ × RingBuffer
unfolding chunk_size put_chunk
write_loop zero rb d n = (n, rb)
write_loop (suc fuel) rb d n =
    let c = chunk_size rb d in
    let rest = write_loop fuel (put_chunk rb (take c d)) (drop c d) (n + c) in
    if ltb 0 (length d) then if rb.full then (n, rb) else rest else (n, rb)

-- `Write`
unfoldable pub write : RingBuffer → List ℕ → ℕ × RingBuffer
write rb d = if length d == 0 then (0, rb) else write_loop (length d) (make_room rb (length d)) d 0

unfoldable pub next_byte : List ℕ → ℕ → ℕ
next_byte [] i = 0
next_byte (x ∷ xs) zero = x
next_byte (x ∷ xs) (suc i) = next_byte xs i

-- The loop of `Read`, with room for k more bytes.
unfoldable pub read_loop : ℕ → RingBuffer → List ℕ × RingBuffer
read_loop zero rb = ([], rb)
read_loop (suc k) rb =
    let rb' = record rb { r = (rb.r + 1) % rb.size; full = false } in
    let (bs, last) = read_loop k rb' in
    if is_empty rb then ([], rb) else (next_byte rb.buf rb.r ∷ bs, last)

-- `Read` into a buffer of k bytes: the bytes read.
unfoldable pub read : RingBuffer → ℕ → List ℕ × RingBuffer
read rb k = if k == 0 then ([], rb) else if is_empty rb then ([], rb) else read_loop k rb

-- `Reset`
unfoldable pub reset : RingBuffer → RingBuffer
reset rb = record rb { r = 0; w = 0; full = false }
