-- ===== src/Mux/Ring/Grow.antt =====
-- `growLocked`: a larger buffer with the same bytes.
use wire_rift.Prelude.{
  dec_lt, lt→ltb, le→ltb, ap₂, ◌⊎◌, ℕ, ◌+◌, ◌-◌, ◌≤◌, ◌<◌, ◌≡◌, refl, ap, sym, ◌∙◌, false, length,
  take, replicate, arith, min, length-zero, take_append, length-replicate,
}
use wire_rift.Mux.Ring.{RingBuffer, copy_at, len, available, linear, grow, grown_size, make_room}
use wire_rift.Mux.Ring.Slices.{length-copied}
use wire_rift.Mux.Ring.Inv.{IsValid, contents, length-contents, available-add-len}

-- What is moved to the new buffer is what the old one held.
linear-eq-contents : (rb : RingBuffer) → IsValid rb → linear rb ≡ contents rb
unfolding linear contents len
linear-eq-contents rb v = ground (arith, length-zero (contents rb), length-contents rb v)

contents_front : (rb : RingBuffer) → rb.full ≡ false → rb.r ≡ 0 → contents rb ≡ take rb.w rb.buf
unfolding contents
contents_front rb f r = ground arith

module _ (rb : RingBuffer) (n : ℕ) (v : IsValid rb) (fits : n ≤ rb.max_size) where
  moved : length (linear rb) ≡ len rb
  moved = ap length (linear-eq-contents rb v) ∙ length-contents rb v

  len-le : len rb ≤ rb.size
  len-le = omega (arith, available-add-len rb v)

  -- The bytes at the front of the new buffer.
  front : len rb ≤ n → take (len rb) (copy_at (replicate n 0) 0 (linear rb)) ≡ linear rb
  front h = take_append (len rb) (linear rb) _ (sym moved)

  new_length : len rb ≤ n → length (copy_at (replicate n 0) 0 (linear rb)) ≡ n
  new_length h =
      length-copied (replicate n 0) (linear rb) 0
        (omega (arith, moved, length-replicate {A = ℕ} n 0))
      ∙ length-replicate n 0

  pub grow-IsValid : IsValid (grow rb n)
  unfolding grow
  grow-IsValid = ground (arith, len-le, new_length)

  new_fields :
      rb.size < n
      → let g = grow rb n in
        (g.full ≡ false)
        × (g.r ≡ 0)
        × (g.w ≡ len rb)
        × (g.buf ≡ copy_at (replicate n 0) 0 (linear rb))
  unfolding grow
  new_fields h = ground (arith, len-le)

  not_grown : n ≤ rb.size → grow rb n ≡ rb
  unfolding grow
  not_grown h = ground arith

  pub contents-grow : contents (grow rb n) ≡ contents rb
  contents-grow = elim (dec_lt rb.size n) [
    | yes h ↦
        let (f, r, w, b) = new_fields h in
        contents_front (grow rb n) f r
        ∙ ap₂ take w b
        ∙ front (omega (arith, len-le))
        ∙ linear-eq-contents rb v
    | no h ↦ ap contents (not_grown (omega arith))
  ]

  pub len-grow : len (grow rb n) ≡ len rb
  len-grow =
      sym (length-contents (grow rb n) grow-IsValid)
      ∙ ap length contents-grow
      ∙ length-contents rb v

  pub size-grow : rb.size < n → ((grow rb n).size ≡ n) × ((grow rb n).max_size ≡ rb.max_size)
  unfolding grow
  size-grow h = ground arith

pub grown_size_bounds :
    (rb : RingBuffer) (n : ℕ)
    → IsValid rb
    → available rb < n
    → (grown_size rb n ≤ rb.max_size)
      × (rb.size ≤ grown_size rb n)
      × ((len rb + n ≤ grown_size rb n) ⊎ (grown_size rb n ≡ rb.max_size))
unfolding grown_size
grown_size_bounds rb n v h = ground (arith, available-add-len rb v)

-- `Write` finds the room that the buffer can ever have: growing hides the current size.
pub record MadeRoom (rb : RingBuffer) (n : ℕ) (out : RingBuffer) : Type 0 where
  pub valid : IsValid out
  pub bytes : contents out ≡ contents rb
  pub room : min n (available out) ≡ min n (rb.max_size - len rb)
  pub same_max : out.max_size ≡ rb.max_size

size_after :
    (rb : RingBuffer) (n : ℕ)
    → IsValid rb
    → n ≤ rb.max_size
    → rb.size ≤ n
    → ((grow rb n).size ≡ n) × ((grow rb n).max_size ≡ rb.max_size)
size_after rb n v fits h = elim (dec_lt rb.size n) [
  | yes more ↦ size-grow rb n v fits more
  | no same ↦ rw (not_grown rb n v fits (omega arith)) (omega arith, refl)
]

grow-MadeRoom :
    (rb : RingBuffer) (n : ℕ)
    → IsValid rb
    → available rb < n
    → MadeRoom rb n (grow rb (grown_size rb n))
grow-MadeRoom rb n v h =
    let g = grown_size rb n in
    let (fits, larger, enough) = grown_size_bounds rb n v h in
    let valid = grow-IsValid rb g v fits in
    record {
      valid = valid;
      bytes = contents-grow rb g v fits;
      room = omega (
        arith,
        available-add-len (grow rb g) valid,
        available-add-len rb v,
        len-grow rb g v fits,
        size_after rb g v fits larger,
        enough,
        larger,
      );
      same_max = (size_after rb g v fits larger).1;
    }

-- What `Write` does before it copies n bytes to a valid buffer keeps the buffered bytes, the
-- invariant and the maximal size, and leaves as much of the n bytes' room as the maximal size
-- allows.
pub make_room-MadeRoom : (rb : RingBuffer) (n : ℕ) → IsValid rb → MadeRoom rb n (make_room rb n)
unfolding make_room
make_room-MadeRoom rb n v = elim (dec_lt (available rb) n) [
  | yes h ↦ rw (lt→ltb (available rb) n h) (grow-MadeRoom rb n v h)
  | no h ↦ rw (le→ltb (available rb) n (omega arith)) (record {
    valid = v;
    bytes = refl;
    room = omega (arith, available-add-len rb v, v.within);
    same_max = refl;
  })
]
