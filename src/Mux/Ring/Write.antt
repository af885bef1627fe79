-- ===== src/Mux/Ring/Write.antt =====
-- The loop of `Write`, round by round.
use native.Mathlib.Nat.{mod-eq_of_lt, mod_self}
use wire_rift.Prelude.{
  dec_lt, ◌⊎◌, inl, inr, ℕ, zero, suc, ◌+◌, ◌-◌, ◌%◌, ◌≤◌, ◌<◌, ◌≡◌, refl, ap, sym, ◌∙◌, false, leb,
  if◌then◌else◌, List, ◌++◌, length, take, drop, arith, length-take, length-drop, length-append,
  min, append_assoc, append-nil,
}
use wire_rift.Mux.Ring.{RingBuffer, available, chunk_size, put_chunk, write_loop}
use wire_rift.Mux.Ring.Slices.{
  take-add, take-copied, drop-copied_ge, drop-copied_le, copied_end, length-copied,
}
use wire_rift.Mux.Ring.Inv.{IsValid, contents, length-contents, available-add-len}

-- The free bytes from the write cursor on, in one piece.
abbrev pub space : RingBuffer → ℕ
space rb = if leb rb.r rb.w then rb.size - rb.w else rb.r - rb.w

module _ (rb : RingBuffer) (c : List ℕ) (v : IsValid rb) (open_ : rb.full ≡ false)
    (some_ : 0 < length c) (fits : length c ≤ space rb) where
  fits_buf : rb.w + length c ≤ length rb.buf
  fits_buf = ground arith

  -- The write cursor moves on, or goes back to the start of the buffer.
  next_w :
      ((rb.w + length c ≡ rb.size) × ((rb.w + length c) % rb.size ≡ 0))
      ⊎ ((rb.w + length c < rb.size) × ((rb.w + length c) % rb.size ≡ rb.w + length c))
  next_w = elim (dec_lt (rb.w + length c) rb.size) [
    | yes h ↦ inr (h, mod-eq_of_lt h)
    | no h ↦ let e : rb.w + length c ≡ rb.size = ground arith in inl (e, rw e (mod_self rb.size))
  ]

  pub put_chunk-IsValid : IsValid (put_chunk rb c)
  unfolding put_chunk
  put_chunk-IsValid = ground (arith, length-copied rb.buf c rb.w fits_buf)

  pub contents-put_chunk : contents (put_chunk rb c) ≡ contents rb ++ c
  unfolding put_chunk contents
  contents-put_chunk = ground (
    arith,
    next_w,
    take-copied rb.buf c rb.w fits_buf,
    drop-copied_ge rb.buf c rb.w fits_buf rb.r,
    drop-copied_le rb.buf c rb.w fits_buf rb.r,
    copied_end rb.buf c rb.w fits_buf,
    append_assoc (drop rb.r rb.buf) (take rb.w rb.buf) c,
    append-nil (drop rb.r (take rb.w rb.buf ++ c)),
    append-nil (take rb.w rb.buf ++ c),
  )

size-put_chunk : (rb : RingBuffer) (c : List ℕ) → (put_chunk rb c).size ≡ rb.size
unfolding put_chunk
size-put_chunk rb c = refl

max_size-put_chunk : (rb : RingBuffer) (c : List ℕ) → (put_chunk rb c).max_size ≡ rb.max_size
unfolding put_chunk
max_size-put_chunk rb c = refl

-- A round leaves as much less room as it wrote.
available-put_chunk :
    (rb : RingBuffer) (c : List ℕ)
    → IsValid rb
    → rb.full ≡ false
    → 0 < length c
    → length c ≤ space rb
    → available (put_chunk rb c) + length c ≡ available rb
available-put_chunk rb c v o s f = omega (
  arith,
  available-add-len rb v,
  available-add-len (put_chunk rb c) (put_chunk-IsValid rb c v o s f),
  length-contents rb v,
  length-contents (put_chunk rb c) (put_chunk-IsValid rb c v o s f),
  ap length (contents-put_chunk rb c v o s f),
  length-append (contents rb) c,
  size-put_chunk rb c,
)

-- What the loop has done when it stops, started with n bytes written.
pub record Wrote (rb : RingBuffer) (d : List ℕ) (n : ℕ) (out : ℕ × RingBuffer) : Type 0 where
  pub valid : IsValid out.1
  pub count : out.0 ≡ n + min (length d) (available rb)
  pub bytes : contents out.1 ≡ contents rb ++ take (min (length d) (available rb)) d
  pub same_max : out.1.max_size ≡ rb.max_size

write_loop-stops :
    (fuel : ℕ) (rb : RingBuffer) (d : List ℕ) (n : ℕ)
    → IsValid rb
    → min (length d) (available rb) ≡ 0
    → write_loop (suc fuel) rb d n ≡ (n, rb)
unfolding write_loop available
write_loop-stops fuel rb d n v h = ground arith

write_loop-goes :
    (fuel : ℕ) (rb : RingBuffer) (d : List ℕ) (n : ℕ)
    → IsValid rb
    → 0 < min (length d) (available rb)
    → let c = chunk_size rb d in
      (rb.full ≡ false)
      × (0 < c)
      × (c ≤ space rb)
      × (c ≤ length d)
      × (write_loop (suc fuel) rb d n
          ≡ write_loop fuel (put_chunk rb (take c d)) (drop c d) (n + c))
unfolding write_loop available chunk_size
write_loop-goes fuel rb d n v h = ground arith

nothing-Wrote :
    (rb : RingBuffer) (d : List ℕ) (n : ℕ)
    → IsValid rb
    → min (length d) (available rb) ≡ 0
    → Wrote rb d n (n, rb)
nothing-Wrote rb d n v h = record {
  valid = v;
  count = omega arith;
  bytes = rw h (sym (append-nil (contents rb)));
  same_max = refl;
}

-- One round before a loop that has done its work.
round-Wrote :
    (rb : RingBuffer) (d : List ℕ) (n c : ℕ) (out : ℕ × RingBuffer)
    → IsValid rb
    → rb.full ≡ false
    → 0 < c
    → c ≤ space rb
    → c ≤ length d
    → Wrote (put_chunk rb (take c d)) (drop c d) (n + c) out
    → Wrote rb d n out
round-Wrote rb d n c out v o pos f l t = record {
  valid = t.valid;
  count = omega (arith, t.count, rest_length, room, one);
  bytes = t.bytes ∙ grown;
  same_max = t.same_max ∙ max_size-put_chunk rb (take c d);
}
  where
    one : length (take c d) ≡ c
    one = omega (arith, length-take c d)

    rest_length : length (drop c d) ≡ length d - c
    rest_length = length-drop c d

    room : available (put_chunk rb (take c d)) + length (take c d) ≡ available rb
    room = available-put_chunk rb (take c d) v o (omega (arith, one)) (omega (arith, one))

    later : ℕ
    later = min (length (drop c d)) (available (put_chunk rb (take c d)))

    split : take (min (length d) (available rb)) d ≡ take c d ++ take later (drop c d)
    split = ap (λ k. take k d) (omega (arith, rest_length, room, one)) ∙ take-add c later d

    grown :
        contents (put_chunk rb (take c d)) ++ take later (drop c d)
        ≡ contents rb ++ take (min (length d) (available rb)) d
    grown =
        ap (λ xs. xs ++ take later (drop c d))
          (contents-put_chunk rb (take c d) v o (omega (arith, one)) (omega (arith, one)))
        ∙ append_assoc (contents rb) (take c d) (take later (drop c d))
        ∙ ap (λ xs. contents rb ++ xs) (sym split)

pub write_loop-Wrote :
    (fuel : ℕ) (rb : RingBuffer) (d : List ℕ) (n : ℕ)
    → IsValid rb
    → length d ≤ fuel
    → Wrote rb d n (write_loop fuel rb d n)
unfolding write_loop
write_loop-Wrote zero rb d n v h = nothing-Wrote rb d n v (omega arith)
write_loop-Wrote (suc fuel) rb d n v h = elim (dec_lt 0 (min (length d) (available rb))) [
  | yes p ↦
      let (o, pos, f, l, e) = write_loop-goes fuel rb d n v p in
      let c = chunk_size rb d in
      rw e (
        round-Wrote rb d n c _ v o pos f l (
          write_loop-Wrote fuel (put_chunk rb (take c d)) (drop c d) (n + c)
            (put_chunk-IsValid rb (take c d) v o (omega (arith, length-take c d))
              (omega (arith, length-take c d)))
            (omega (arith, length-drop c d))))
  | no p ↦ rw (write_loop-stops fuel rb d n v (omega arith)) (nothing-Wrote rb d n v (omega arith))
]
