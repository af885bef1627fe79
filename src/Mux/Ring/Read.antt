-- ===== src/Mux/Ring/Read.antt =====
-- The loop of `Read`, byte by byte.
use native.Mathlib.Nat.{mod-eq_of_lt, mod_self}
use wire_rift.Prelude.{
  ℕ, zero, suc, ◌+◌, ◌%◌, ◌<◌, ◌≡◌, refl, ap, ◌∙◌, ◌⊎◌, inl, inr, true, false, List, [], ◌∷◌,
  length, take, drop, arith, dec_lt, length-take, drop_all, Bool-cases, length-zero,
}
use wire_rift.Mux.Ring.{RingBuffer, is_empty, next_byte, read_loop, read}
use wire_rift.Mux.Ring.Inv.{IsValid, contents, length-contents, is_empty_iff}

-- The buffer after one round of the loop.
abbrev popped : RingBuffer → RingBuffer
popped rb = record rb { r = (rb.r + 1) % rb.size; full = false }

drop-next_byte :
    (i : ℕ) (xs : List ℕ) → i < length xs → drop i xs ≡ next_byte xs i ∷ drop (i + 1) xs
unfolding next_byte
drop-next_byte i [] h = absurd (omega arith)
drop-next_byte zero (x ∷ xs) h = refl
drop-next_byte (suc i) (x ∷ xs) h =
    drop-next_byte i xs (omega arith) ∙ ap (λ k. next_byte xs i ∷ drop k (x ∷ xs)) next
  where
    next : suc (i + 1) ≡ suc i + 1
    next = omega arith

next_byte-take : (i n : ℕ) (xs : List ℕ) → i < n → next_byte (take n xs) i ≡ next_byte xs i
unfolding next_byte
next_byte-take i zero xs h = absurd (omega arith)
next_byte-take i (suc n) [] h = refl
next_byte-take zero (suc n) (x ∷ xs) h = refl
next_byte-take (suc i) (suc n) (x ∷ xs) h = next_byte-take i n xs (omega arith)

module _ (rb : RingBuffer) (v : IsValid rb) where
  next_r :
      ((rb.r + 1 ≡ rb.size) × ((rb.r + 1) % rb.size ≡ 0))
      ⊎ ((rb.r + 1 < rb.size) × ((rb.r + 1) % rb.size ≡ rb.r + 1))
  next_r = elim (dec_lt (rb.r + 1) rb.size) [
    | yes h ↦ inr (h, mod-eq_of_lt h)
    | no h ↦ let e : rb.r + 1 ≡ rb.size = omega arith in inl (e, rw e (mod_self rb.size))
  ]

  popped-IsValid : is_empty rb ≡ false → IsValid (popped rb)
  popped-IsValid h = ground (arith, next_r)

  -- The byte that a round takes is the oldest one.
  contents-popped : is_empty rb ≡ false → contents rb ≡ next_byte rb.buf rb.r ∷ contents (popped rb)
  unfolding contents is_empty
  contents-popped h = ground (
    arith,
    next_r,
    drop-next_byte rb.r rb.buf,
    drop-next_byte rb.r (take rb.w rb.buf),
    next_byte-take rb.r rb.w rb.buf,
    length-take rb.w rb.buf,
    drop_all (rb.r + 1) rb.buf,
  )

pub record DidRead (rb : RingBuffer) (k : ℕ) (out : List ℕ × RingBuffer) : Type 0 where
  pub valid : IsValid out.1
  pub bytes : out.0 ≡ take k (contents rb)
  pub rest : contents out.1 ≡ drop k (contents rb)
  pub same_max : out.1.max_size ≡ rb.max_size

contents-empty : (rb : RingBuffer) → IsValid rb → is_empty rb ≡ true → contents rb ≡ []
contents-empty rb v e = length-zero (contents rb) (length-contents rb v ∙ (is_empty_iff rb v).0 e)

nothing-DidRead :
    (rb : RingBuffer) (k : ℕ) → IsValid rb → is_empty rb ≡ true → DidRead rb k ([], rb)
nothing-DidRead rb zero v e = record { valid = v; bytes = refl; rest = refl; same_max = refl }
nothing-DidRead rb (suc k) v e = record {
  valid = v;
  bytes = rw (contents-empty rb v e);
  rest = rw (contents-empty rb v e);
  same_max = refl;
}

round-DidRead :
    (rb : RingBuffer) (k : ℕ) (out : List ℕ × RingBuffer)
    → IsValid rb
    → is_empty rb ≡ false
    → DidRead (popped rb) k out
    → DidRead rb (suc k) (next_byte rb.buf rb.r ∷ out.0, out.1)
round-DidRead rb k out v e t = record {
  valid = t.valid;
  bytes = rw (contents-popped rb v e, t.bytes);
  rest = rw (contents-popped rb v e, t.rest);
  same_max = t.same_max;
}

read_loop-DidRead : (k : ℕ) (rb : RingBuffer) → IsValid rb → DidRead rb k (read_loop k rb)
unfolding read_loop
read_loop-DidRead zero rb v = record { valid = v; bytes = refl; rest = refl; same_max = refl }
read_loop-DidRead (suc k) rb v = elim (Bool-cases (is_empty rb)) [
  | inl e ↦ rw e (nothing-DidRead rb (suc k) v e)
  | inr e ↦
      rw e (round-DidRead rb k _ v e (read_loop-DidRead k (popped rb) (popped-IsValid rb v e)))
]

read-eq-loop : (rb : RingBuffer) (k : ℕ) → read rb k ≡ read_loop k rb
unfolding read read_loop
read-eq-loop rb zero = ground arith
read-eq-loop rb (suc k) = ground arith

-- `Read` of a valid buffer returns the oldest bytes, at most k, in order, removes exactly those,
-- and keeps the invariant and the maximal size.
pub read-DidRead : (rb : RingBuffer) (k : ℕ) → IsValid rb → DidRead rb k (read rb k)
read-DidRead rb k v = rw (read-eq-loop rb k) (read_loop-DidRead k rb v)
