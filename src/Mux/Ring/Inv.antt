-- ===== src/Mux/Ring/Inv.antt =====
-- The buffer's invariant, and the bytes that it holds.
use wire_rift.Prelude.{
  ℕ, ◌+◌, ◌≤◌, ◌<◌, ◌≡◌, refl, true, false, leb, ◌==◌, if◌then◌else◌, List, [], ◌++◌, length, take,
  drop, arith, length-take, length-drop, length-append, length-replicate,
}
use wire_rift.Mux.Ring.{
  RingBuffer, slice, len, available, is_empty, new_ring_buffer, max_ring_buffer_size,
}

pub record IsValid (rb : RingBuffer) : Type 0 where
  pub sized : length rb.buf ≡ rb.size
  pub positive : 0 < rb.size
  pub within : rb.size ≤ rb.max_size
  pub r_in : rb.r < rb.size
  pub w_in : rb.w < rb.size
  pub met : rb.full ≡ true → rb.r ≡ rb.w

-- The buffered bytes, oldest first.
unfoldable pub contents : RingBuffer → List ℕ
contents rb =
    if rb.full
    then drop rb.r rb.buf ++ take rb.w rb.buf
    else if leb rb.r rb.w
    then slice rb.r rb.w rb.buf
    else drop rb.r rb.buf ++ take rb.w rb.buf

pub length-contents : (rb : RingBuffer) → IsValid rb → length (contents rb) ≡ len rb
unfolding contents len
length-contents rb v = ground (
  arith,
  length-append (drop rb.r rb.buf) (take rb.w rb.buf),
  length-drop rb.r rb.buf,
  length-take rb.w rb.buf,
  length-drop rb.r (take rb.w rb.buf),
)

-- `availableLocked` and `lenLocked` share the buffer out.
pub available-add-len : (rb : RingBuffer) → IsValid rb → available rb + len rb ≡ rb.size
unfolding available len
available-add-len rb v = ground arith

pub is_empty_iff :
    (rb : RingBuffer)
    → IsValid rb
    → (is_empty rb ≡ true → len rb ≡ 0) × (is_empty rb ≡ false → 0 < len rb)
unfolding is_empty len
is_empty_iff rb v = (λ h. ground arith, λ h. ground arith)

pub full_iff :
    (rb : RingBuffer)
    → IsValid rb
    → (rb.full ≡ true → len rb ≡ rb.size) × (rb.full ≡ false → len rb < rb.size)
unfolding len
full_iff rb v = (λ h. ground arith, λ h. ground arith)

pub new_ring_buffer-IsValid :
    (size : ℕ)
    → size ≤ max_ring_buffer_size
    → IsValid (new_ring_buffer size) × (contents (new_ring_buffer size) ≡ [])
unfolding new_ring_buffer contents
new_ring_buffer-IsValid size h =
    (ground (arith, length-replicate {A = ℕ} (if size == 0 then 4096 else size) 0), refl)
