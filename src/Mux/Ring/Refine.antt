-- ===== src/Mux/Ring/Refine.antt =====
-- The buffer refines the bounded queue of its contents.
use wire_rift.Prelude.{ℕ, ◌≡◌, refl, ap₂, ◌∙◌, List, [], ◌∷◌, ◌++◌, length, take, arith}
use wire_rift.Mux.Ring.{RingBuffer, len, write, write_loop, make_room, read, reset}
use wire_rift.Mux.Ring.Inv.{IsValid, contents, length-contents}
use wire_rift.Mux.Ring.Write.{Wrote, write_loop-Wrote}
use wire_rift.Mux.Ring.Grow.{MadeRoom, make_room-MadeRoom}
use wire_rift.Mux.Ring.Read.{read-DidRead}
use wire_rift.Mux.Ring.Queue
use wire_rift.Mux.Ring.Queue.{Op, put, get, clear, Reply, wrote, bytes, cleared}

write-eq-loop :
    (rb : RingBuffer) (d : List ℕ)
    → write rb d ≡ write_loop (length d) (make_room rb (length d)) d 0
unfolding write write_loop make_room
write-eq-loop rb [] = ground arith
write-eq-loop rb (x ∷ xs) = ground arith

-- What `Write` has done: the queue of the contents took the bytes that fit below `max_size`.
pub record DidWrite (rb : RingBuffer) (d : List ℕ) (out : ℕ × RingBuffer) : Type 0 where
  pub valid : IsValid out.1
  pub count : out.0 ≡ (Queue.push rb.max_size (contents rb) d).0
  pub bytes_in : contents out.1 ≡ (Queue.push rb.max_size (contents rb) d).1
  pub same_max : out.1.max_size ≡ rb.max_size

-- `Write` to a valid buffer takes as many bytes as fit below the buffer's maximal size, whatever
-- its present size is, appends them in order, says how many they are and keeps the invariant.
pub write-DidWrite : (rb : RingBuffer) (d : List ℕ) → IsValid rb → DidWrite rb d (write rb d)
unfolding Queue.push
write-DidWrite rb d v = rw (write-eq-loop rb d) (record {
  valid = t.valid;
  count = omega (arith, t.count, m.room, used);
  bytes_in = t.bytes ∙ ap₂ (λ xs k. xs ++ take k d) m.bytes (omega (arith, m.room, used));
  same_max = t.same_max ∙ m.same_max;
})
  where
    m : MadeRoom rb (length d) (make_room rb (length d))
    m = make_room-MadeRoom rb (length d) v

    t : Wrote (make_room rb (length d)) d 0 (write_loop (length d) (make_room rb (length d)) d 0)
    t = write_loop-Wrote (length d) (make_room rb (length d)) d 0 m.valid (omega arith)

    used : length (contents rb) ≡ len rb
    used = length-contents rb v

reset-IsValid :
    (rb : RingBuffer)
    → IsValid rb
    → IsValid (reset rb) × (contents (reset rb) ≡ []) × ((reset rb).max_size ≡ rb.max_size)
unfolding reset contents
reset-IsValid rb v = (ground arith, refl, refl)

pub run : RingBuffer → List Op → List Reply
run rb [] = []
run rb (put d ∷ ops) = let (n, rb') = write rb d in wrote n ∷ run rb' ops
run rb (get k ∷ ops) = let (bs, rb') = read rb k in bytes bs ∷ run rb' ops
run rb (clear ∷ ops) = cleared ∷ run (reset rb) ops

-- No sequence of writes, reads and resets tells a valid buffer from the bounded queue of its
-- contents: neither its present size, nor its growth, nor where its cursors stand can be observed.
pub run_refines :
    (ops : List Op) (rb : RingBuffer)
    → IsValid rb
    → run rb ops ≡ Queue.run rb.max_size (contents rb) ops
unfolding run Queue.run
run_refines [] rb v = refl
run_refines (put d ∷ ops) rb v =
    let t = write-DidWrite rb d v in rw (run_refines ops _ t.valid, t.count, t.bytes_in, t.same_max)
run_refines (get k ∷ ops) rb v =
    let t = read-DidRead rb k v in rw (run_refines ops _ t.valid, t.bytes, t.rest, t.same_max)
run_refines (clear ∷ ops) rb v =
    let (valid, nothing, same) = reset-IsValid rb v in rw (run_refines ops _ valid, nothing, same)
