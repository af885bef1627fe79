-- ===== src/Mux/Ring/Queue.antt =====
-- What a stream expects of its receive buffer: a queue of at most `cap` bytes, oldest first.
use wire_rift.Prelude.{ℕ, ◌-◌, min, List, [], ◌∷◌, ◌++◌, length, take, drop}

pub data Op : Type 0 where
  put : List ℕ → Op
  get : ℕ → Op
  clear : Op

pub data Reply : Type 0 where
  wrote : ℕ → Reply
  bytes : List ℕ → Reply
  cleared : Reply

-- A write takes as many bytes as there is room for, and says how many.
unfoldable pub push : ℕ → List ℕ → List ℕ → ℕ × List ℕ
push cap q d = let n = min (length d) (cap - length q) in (n, q ++ take n d)

unfoldable pub run : ℕ → List ℕ → List Op → List Reply
run cap q [] = []
run cap q (put d ∷ ops) = let (n, q') = push cap q d in wrote n ∷ run cap q' ops
run cap q (get k ∷ ops) = bytes (take k q) ∷ run cap (drop k q) ops
run cap q (clear ∷ ops) = cleared ∷ run cap [] ops
