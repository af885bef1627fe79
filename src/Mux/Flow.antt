-- ===== src/Mux/Flow.antt =====
-- One direction of a stream between two peers: the sender's `Write` rounds, the data frames on
-- the connection, the receiver's buffer, and the window updates on their way back.
pub mod Sound
use wire_rift.Prelude.{
  ℕ, zero, suc, ◌+◌, ◌-◌, ◌≤◌, ◌<◌, ◌≡◌, refl, ap, sym, ◌∙◌, Bool, true, false, ltb, if◌then◌else◌,
  List, [], ◌∷◌, ◌++◌, length, take, drop, arith, append_assoc, append-nil, length-append,
  length-take, length-drop, min,
}
use wire_rift.Mux.Ring.{max_ring_buffer_size, len}
use wire_rift.Mux.Ring.Inv.{IsValid, contents, length-contents, new_ring_buffer-IsValid}
use wire_rift.Mux.Ring.Read.{read-DidRead}
use wire_rift.Mux.Ring.Refine.{write-DidWrite}
use wire_rift.Mux.Ring.Queue
use wire_rift.Mux.Stream.{
  Stream, new_stream, overruns, buffer_data, add_credit, chunk, reserve, take_data,
}

-- `sent` and `received` are the bytes that `Write` has sent and `Read` has returned.
pub record Link : Type 0 where
  pub sender : Stream
  pub receiver : Stream
  pub frames : List (List ℕ)
  pub credits : List ℕ
  pub sent : List ℕ
  pub received : List ℕ
  pub overrun : Bool

abbrev pub flat : List (List ℕ) → List ℕ
flat [] = []
flat (f ∷ fs) = f ++ flat fs

abbrev pub sum : List ℕ → ℕ
sum [] = 0
sum (n ∷ ns) = n + sum ns

-- One round of `Write` with `bytes` still to go.
unfoldable pub after_send : ℕ → Link → List ℕ → Link
after_send max_frame_size l bytes =
    let c = chunk l.sender max_frame_size (length bytes) in
    record l {
      sender = reserve l.sender c;
      frames = l.frames ++ (take c bytes ∷ []);
      sent = l.sent ++ take c bytes;
    }

-- `onDataFrame`; a frame beyond the window resets the stream, and its data is gone.
unfoldable pub after_deliver : Link → List ℕ → List (List ℕ) → Link
after_deliver l frame rest =
    if overruns l.receiver frame
    then record l { frames = rest; overrun = true }
    else record l { receiver = buffer_data l.receiver frame; frames = rest }

-- `readFromBuffer` into k bytes, with the window update for what was read.
unfoldable pub after_consume : Link → ℕ → Link
after_consume l k =
    let (bytes, s) = take_data l.receiver k in
    record l {
      receiver = s;
      credits = if ltb 0 (length bytes) then l.credits ++ (length bytes ∷ []) else l.credits;
      received = l.received ++ bytes;
    }

unfoldable pub after_credit : Link → ℕ → List ℕ → Link
after_credit l n rest = record l { sender = add_credit l.sender n; credits = rest }

-- The peers' steps, in any order. Frames and window updates arrive in the order of their sending.
pub data Step (max_frame_size : ℕ) : Link → Link → Type 0 where
  send :
      (l : Link) (bytes : List ℕ)
      → 0 < l.sender.window
      → Step max_frame_size l (after_send max_frame_size l bytes)
  deliver :
      (l : Link) (frame : List ℕ) (rest : List (List ℕ))
      → l.frames ≡ frame ∷ rest
      → Step max_frame_size l (after_deliver l frame rest)
  consume : (l : Link) (k : ℕ) → Step max_frame_size l (after_consume l k)
  credit :
      (l : Link) (n : ℕ) (rest : List ℕ)
      → l.credits ≡ n ∷ rest
      → Step max_frame_size l (after_credit l n rest)

pub data Reach (max_frame_size : ℕ) (s : Link) : Link → Type 0 where
  here : Reach max_frame_size s s
  next :
      {t u : Link} → Reach max_frame_size s t → Step max_frame_size t u → Reach max_frame_size s u

-- A fresh stream at both ends.
unfoldable pub start : ℕ → ℕ → Link
start id window_size = record {
  sender = new_stream id window_size;
  receiver = new_stream id window_size;
  frames = [];
  credits = [];
  sent = [];
  received = [];
  overrun = false;
}

-- Every byte of the window is either credit, or on its way, or buffered, or about to be credited;
-- and no byte is lost, repeated or moved.
pub record IsSound (w : ℕ) (l : Link) : Type 0 where
  pub no_overrun : l.overrun ≡ false
  pub valid : IsValid l.receiver.read_buf
  pub roomy : w ≤ l.receiver.read_buf.max_size
  pub sender_max : l.sender.max_window ≡ w
  pub receiver_max : l.receiver.max_window ≡ w
  pub conserved :
      l.sender.window
        + length (flat l.frames)
        + length (contents l.receiver.read_buf)
        + sum l.credits
      ≡ w
  pub in_order : l.sent ≡ l.received ++ (contents l.receiver.read_buf ++ flat l.frames)
