-- ===== src/Mux/Flow/Sound.antt =====
-- The flow control between two conforming peers: credit is conserved, and so are the bytes.
use wire_rift.Prelude.{
  ap₂, take_all, take-append-drop, ℕ, ◌+◌, ◌≤◌, ◌≡◌, refl, ap, sym, ◌∙◌, false, List, [], ◌∷◌, ◌++◌,
  length, take, drop, arith, append_assoc, append-nil, length-append, length-take, min,
}
use wire_rift.Mux.Ring.{max_ring_buffer_size, write, read, new_ring_buffer}
use wire_rift.Mux.Ring.Inv.{contents, length-contents, new_ring_buffer-IsValid}
use wire_rift.Mux.Ring.Read.{DidRead, read-DidRead}
use wire_rift.Mux.Ring.Refine.{DidWrite, write-DidWrite}
use wire_rift.Mux.Ring.Queue
use wire_rift.Mux.Stream.{
  Stream, new_stream, overruns, buffer_data, add_credit, chunk, reserve, take_data,
}
use wire_rift.Mux.Flow.{
  Link, flat, sum, after_send, after_deliver, after_consume, after_credit, Step, send, deliver,
  consume, credit, Reach, here, next, start, IsSound,
}

flat-append : (xs ys : List (List ℕ)) → flat (xs ++ ys) ≡ flat xs ++ flat ys
flat-append [] ys = refl
flat-append (x ∷ xs) ys = ap (◌++◌ x) (flat-append xs ys) ∙ sym (append_assoc x (flat xs) (flat ys))

sum-append : (xs ys : List ℕ) → sum (xs ++ ys) ≡ sum xs + sum ys
sum-append [] ys = omega arith
sum-append (x ∷ xs) ys = omega (arith, sum-append xs ys)

start-IsSound : (id w : ℕ) → w ≤ max_ring_buffer_size → IsSound w (start id w)
unfolding start new_stream new_ring_buffer
start-IsSound id w h =
    let (valid, nothing) = new_ring_buffer-IsValid (min w 4096) (omega arith) in
    record {
      no_overrun = refl;
      valid = valid;
      roomy = h;
      sender_max = refl;
      receiver_max = refl;
      conserved = omega (arith, ap length nothing);
      in_order = sym (append-nil (contents (new_ring_buffer (min w 4096))) ∙ nothing);
    }

chunk-le : (s : Stream) (m left : ℕ) → (chunk s m left ≤ s.window) × (chunk s m left ≤ left)
unfolding chunk
chunk-le s m left = ground arith

send-IsSound :
    (w m : ℕ) (l : Link) (bytes : List ℕ) → IsSound w l → IsSound w (after_send m l bytes)
unfolding after_send reserve
send-IsSound w m l bytes v = record {
  no_overrun = v.no_overrun;
  valid = v.valid;
  roomy = v.roomy;
  sender_max = ground arith;
  receiver_max = v.receiver_max;
  conserved = ground (
    arith,
    chunk-le l.sender m (length bytes),
    ap length more,
    length-append (flat l.frames) piece,
    length-take (chunk l.sender m (length bytes)) bytes,
  );
  in_order =
      ap (λ s. s ++ piece) v.in_order
      ∙ append_assoc l.received (contents l.receiver.read_buf ++ flat l.frames) piece
      ∙ ap (λ s. l.received ++ s)
          (append_assoc (contents l.receiver.read_buf) (flat l.frames) piece
            ∙ ap (λ s. contents l.receiver.read_buf ++ s) (sym more));
}
  where
    piece : List ℕ
    piece = take (chunk l.sender m (length bytes)) bytes

    more : flat (l.frames ++ (piece ∷ [])) ≡ flat l.frames ++ piece
    more = flat-append l.frames (piece ∷ []) ∙ ap (λ s. flat l.frames ++ s) (append-nil piece)

-- A frame of a conforming sender is within the receiver's window.
frame_fits :
    (w : ℕ) (l : Link) (frame : List ℕ) (rest : List (List ℕ))
    → l.frames ≡ frame ∷ rest
    → IsSound w l
    → overruns l.receiver frame ≡ false
unfolding overruns
frame_fits w l frame rest e v = ground (
  arith,
  length-contents l.receiver.read_buf v.valid,
  ap (λ fs. length (flat fs)) e,
  length-append frame (flat rest),
)

deliver-IsSound :
    (w : ℕ) (l : Link) (frame : List ℕ) (rest : List (List ℕ))
    → l.frames ≡ frame ∷ rest
    → IsSound w l
    → IsSound w (after_deliver l frame rest)
unfolding after_deliver buffer_data Queue.push
deliver-IsSound w l frame rest e v = rw fits (record {
  no_overrun = v.no_overrun;
  valid = t.valid;
  roomy = rw t.same_max v.roomy;
  sender_max = v.sender_max;
  receiver_max = v.receiver_max;
  conserved = omega (arith, ap length whole, length-append held frame, parts);
  in_order =
      v.in_order
      ∙ ap (λ fs. l.received ++ (held ++ flat fs)) e
      ∙ ap (λ s. l.received ++ s) (sym (append_assoc held frame (flat rest)))
      ∙ ap (λ s. l.received ++ (s ++ flat rest)) (sym whole);
})
  where
    t : DidWrite l.receiver.read_buf frame (write l.receiver.read_buf frame)
    t = write-DidWrite l.receiver.read_buf frame v.valid

    fits : overruns l.receiver frame ≡ false
    fits = frame_fits w l frame rest e v

    held : List ℕ
    held = contents l.receiver.read_buf

    parts : length (flat l.frames) ≡ length frame + length (flat rest)
    parts = ap (λ fs. length (flat fs)) e ∙ length-append frame (flat rest)

    whole : contents (write l.receiver.read_buf frame).1 ≡ contents l.receiver.read_buf ++ frame
    whole =
        t.bytes_in
        ∙ ap (λ s. held ++ s) (take_all _ frame (omega (arith, parts, v.conserved, v.roomy)))

consume-IsSound : (w : ℕ) (l : Link) (k : ℕ) → IsSound w l → IsSound w (after_consume l k)
unfolding after_consume take_data
consume-IsSound w l k v = record {
  no_overrun = v.no_overrun;
  valid = t.valid;
  roomy = rw t.same_max v.roomy;
  sender_max = v.sender_max;
  receiver_max = v.receiver_max;
  conserved = ground (
    arith,
    sum-append l.credits (length bytes ∷ []),
    ap length t.rest,
    ap length t.bytes,
    ap length (take-append-drop k held),
    length-append (take k held) (drop k held),
  );
  in_order =
      v.in_order
      ∙ ap (λ s. l.received ++ (s ++ flat l.frames)) split
      ∙ ap (λ s. l.received ++ s) (append_assoc bytes left (flat l.frames))
      ∙ sym (append_assoc l.received bytes (left ++ flat l.frames));
}
  where
    t : DidRead l.receiver.read_buf k (read l.receiver.read_buf k)
    t = read-DidRead l.receiver.read_buf k v.valid

    held : List ℕ
    held = contents l.receiver.read_buf

    bytes : List ℕ
    bytes = (read l.receiver.read_buf k).0

    left : List ℕ
    left = contents (read l.receiver.read_buf k).1

    split : held ≡ bytes ++ left
    split = sym (take-append-drop k held) ∙ ap₂ ◌++◌ (sym t.bytes) (sym t.rest)

credit-IsSound :
    (w : ℕ) (l : Link) (n : ℕ) (rest : List ℕ)
    → l.credits ≡ n ∷ rest
    → IsSound w l
    → IsSound w (after_credit l n rest)
unfolding after_credit add_credit
credit-IsSound w l n rest e v = ground (arith, ap sum e)

Step-IsSound : {w m : ℕ} {l l' : Link} → Step m l l' → IsSound w l → IsSound w l'
Step-IsSound {w} {m} (send l bytes h) v = send-IsSound w m l bytes v
Step-IsSound {w} (deliver l frame rest e) v = deliver-IsSound w l frame rest e v
Step-IsSound {w} (consume l k) v = consume-IsSound w l k v
Step-IsSound {w} (credit l n rest e) v = credit-IsSound w l n rest e v

Reach-IsSound : {w m : ℕ} {s l : Link} → IsSound w s → Reach m s l → IsSound w l
Reach-IsSound v here = v
Reach-IsSound v (next r st) = Step-IsSound st (Reach-IsSound v r)

-- Between two peers that start a stream with a window w of at most 16 MB, in whatever order their
-- steps come: no frame overruns the receiver's window; credit, bytes on the way, buffered bytes
-- and window updates on the way add up to w; and the bytes read so far, those buffered and those
-- on the way are the bytes sent, in order.
pub Reach-start :
    (id : ℕ) {w m : ℕ} {l : Link} → w ≤ max_ring_buffer_size → Reach m (start id w) l → IsSound w l
Reach-start id {w} h r = Reach-IsSound (start-IsSound id w h) r
