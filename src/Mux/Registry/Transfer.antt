-- ===== src/Mux/Registry/Transfer.antt =====
-- Reading, writing and accepting keep the registry.
use wire_rift.Prelude.{
  ℕ, zero, suc, ◌+◌, ◌-◌, ◌≡◌, refl, Bool, true, false, ltb, ◌==◌, ◌&&◌, if_cases, maybe_cases,
  List, [], ◌∷◌, length, take, drop, Option,
}
use wire_rift.Proto.Io as Io
use wire_rift.Mux.Stream.{Stream, chunk, reserve, refund, take_data, is_closed}
use wire_rift.Mux.State.{Codec, Mux, modify, send_data_frame, send_window_update}
use wire_rift.Mux.Registry.{IsRegistry}
use wire_rift.Mux.Registry.Parts.{Same-IsRegistry, send_frame-Same, modify-IsRegistry}
use wire_rift.Mux.Transfer.{
  drained, read_from_buffer, read_verdict, ReadOut, read_rounds, read_stream, take_read_token,
  WriteOut, take_window_token, reserving, refunding, write_verdict, write_rounds, write_stream,
}
use wire_rift.Mux.Transfer.Accept.{Accepted, next_accepted, accept_stream}

read_from_buffer-IsRegistry :
    (c : Codec) (m : Mux) (h k : ℕ) → IsRegistry m → IsRegistry (read_from_buffer c m h k).1
unfolding read_from_buffer take_data is_closed send_window_update
read_from_buffer-IsRegistry c m h k v =
    if_cases (λ (out : List ℕ × Mux). IsRegistry out.1) (ltb 0 (length (take_data (m.obj h) k).0))
      (Same-IsRegistry (send_frame-Same (modify m h (drained k)) _) taken) taken
  where
    taken : IsRegistry (modify m h (drained k))
    taken = modify-IsRegistry m h (drained k) refl (λ o. o) v

read_rounds-IsRegistry :
    (n : ℕ) (c : Codec) (d : Bool) (m : Mux) (h k : ℕ)
    → IsRegistry m
    → IsRegistry (read_rounds n c d m h k).1
unfolding read_rounds is_closed
read_rounds-IsRegistry zero c d m h k v = v
read_rounds-IsRegistry (suc n) c d m h k v =
    if_cases P (ltb 0 (length (read_from_buffer c m h k).0)) v1 (
      maybe_cases P (read_verdict (m.obj h).state d)
        (λ _.
          if_cases P (m1.obj h).read_ch
            (read_rounds-IsRegistry n c d (modify m1 h take_read_token) h k
              (modify-IsRegistry m1 h take_read_token refl (λ o. o) v1))
            (if_cases P m1.done (read_rounds-IsRegistry n c true m1 h k v1) v1))
        (λ _ _. v1))
  where
    P : ReadOut × Mux → Type 0
    P out = IsRegistry out.1

    m1 : Mux
    m1 = (read_from_buffer c m h k).1

    v1 : IsRegistry m1
    v1 = read_from_buffer-IsRegistry c m h k v

pub read_stream-IsRegistry :
    (c : Codec) (m : Mux) (h k : ℕ) → IsRegistry m → IsRegistry (read_stream c m h k).1
unfolding read_stream
read_stream-IsRegistry c m h k v = read_rounds-IsRegistry 3 c false m h k v

reserving-IsRegistry : (m : Mux) (h n : ℕ) → IsRegistry m → IsRegistry (modify m h (reserving n))
unfolding reserve is_closed
reserving-IsRegistry m h n v =
    modify-IsRegistry m h (reserving n)
      (if_cases (λ (s : Stream). s.id ≡ (m.obj h).id) left refl refl)
      (λ o. if_cases (λ (s : Stream). is_closed s ≡ false) left o o) v
  where
    left : Bool
    left = ltb 0 ((m.obj h).window - n)

send_data_frame-IsRegistry :
    (m : Mux) (id : ℕ) (bytes : List ℕ) → IsRegistry m → IsRegistry (send_data_frame m id bytes).1
unfolding send_data_frame
send_data_frame-IsRegistry m id bytes v = Same-IsRegistry (send_frame-Same m _) v

write_rounds-IsRegistry :
    (n : ℕ) (m : Mux) (h total : ℕ) (bytes : List ℕ)
    → IsRegistry m
    → IsRegistry (write_rounds n m h total bytes).1
unfolding write_rounds refund is_closed
write_rounds-IsRegistry zero m h total bytes v = v
write_rounds-IsRegistry (suc n) m h total bytes v = if_cases P (length bytes == 0) v (
    maybe_cases P (write_verdict (m.obj h).state)
      (λ _.
        if_cases P ((m.obj h).window == 0)
          (if_cases P (m.obj h).window_ch
            (write_rounds-IsRegistry n (modify m h take_window_token) h total bytes
              (modify-IsRegistry m h take_window_token refl (λ o. o) v))
            (if_cases P m.done v v))
          (maybe_cases P sent.0
            (λ _. write_rounds-IsRegistry n sent.1 h (total + size) (drop size bytes) v1)
            (λ _ _. modify-IsRegistry sent.1 h (refunding size) refl (λ o. o) v1)))
      (λ _ _. v))
  where
    P : WriteOut × Mux → Type 0
    P out = IsRegistry out.1

    size : ℕ
    size = chunk (m.obj h) m.config.max_frame_size (length bytes)

    sent : Option Io.Error × Mux
    sent = send_data_frame (modify m h (reserving size)) (m.obj h).id (take size bytes)

    v1 : IsRegistry sent.1
    v1 =
        send_data_frame-IsRegistry (modify m h (reserving size)) (m.obj h).id (take size bytes)
          (reserving-IsRegistry m h size v)

pub write_stream-IsRegistry :
    (m : Mux) (h : ℕ) (bytes : List ℕ) → IsRegistry m → IsRegistry (write_stream m h bytes).1
unfolding write_stream
write_stream-IsRegistry m h bytes v =
    maybe_cases (λ (out : WriteOut × Mux). IsRegistry out.1) (write_verdict (m.obj h).state)
      (λ _. write_rounds-IsRegistry (length bytes + 2) m h 0 bytes v) (λ _ _. v)

next_accepted-IsRegistry : (l : List ℕ) (m : Mux) → IsRegistry m → IsRegistry (next_accepted l m).1
unfolding next_accepted
next_accepted-IsRegistry [] m v = v
next_accepted-IsRegistry (h ∷ rest) m v =
    Same-IsRegistry {m = m}
      (record { streams = refl; stream_count = refl; obj = refl; allocated = refl }) v

pub accept_stream-IsRegistry :
    (p : Bool) (m : Mux) → IsRegistry m → IsRegistry (accept_stream p m).1
unfolding accept_stream
accept_stream-IsRegistry p m v =
    if_cases (λ (out : Accepted × Mux). IsRegistry out.1) (p && m.done) v
      (next_accepted-IsRegistry m.accept m v)
