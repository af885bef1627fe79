-- ===== src/Mux/Transfer/Sending.antt =====
-- What a call of `Write` comes to: it ends, and credit and bytes balance.
use wire_rift.Prelude.{
  ℕ, zero, suc, ◌+◌, ◌-◌, ◌≤◌, ◌<◌, ◌≡◌, ◌≢◌, refl, ap, sym, ◌∙◌, false, ◌==◌, ==_refl, if_cases,
  if_split, maybe_cases, List, length, take, drop, length-drop, Option, none, some, arith,
}
use mathlib.Core.Path.{subst}
use wire_rift.Proto.Io as Io
use wire_rift.Mux.Stream.{Stream, chunk, reserve, refund}
use wire_rift.Mux.State.{
  Config, Mux, MuxError, frame_error, end_of_stream, modify, send_frame, send_data_frame,
}
use wire_rift.Mux.Registry.Parts.{send_frame-Same}
use wire_rift.Mux.Transfer.{
  WriteOut, wrote, blocked, out_of_rounds, take_window_token, reserving, refunding, no_credit,
  write_verdict, write_rounds, write_stream,
}

-- The bytes that a call has sent.
abbrev pub count : WriteOut → ℕ
count (wrote n e) = n
count (blocked n) = n
count out_of_rounds = 0

-- A call that returns without an error has sent everything.
abbrev pub IsComplete : ℕ → WriteOut → Type 0
IsComplete all (wrote n none) = n ≡ all
IsComplete all (wrote n (some e)) = Unit
IsComplete all (blocked n) = Unit
IsComplete all out_of_rounds = Unit

-- A call on stream h that had sent `total` bytes already, and had `left` to go.
pub record Balances (m : Mux) (h total left : ℕ) (out : WriteOut × Mux) : Type 0 where
  pub ends : out.0 ≢ out_of_rounds
  pub credit : (out.1.obj h).window + count out.0 ≡ (m.obj h).window + total
  pub at_most : count out.0 ≤ total + left
  pub complete : IsComplete (total + left) out.0

send_data_frame-obj :
    (m : Mux) (id : ℕ) (bytes : List ℕ) → (send_data_frame m id bytes).1.obj ≡ m.obj
unfolding send_data_frame
send_data_frame-obj m id bytes = (send_frame-Same m _).obj

send_data_frame-config :
    (m : Mux) (id : ℕ) (bytes : List ℕ) → (send_data_frame m id bytes).1.config ≡ m.config
unfolding send_data_frame send_frame
send_data_frame-config m id bytes = ground arith

chunk-bounds :
    (s : Stream) (n left : ℕ)
    → 0 < n
    → 0 < left
    → 0 < s.window
    → (0 < chunk s n left) × (chunk s n left ≤ left) × (chunk s n left ≤ s.window)
unfolding chunk
chunk-bounds s n left p q r = ground arith

reserve-window : (s : Stream) (c : ℕ) → (reserve s c).window ≡ s.window - c
unfolding reserve
reserve-window s c = ground arith

refund-window : (s : Stream) (c : ℕ) → (refund s c).window ≡ s.window + c
unfolding refund
refund-window s c = refl

-- The calls that end at once.
stopped :
    (m : Mux) (h total left : ℕ) (e : MuxError) → Balances m h total left (wrote total (some e), m)
stopped m h total left e = record {
  ends = λ o. cc;
  credit = refl;
  at_most = omega arith;
  complete = tt;
}

waits : (m : Mux) (h total left : ℕ) → Balances m h total left (blocked total, m)
waits m h total left = record {
  ends = λ o. cc;
  credit = refl;
  at_most = omega arith;
  complete = tt;
}

all_sent : (m : Mux) (h total left : ℕ) → left ≡ 0 → Balances m h total left (wrote total none, m)
all_sent m h total left e = record {
  ends = λ o. cc;
  credit = refl;
  at_most = omega arith;
  complete = omega arith;
}

-- A state that agrees on the stream's credit, up to what was sent, balances the same.
moved :
    (m m' : Mux) (h total total' left left' : ℕ) (out : WriteOut × Mux)
    → (m'.obj h).window + total' ≡ (m.obj h).window + total
    → total' + left' ≡ total + left
    → Balances m' h total' left' out
    → Balances m h total left out
moved m m' h total total' left left' out e f b = record {
  ends = b.ends;
  credit = b.credit ∙ e;
  at_most = omega (arith, b.at_most);
  complete = subst (λ (all : ℕ). IsComplete all out.0) f b.complete;
}

modify-at : (m : Mux) (h : ℕ) (f : Stream → Stream) → (modify m h f).obj h ≡ f (m.obj h)
modify-at m h f = rw (==_refl h) refl

reserved-window :
    (m m1 : Mux) (h size : ℕ)
    → m1.obj ≡ (modify m h (reserving size)).obj
    → (m1.obj h).window ≡ (m.obj h).window - size
reserved-window m m1 h size o =
    ap (λ (g : ℕ → Stream). (g h).window) o
    ∙ ap (λ (s : Stream). s.window) (modify-at m h (reserving size))
    ∙ reserve-window (m.obj h) size

failed :
    (m m1 : Mux) (h total left size : ℕ) (e : MuxError)
    → m1.obj ≡ (modify m h (reserving size)).obj
    → size ≤ (m.obj h).window
    → Balances m h total left (wrote total (some e), modify m1 h (refunding size))
failed m m1 h total left size e o l = record {
  ends = λ o. cc;
  credit =
      ap (λ (s : Stream). s.window + total) (modify-at m1 h (refunding size))
      ∙ omega (arith, refund-window (m1.obj h) size, reserved-window m m1 h size o);
  at_most = omega arith;
  complete = tt;
}

-- A round without credit or token ends the call.
dry :
    (n : ℕ) (m : Mux) (h total : ℕ) (bytes : List ℕ)
    → (m.obj h).window ≡ 0
    → (m.obj h).window_ch ≡ false
    → Balances m h total (length bytes) (write_rounds (suc n) m h total bytes)
unfolding write_rounds
dry n m h total bytes w t =
    if_split P (length bytes == 0) (λ e. all_sent m h total (length bytes) (ground arith))
      (λ _.
        maybe_cases P (write_verdict (m.obj h).state)
          (λ _. rw w (
            rw t (
              if_cases P m.done (stopped m h total (length bytes) end_of_stream)
                (waits m h total (length bytes)))))
          (λ e _. stopped m h total (length bytes) e))
  where
    P : WriteOut × Mux → Type 0
    P = Balances m h total (length bytes)

dry_rounds :
    (n : ℕ) (m : Mux) (h total : ℕ) (bytes : List ℕ)
    → 0 < n
    → (m.obj h).window ≡ 0
    → (m.obj h).window_ch ≡ false
    → Balances m h total (length bytes) (write_rounds n m h total bytes)
dry_rounds zero m h total bytes p w t = absurd (omega (arith, p))
dry_rounds (suc n) m h total bytes p w t = dry n m h total bytes w t

-- Enough rounds for the bytes to go end the call, whatever happens on the connection.
write_rounds-Balances :
    (n : ℕ) (m : Mux) (h total : ℕ) (bytes : List ℕ)
    → 0 < m.config.max_frame_size
    → length bytes + 2 ≤ n
    → Balances m h total (length bytes) (write_rounds n m h total bytes)
unfolding write_rounds
write_rounds-Balances zero m h total bytes f l = absurd (omega (arith, l))
write_rounds-Balances (suc n) m h total bytes f l =
    if_split P (length bytes == 0) (λ e. all_sent m h total (length bytes) (ground arith))
      (λ some_left.
        maybe_cases P (write_verdict s.state)
          (λ _.
            if_split P (s.window == 0) (λ e. no_window (ground arith))
              (λ e.
                maybe_cases P sent.0
                  (λ _.
                    onward (ground arith) (ground arith)
                      (write_rounds-Balances n sent.1 h (total + size) (drop size bytes)))
                  (λ x _.
                    failed m sent.1 h total (length bytes) size (frame_error x) same
                      (chunk-bounds s m.config.max_frame_size (length bytes) f (ground arith)
                        (ground arith)).2)))
          (λ e _. stopped m h total (length bytes) e))
  where
    P : WriteOut × Mux → Type 0
    P = Balances m h total (length bytes)

    s : Stream
    s = m.obj h

    size : ℕ
    size = chunk s m.config.max_frame_size (length bytes)

    sent : Option Io.Error × Mux
    sent = send_data_frame (modify m h (reserving size)) s.id (take size bytes)

    same : sent.1.obj ≡ (modify m h (reserving size)).obj
    same = send_data_frame-obj (modify m h (reserving size)) s.id (take size bytes)

    no_window :
        s.window ≡ 0
        → P (no_credit m h (write_rounds n (modify m h take_window_token) h total bytes) total)
    no_window w =
        if_cases P s.window_ch
          (moved m (modify m h take_window_token) h total total (length bytes) (length bytes) _
            (ap (λ (x : Stream). x.window + total) (modify-at m h take_window_token)) refl
            (dry_rounds n (modify m h take_window_token) h total bytes (omega (arith, l))
              (ap (λ (x : Stream). x.window) (modify-at m h take_window_token) ∙ w)
              (ap (λ (x : Stream). x.window_ch) (modify-at m h take_window_token))))
          (if_cases P m.done (stopped m h total (length bytes) end_of_stream)
            (waits m h total (length bytes)))

    onward :
        0 < length bytes
        → 0 < s.window
        → (0 < sent.1.config.max_frame_size
            → length (drop size bytes) + 2 ≤ n
            → Balances sent.1 h
                (total + size)
                (length (drop size bytes))
                (write_rounds n sent.1 h (total + size) (drop size bytes)))
        → P (write_rounds n sent.1 h (total + size) (drop size bytes))
    onward p q again =
        moved m sent.1 h total (total + size) (length bytes) (length (drop size bytes)) _
          (omega (arith, fits.2, reserved-window m sent.1 h size same))
          (omega (arith, fits.1, length-drop size bytes))
          (again (subst (λ (c : Config). 0 < c.max_frame_size) (sym kept) f)
            (omega (arith, fits.0, l, length-drop size bytes)))
      where
        fits : (0 < size) × (size ≤ length bytes) × (size ≤ s.window)
        fits = chunk-bounds s m.config.max_frame_size (length bytes) f p q

        kept : sent.1.config ≡ m.config
        kept = send_data_frame-config (modify m h (reserving size)) s.id (take size bytes)

-- With a positive frame size, `Write` always ends: it returns or waits. The bytes it reports as sent
-- are no more than it was given, all of them if it returns no error, and the stream's send window
-- has fallen by exactly their number: a frame that could not be sent costs no credit.
pub write_stream-Balances :
    (m : Mux) (h : ℕ) (bytes : List ℕ)
    → 0 < m.config.max_frame_size
    → Balances m h 0 (length bytes) (write_stream m h bytes)
unfolding write_stream
write_stream-Balances m h bytes f =
    maybe_cases (Balances m h 0 (length bytes)) (write_verdict (m.obj h).state)
      (λ _. write_rounds-Balances (length bytes + 2) m h 0 bytes f (omega arith))
      (λ e _. stopped m h 0 (length bytes) e)
