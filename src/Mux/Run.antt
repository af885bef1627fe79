-- ===== src/Mux/Run.antt =====
-- internal/mux/mux.go: `Run`, the read loop, until it ends or has to wait.
use wire_rift.Prelude.{
  ℕ, zero, suc, ◌+◌, ◌<◌, ◌≡◌, refl, ap, ◌∙◌, true, if_split, maybe_cases, List, [], ◌∷◌, length,
  length-append, some, All, All-append_right, arith,
}
use mathlib.Core.Path.{subst}
use wire_rift.Proto.Io as Io
use wire_rift.Proto.Io.{ok, err}
use wire_rift.Proto.Frame.{Frame, read_frame}
use wire_rift.Proto.Frame.RoundTrip.{wire, length-wire}
use wire_rift.Proto.Frame.Canonical.{IsByte, read_frame-canonical}
use wire_rift.Mux.State.{Codec, Mux, MuxError, frame_error, find, remove_stream}
use wire_rift.Mux.Methods.{cleanup, on_mux_closed}
use wire_rift.Mux.Handlers.{Handled, go_on, stop, stuck, handle_frame, close_all, close_with_error}
use wire_rift.Mux.Registry.{IsRegistry}
use wire_rift.Mux.Registry.Handlers.{Leaves, close_with_error-IsRegistry, handle_frame-IsRegistry}

-- How `Run` ends: it returns after closing the multiplexer, or it waits for room in the control
-- channel.
pub data RunEnd : Type 0 where
  finished : MuxError → Mux → RunEnd
  held_up : Mux → RunEnd
  out_of_frames : RunEnd

-- What follows the handler, with the rest of the loop.
unfoldable pub run_handled : (Mux → RunEnd) → Handled → RunEnd
run_handled again (go_on m) = again m
run_handled again (stop e m) = finished e (close_with_error m e)
run_handled again (stuck m) = held_up m

-- What follows the read of a frame at time `now`.
unfoldable pub run_read :
    Codec → ℕ → Mux → (List ℕ → Mux → RunEnd) → Io.Result Frame × List ℕ → RunEnd
run_read c now m again (err e, r) = finished (frame_error e) (close_with_error m (frame_error e))
run_read c now m again (ok f, r) = run_handled (again r) (handle_frame c now m f)

-- The loop of `Run` over the bytes that the connection will deliver, with n more frames at most;
-- `clock n` is the time of the frame that has n more after it at most.
unfoldable pub run_frames : Codec → (ℕ → ℕ) → ℕ → List ℕ → Mux → RunEnd
run_frames c clock zero r m = out_of_frames
run_frames c clock (suc n) r m = run_read c (clock n) m (run_frames c clock n) (read_frame r)

-- `Run`: a frame takes a byte at least, so there are no more frames than bytes.
unfoldable pub run : Codec → (ℕ → ℕ) → Mux → List ℕ → RunEnd
run c clock m r = run_frames c clock (length r + 1) r m

-- The loop ends, and leaves a sound registry; where it returns, the multiplexer is closed.
abbrev pub Ended : RunEnd → Type 0
Ended (finished e m) = (m.done ≡ true) × IsRegistry m
Ended (held_up m) = IsRegistry m
Ended out_of_frames = ⊥

remove_stream-done : (m : Mux) (id : ℕ) → (remove_stream m id).done ≡ m.done
unfolding remove_stream
remove_stream-done m id =
    maybe_cases (λ (m' : Mux). m'.done ≡ m.done) (find id m.streams) (λ _. refl) (λ _ _. refl)

on_mux_closed-done : (m : Mux) (h : ℕ) → (on_mux_closed m h).done ≡ m.done
unfolding on_mux_closed cleanup
on_mux_closed-done m h = remove_stream-done _ _

close_all-done : (l : List (ℕ × ℕ)) (m : Mux) → (close_all l m).done ≡ m.done
unfolding close_all
close_all-done [] m = refl
close_all-done ((id, h) ∷ l) m = close_all-done l (on_mux_closed m h) ∙ on_mux_closed-done m h

close_with_error-done : (m : Mux) (e : MuxError) → (close_with_error m e).done ≡ true
unfolding close_with_error
close_with_error-done m e =
    if_split (λ (m' : Mux). m'.done ≡ true) m.done (λ d. d)
      (λ _. close_all-done m.streams (record m { err = some e; done = true }))

closed-Ended : (m : Mux) (e : MuxError) → IsRegistry m → Ended (finished e (close_with_error m e))
closed-Ended m e v = (close_with_error-done m e, close_with_error-IsRegistry m e v)

run_handled-Ended :
    (again : Mux → RunEnd) (h : Handled)
    → ((m : Mux) → IsRegistry m → Ended (again m))
    → Leaves IsRegistry h
    → Ended (run_handled again h)
unfolding run_handled
run_handled-Ended again (go_on m) f v = f m v
run_handled-Ended again (stop e m) f v = closed-Ended m e v
run_handled-Ended again (stuck m) f v = v

run_read-Ended :
    (c : Codec) (now : ℕ) (m : Mux) (again : List ℕ → Mux → RunEnd) (out : Io.Result Frame × List ℕ)
    → IsRegistry m
    → ((f : Frame) → out.0 ≡ ok f → (m' : Mux) → IsRegistry m' → Ended (again out.1 m'))
    → Ended (run_read c now m again out)
unfolding run_read
run_read-Ended c now m again (err e, r) v f = closed-Ended m (frame_error e) v
run_read-Ended c now m again (ok x, r) v f =
    run_handled-Ended (again r) (handle_frame c now m x) (f x refl)
      (handle_frame-IsRegistry c now m x v)

-- A frame that is read takes bytes away, and leaves bytes.
shorter :
    (r : List ℕ) (f : Frame)
    → All IsByte r
    → (read_frame r).0 ≡ ok f
    → (length (read_frame r).1 < length r) × All IsByte (read_frame r).1
shorter r f bytes e =
    let (v, split) =
      read_frame-canonical r f (read_frame r).1 bytes (ap (λ x. (x, (read_frame r).1)) e) in
    (
      omega (arith, ap length split, length-append (wire f) (read_frame r).1, length-wire f),
      All-append_right IsByte (wire f) (read_frame r).1 (subst (All IsByte) split bytes),
    )

run_frames-Ended :
    (c : Codec) (clock : ℕ → ℕ) (n : ℕ) (r : List ℕ) (m : Mux)
    → length r < n
    → All IsByte r
    → IsRegistry m
    → Ended (run_frames c clock n r m)
unfolding run_frames
run_frames-Ended c clock zero r m l b v = absurd (omega (arith, l))
run_frames-Ended c clock (suc n) r m l b v =
    run_read-Ended c (clock n) m (run_frames c clock n) (read_frame r) v (λ f e m' v'.
      let (less, rest) = shorter r f b e in
      run_frames-Ended c clock n (read_frame r).1 m' (omega (arith, less, l)) rest v')

-- Whatever bytes the connection delivers to a multiplexer with a sound registry before it ends, the
-- read loop ends too: it returns with the multiplexer closed, or waits for room in the control
-- channel. The registry is sound either way.
pub run-Ended :
    (c : Codec) (clock : ℕ → ℕ) (m : Mux) (r : List ℕ)
    → All IsByte r
    → IsRegistry m
    → Ended (run c clock m r)
unfolding run
run-Ended c clock m r b v = run_frames-Ended c clock (length r + 1) r m (omega arith) b v
