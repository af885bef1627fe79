-- ===== src/Mux/Registry/Steps.antt =====
-- Every operation of the multiplexer as a step, and the registry along any sequence of them.
use wire_rift.Prelude.{
  ℕ, ◌+◌, ◌≡◌, refl, Bool, leb, if_cases, maybe, maybe_cases, List, Option, none, some, ◌⊎◌, inl,
}
use Prim.Native.String.{String}
use wire_rift.Proto.Io.{Writer}
use wire_rift.Proto.Frame.{Frame}
use wire_rift.Mux.Stream.{State, new_stream, is_closed}
use wire_rift.Mux.State.{
  Codec, Config, Mux, MuxError, too_many_streams, find, new_mux, send_go_away,
}
use wire_rift.Mux.Methods.{reset, close, reap_if_idle}
use wire_rift.Mux.Handlers.{
  alloc_scan, alloc_id, open_with, open_stream, set_max_streams, close_with_error, close_pending,
  Handled, go_on, stop, stuck, handle_frame,
}
use wire_rift.Mux.Registry.{IsRegistry}
use wire_rift.Mux.Registry.Ids.{alloc_scan_free}
use wire_rift.Mux.Registry.Parts.{Same-IsRegistry, send_frame-Same}
use wire_rift.Mux.Registry.Transfer.{
  accept_stream-IsRegistry, read_stream-IsRegistry, write_stream-IsRegistry,
}
use wire_rift.Mux.Transfer.{read_stream, write_stream}
use wire_rift.Mux.Transfer.Accept.{accept_stream}
use wire_rift.Mux.Registry.Methods.{reset-IsRegistry, close-IsRegistry, reap_if_idle-IsRegistry}
use wire_rift.Mux.Registry.Handlers.{
  Leaves, add_new-IsRegistry, close_with_error-IsRegistry, handle_frame-IsRegistry,
}

-- A change that the registry does not see.
unseen-IsRegistry :
    {m m' : Mux}
    → m'.streams ≡ m.streams
    → m'.stream_count ≡ m.stream_count
    → m'.obj ≡ m.obj
    → m'.allocated ≡ m.allocated
    → IsRegistry m
    → IsRegistry m'
unseen-IsRegistry a b c d v =
    Same-IsRegistry (record { streams = a; stream_count = b; obj = c; allocated = d }) v

-- What `OpenStream` leaves, whatever the scan gave.
opened-IsRegistry :
    (m : Mux) (o : Option ℕ)
    → ((id : ℕ) → o ≡ some id → find id m.streams ≡ none)
    → IsRegistry m
    → IsRegistry (maybe o (inl too_many_streams, m) (open_with m)).1
unfolding open_with new_stream is_closed
opened-IsRegistry m none f v = v
opened-IsRegistry m (some id) f v =
    add_new-IsRegistry m (new_stream id m.config.window_size) (f id refl) refl v

pub open_stream-IsRegistry : (m : Mux) → IsRegistry m → IsRegistry (open_stream m).1
unfolding open_stream alloc_id
open_stream-IsRegistry m v = if_cases P m.done v (
    if_cases P (leb m.max_streams m.stream_count) v (
      opened-IsRegistry (record m { next_id = scan.1 }) scan.0
        (λ id e. alloc_scan_free (m.max_streams + 2) m.streams m.next_id id e)
        (unseen-IsRegistry {m = m} refl refl refl refl v)))
  where
    P : (MuxError ⊎ ℕ) × Mux → Type 0
    P out = IsRegistry out.1

    scan : Option ℕ × ℕ
    scan = alloc_scan (m.max_streams + 2) m.streams m.next_id

close_pending-IsRegistry : (m : Mux) → IsRegistry m → IsRegistry (close_pending m)
unfolding close_pending
close_pending-IsRegistry m v =
    maybe_cases IsRegistry m.closing (λ _. v)
      (λ e _.
        close_with_error-IsRegistry (record m { closing = none }) e
          (unseen-IsRegistry {m = m} refl refl refl refl v))

-- The state after a frame, whatever its handler came to.
abbrev pub after : Handled → Mux
after (go_on m) = m
after (stop e m) = m
after (stuck m) = m

after-Leaves : (h : Handled) → Leaves IsRegistry h → IsRegistry (after h)
after-Leaves (go_on m) v = v
after-Leaves (stop e m) v = v
after-Leaves (stuck m) v = v

-- One operation: a frame of the read loop, a call of the program on the multiplexer or on a stream
-- it holds, or a timer or a started close that comes due. Each of them is one step here.
pub data MuxStep (c : Codec) : Mux → Mux → Type 0 where
  receive : (now : ℕ) (f : Frame) {m : Mux} → MuxStep c m (after (handle_frame c now m f))
  open_one : {m : Mux} → MuxStep c m (open_stream m).1
  limit : (n : ℕ) {m : Mux} → MuxStep c m (set_max_streams m n)
  shut : (e : MuxError) {m : Mux} → MuxStep c m (close_with_error m e)
  shut_pending : {m : Mux} → MuxStep c m (close_pending m)
  close_stream : (now h : ℕ) {m : Mux} → MuxStep c m (close now m h).1
  reset_stream : (h : ℕ) {m : Mux} → MuxStep c m (reset m h)
  accept_next : (prefer_done : Bool) {m : Mux} → MuxStep c m (accept_stream prefer_done m).1
  read_from : (h k : ℕ) {m : Mux} → MuxStep c m (read_stream c m h k).1
  write_to : (h : ℕ) (bytes : List ℕ) {m : Mux} → MuxStep c m (write_stream m h bytes).1
  say_go_away :
      (reason message : String) {m : Mux} → MuxStep c m (send_go_away c m reason message).1
  timer : (now h : ℕ) (st : State) {m : Mux} → MuxStep c m (reap_if_idle now m h st)

pub data MuxReach (c : Codec) (m : Mux) : Mux → Type 0 where
  started : MuxReach c m m
  next : {n n' : Mux} → MuxReach c m n → MuxStep c n n' → MuxReach c m n'

MuxStep-IsRegistry : (c : Codec) {m m' : Mux} → MuxStep c m m' → IsRegistry m → IsRegistry m'
unfolding set_max_streams send_go_away
MuxStep-IsRegistry c {m} (receive now f) v =
    after-Leaves (handle_frame c now m f) (handle_frame-IsRegistry c now m f v)
MuxStep-IsRegistry c {m} open_one v = open_stream-IsRegistry m v
MuxStep-IsRegistry c {m} (limit n) v = unseen-IsRegistry {m = m} refl refl refl refl v
MuxStep-IsRegistry c {m} (shut e) v = close_with_error-IsRegistry m e v
MuxStep-IsRegistry c {m} shut_pending v = close_pending-IsRegistry m v
MuxStep-IsRegistry c {m} (close_stream now h) v = close-IsRegistry now m h v
MuxStep-IsRegistry c {m} (reset_stream h) v = reset-IsRegistry m h v
MuxStep-IsRegistry c {m} (accept_next p) v = accept_stream-IsRegistry p m v
MuxStep-IsRegistry c {m} (read_from h k) v = read_stream-IsRegistry c m h k v
MuxStep-IsRegistry c {m} (write_to h bytes) v = write_stream-IsRegistry m h bytes v
MuxStep-IsRegistry c {m} (say_go_away reason message) v = Same-IsRegistry (send_frame-Same m _) v
MuxStep-IsRegistry c {m} (timer now h st) v = reap_if_idle-IsRegistry now m h st v

-- Along any sequence of operations and received frames from a new multiplexer, the registry is
-- sound: its IDs are distinct, the stream count is the number of its entries, and each entry is
-- an object with that ID which is not closed.
pub MuxReach-IsRegistry :
    (c : Codec) (config : Config) (out : Writer) {m : Mux}
    → MuxReach c (new_mux config out) m
    → IsRegistry m
unfolding new_mux
MuxReach-IsRegistry c config out started = record { distinct = tt; counted = refl; owned = tt }
MuxReach-IsRegistry c config out (next r s) =
    MuxStep-IsRegistry c s (MuxReach-IsRegistry c config out r)
