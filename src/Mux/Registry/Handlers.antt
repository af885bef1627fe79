-- ===== src/Mux/Registry/Handlers.antt =====
-- Opening, the frame handlers and closing keep the registry.
use wire_rift.Prelude.{
  All-map, ℕ, ◌+◌, ◌≡◌, refl, ap, ◌∙◌, true, false, ltb, leb, ◌==◌, ◌||◌, if◌then◌else◌, if_cases,
  maybe_cases, List, [], ◌∷◌, length, Option, none, some, arith,
}
use wire_rift.Proto.Io as Io
use wire_rift.Proto.Types as Types
use wire_rift.Proto.Frame.{Frame}
use wire_rift.Mux.Stream.{Stream, new_stream, set_metadata, is_closed}
use wire_rift.Mux.State.{
  frame, control_capacity, Codec, Mux, MuxError, StreamOpen, mux_closed, find, drop_id, get_stream,
  add_stream, allocate, send_frame, accept_capacity,
}
use wire_rift.Proto.Types.{control_stream_id}
use wire_rift.Mux.Methods.{on_mux_closed}
use wire_rift.Mux.Handlers.{
  refuse, try_open, close_all, close_with_error, Handled, go_on, stop, stuck, hand_over,
  register_open, handle_stream_open, handle_stream_window, handle_go_away, handle_error,
  handle_stream_data, handle_stream_close, handle_stream_rst, handle_heartbeat,
  handle_heartbeat_ack, handle_control_frame, handle_frame,
}
use wire_rift.Mux.Registry.{IsRegistry, Owns}
use wire_rift.Mux.Registry.Map.{
  find-IsFree, drop_id-free, drop_id-IsFree, drop_id-Distinct, drop_id-All,
}
use wire_rift.Mux.Registry.Parts.{Same-IsRegistry, send_frame-Same}
use wire_rift.Mux.Registry.Methods.{
  send_reset-IsRegistry, on_data_frame-IsRegistry, on_window_update-IsRegistry,
  on_close_frame-IsRegistry, on_reset_frame-IsRegistry, on_mux_closed-IsRegistry, reset-IsRegistry,
}

-- A new object under a free ID.
pub add_new-IsRegistry :
    (m : Mux) (s : Stream)
    → find s.id m.streams ≡ none
    → is_closed s ≡ false
    → IsRegistry m
    → let (h, m1) = allocate m s in IsRegistry (add_stream m1 h)
unfolding add_stream
add_new-IsRegistry m s free open_ v = record {
  distinct = (drop_id-IsFree key m.streams, drop_id-Distinct key m.streams v.distinct);
  counted = omega (arith, v.counted, ap length unchanged);
  owned = (
    (omega arith, refl, ground arith),
    drop_id-All (Owns obj' (m.allocated + 1)) key m.streams (All-map m.streams kept v.owned),
  );
}
  where
    obj' : ℕ → Stream
    obj' k = if k == m.allocated then s else m.obj k

    key : ℕ
    key = (obj' m.allocated).id

    same_key : key ≡ s.id
    same_key = ground arith

    unchanged : drop_id key m.streams ≡ m.streams
    unchanged =
        drop_id-free key m.streams
          (find-IsFree key m.streams (ap (λ k. find k m.streams) same_key ∙ free))

    kept : (e : ℕ × ℕ) → Owns m.obj m.allocated e → Owns obj' (m.allocated + 1) e
    kept e o = ground arith

close_all-IsRegistry : (l : List (ℕ × ℕ)) (m : Mux) → IsRegistry m → IsRegistry (close_all l m)
unfolding close_all
close_all-IsRegistry [] m v = v
close_all-IsRegistry ((id, h) ∷ l) m v =
    close_all-IsRegistry l (on_mux_closed m h) (on_mux_closed-IsRegistry m h v)

pub close_with_error-IsRegistry :
    (m : Mux) (e : MuxError) → IsRegistry m → IsRegistry (close_with_error m e)
unfolding close_with_error
close_with_error-IsRegistry m e v = if_cases IsRegistry m.done v (
    Same-IsRegistry (record { streams = refl; stream_count = refl; obj = refl; allocated = refl })
      (close_all-IsRegistry m.streams (record m { err = some e; done = true }) marked))
  where
    marked : IsRegistry (record m { err = some e; done = true })
    marked = record { distinct = v.distinct; counted = v.counted; owned = v.owned }

-- A handler's outcome, whichever it is, has the property.
abbrev pub Leaves {ℓ} : (Mux → Type ℓ) → Handled → Type ℓ
Leaves P (go_on m) = P m
Leaves P (stop e m) = P m
Leaves P (stuck m) = P m

hand_over-IsRegistry : (m : Mux) (h : ℕ) → IsRegistry m → IsRegistry (hand_over m h)
unfolding hand_over
hand_over-IsRegistry m h v =
    if_cases IsRegistry (ltb (length m.accept) accept_capacity)
      (Same-IsRegistry
        (record { streams = refl; stream_count = refl; obj = refl; allocated = refl }) v)
      (reset-IsRegistry m h v)

register_open-IsRegistry :
    (m : Mux) (s : Stream)
    → find s.id m.streams ≡ none
    → is_closed s ≡ false
    → IsRegistry m
    → IsRegistry (register_open m s)
unfolding register_open
register_open-IsRegistry m s free open_ v =
    hand_over-IsRegistry _ m.allocated (add_new-IsRegistry m s free open_ v)

refuse-IsRegistry : (m : Mux) (id : ℕ) → IsRegistry m → Leaves IsRegistry (refuse m id)
unfolding refuse
refuse-IsRegistry m id v = send_reset-IsRegistry m id v

try_open-IsRegistry :
    (m : Mux) (id : ℕ) (msg : StreamOpen) → IsRegistry m → Leaves IsRegistry (try_open m id msg)
unfolding try_open get_stream new_stream set_metadata is_closed
try_open-IsRegistry m id msg v =
    if_cases (Leaves IsRegistry) (id == control_stream_id || leb m.max_streams m.stream_count)
      (refuse-IsRegistry m id v)
      (maybe_cases (Leaves IsRegistry) (find id m.streams)
        (λ e.
          register_open-IsRegistry m
            (set_metadata (new_stream id m.config.window_size) msg.remote_addr msg.protocol
              msg.tunnel_id)
            e refl v)
        (λ _ _. refuse-IsRegistry m id v))

go_away-IsRegistry :
    (c : Codec) (m : Mux) (f : Frame) → IsRegistry m → Leaves IsRegistry (handle_go_away c m f)
unfolding handle_go_away
go_away-IsRegistry c m f v =
    maybe_cases (Leaves IsRegistry) (c.decode_go_away f.payload)
      (λ _. close_with_error-IsRegistry m mux_closed v)
      (λ ga _.
        close_with_error-IsRegistry (record m { go_away = some ga }) mux_closed
          (Same-IsRegistry {m = m}
            (record { streams = refl; stream_count = refl; obj = refl; allocated = refl }) v))

heartbeat-IsRegistry :
    (now : ℕ) (m : Mux) (f : Frame) → IsRegistry m → Leaves IsRegistry (handle_heartbeat now m f)
unfolding handle_heartbeat
heartbeat-IsRegistry now m f v = maybe_cases (Leaves IsRegistry) sent.0 (λ _. kept) (λ _ _. kept)
  where
    sent : Option Io.Error × Mux
    sent = send_frame (record m { last_heartbeat = now }) (frame Types.heartbeat_ack 0 f.payload)

    kept : IsRegistry sent.1
    kept = Same-IsRegistry (send_frame-Same (record m { last_heartbeat = now }) _) (
        Same-IsRegistry {m = m}
          (record { streams = refl; stream_count = refl; obj = refl; allocated = refl }) v)

control-IsRegistry :
    (m : Mux) (f : Frame) → IsRegistry m → Leaves IsRegistry (handle_control_frame m f)
unfolding handle_control_frame
control-IsRegistry m f v = if_cases P m.done v (
    if_cases P (ltb (length m.control_ch) control_capacity)
      (Same-IsRegistry {m = m}
        (record { streams = refl; stream_count = refl; obj = refl; allocated = refl }) v)
      v)
  where
    P : Handled → Type 0
    P = Leaves IsRegistry

-- Whatever frame arrives at a sound registry, on every outcome of its handler the registry is
-- sound: IDs are distinct, the stream count is the number of entries, and every entry is a stream
-- of that ID which is not closed.
pub handle_frame-IsRegistry :
    (c : Codec) (now : ℕ) (m : Mux) (f : Frame)
    → IsRegistry m
    → Leaves IsRegistry (handle_frame c now m f)
unfolding handle_frame handle_stream_open handle_stream_data handle_stream_close handle_stream_rst
    handle_stream_window handle_heartbeat_ack handle_error
handle_frame-IsRegistry c now m f v =
    if_cases P (t == Types.stream_open)
      (maybe_cases P (c.decode_open f.payload) (λ _. v)
        (λ msg _. try_open-IsRegistry m f.stream_id msg v))
      (if_cases P (t == Types.stream_data)
        (maybe_cases P (get_stream m f.stream_id) (λ _. refuse-IsRegistry m f.stream_id v)
          (λ h _. on_data_frame-IsRegistry now m h f.payload v))
        (if_cases P (t == Types.stream_close)
          (maybe_cases P (get_stream m f.stream_id) (λ _. v)
            (λ h _. on_close_frame-IsRegistry m h v))
          (if_cases P (t == Types.stream_rst)
            (maybe_cases P (get_stream m f.stream_id) (λ _. v)
              (λ h _. on_reset_frame-IsRegistry m h v))
            (if_cases P (t == Types.stream_window)
              (maybe_cases P (c.decode_window f.payload) (λ _. v)
                (λ msg _.
                  maybe_cases P (get_stream m msg.stream_id) (λ _. v)
                    (λ h _. on_window_update-IsRegistry now m h msg.delta v)))
              (if_cases P (t == Types.heartbeat) (heartbeat-IsRegistry now m f v) (
                if_cases P (t == Types.heartbeat_ack)
                  (Same-IsRegistry {m = m}
                    (record { streams = refl; stream_count = refl; obj = refl; allocated = refl })
                    v)
                  (if_cases P (t == Types.go_away) (go_away-IsRegistry c m f v) (
                    if_cases P (t == Types.error_frame)
                      (maybe_cases P (c.decode_error f.payload) (λ _. v) (λ _ _. v))
                      (if_cases P
                        (t == Types.auth_req
                          || t == Types.auth_res
                          || t == Types.tunnel_req
                          || t == Types.tunnel_res
                          || t == Types.tunnel_close)
                        (control-IsRegistry m f v) v)))))))))
  where
    t : ℕ
    t = f.type

    P : Handled → Type 0
    P = Leaves IsRegistry
