-- ===== src/Mux/Registry/Methods.antt =====
-- Every method of a stream keeps the registry.
use wire_rift.Prelude.{
  if_cases, ℕ, ◌+◌, ◌-◌, ◌≡◌, refl, false, ltb, List, Option, some, arith, Bool-cases, inl, inr,
}
use wire_rift.Proto.Io as Io
use wire_rift.Mux.Stream.{
  State, active, half_closed_local, half_closed_remote, closed, was_reset, overruns, buffer_data,
  add_credit, is_closed, is_terminal, close_local,
}
use wire_rift.Mux.State.{Mux, modify, send_stream_close, send_stream_reset}
use wire_rift.Mux.Methods.{
  touch, set_timer, abort, end_remote, end_local, end_mux, mark_reset, buffer, credit_at, cleanup,
  on_reset_frame, on_data_frame, on_window_update, on_close_frame, on_mux_closed, reset,
  after_remote, unless_done, reap, settle, arm_idle_reaper, reap_if_idle, close_first, close,
}
use wire_rift.Mux.Registry.{IsRegistry}
use wire_rift.Mux.Registry.Parts.{
  Same, Same-IsRegistry, send_frame-Same, IsRegistryBut, IsRegistry-But, modify-IsRegistry,
  modify-cleanup, modify-send-cleanup, modify-Same-But, cleanup-IsRegistry,
}

pub send_reset-IsRegistry :
    (m : Mux) (id : ℕ) → IsRegistry m → IsRegistry (send_stream_reset m id).1
unfolding send_stream_reset
send_reset-IsRegistry m id v = Same-IsRegistry (send_frame-Same m _) v

pub cleanup_again : (m : Mux) (h : ℕ) → IsRegistry m → IsRegistry (cleanup m h)
cleanup_again m h v = cleanup-IsRegistry m h (IsRegistry-But (m.obj h).id v)

pub on_reset_frame-IsRegistry : (m : Mux) (h : ℕ) → IsRegistry m → IsRegistry (on_reset_frame m h)
unfolding on_reset_frame
on_reset_frame-IsRegistry m h v = modify-cleanup m h abort refl (IsRegistry-But (m.obj h).id v)

pub on_mux_closed-IsRegistry : (m : Mux) (h : ℕ) → IsRegistry m → IsRegistry (on_mux_closed m h)
unfolding on_mux_closed
on_mux_closed-IsRegistry m h v = modify-cleanup m h end_mux refl (IsRegistry-But (m.obj h).id v)

pub on_window_update-IsRegistry :
    (now : ℕ) (m : Mux) (h delta : ℕ) → IsRegistry m → IsRegistry (on_window_update now m h delta)
unfolding on_window_update add_credit is_closed
on_window_update-IsRegistry now m h delta v =
    modify-IsRegistry m h (credit_at now delta) refl (λ o. o) v

pub on_data_frame-IsRegistry :
    (now : ℕ) (m : Mux) (h : ℕ) (bytes : List ℕ)
    → IsRegistry m
    → IsRegistry (on_data_frame now m h bytes)
unfolding on_data_frame buffer_data is_closed
on_data_frame-IsRegistry now m h bytes v = elim (Bool-cases (overruns (m.obj h) bytes)) [
  | inl e ↦
      rw e (cleanup_again _ h (send_reset-IsRegistry _ _ (on_reset_frame-IsRegistry _ h touched)))
  | inr e ↦ rw e (modify-IsRegistry (modify m h (touch now)) h (buffer bytes) refl (λ o. o) touched)
]
  where
    touched : IsRegistry (modify m h (touch now))
    touched = modify-IsRegistry m h (touch now) refl (λ o. o) v

unless_done-Same :
    (m : Mux) (sent : Option Io.Error × Mux) → Same m sent.1 → Same m (unless_done m sent).1
unfolding unless_done
unless_done-Same m sent e = record {
  streams = ground (arith, e.streams);
  stream_count = ground (arith, e.stream_count);
  obj = ground (arith, e.obj);
  allocated = ground (arith, e.allocated);
}

after_remote-IsRegistry :
    (st : State) (m : Mux) (h : ℕ)
    → (m.obj h).state ≡ st
    → IsRegistry m
    → IsRegistry (after_remote st (modify m h end_remote) h)
unfolding after_remote is_closed
after_remote-IsRegistry half_closed_local m h e v =
    modify-cleanup m h end_remote refl (IsRegistry-But (m.obj h).id v)
after_remote-IsRegistry active m h e v = modify-IsRegistry m h end_remote refl (λ o. rw e) v
after_remote-IsRegistry half_closed_remote m h e v =
    modify-IsRegistry m h end_remote refl (λ o. rw e) v
after_remote-IsRegistry closed m h e v = modify-IsRegistry m h end_remote refl (λ o. ground arith) v
after_remote-IsRegistry was_reset m h e v =
    modify-IsRegistry m h end_remote refl (λ o. ground arith) v

pub on_close_frame-IsRegistry : (m : Mux) (h : ℕ) → IsRegistry m → IsRegistry (on_close_frame m h)
unfolding on_close_frame
on_close_frame-IsRegistry m h v = after_remote-IsRegistry (m.obj h).state m h refl v

reset_but : (m : Mux) (h : ℕ) → IsRegistryBut (m.obj h).id m → IsRegistry (reset m h)
unfolding reset send_stream_reset
reset_but m h v =
    modify-send-cleanup m h abort refl _ (unless_done-Same _ _ (send_frame-Same _ _)) v

pub reset-IsRegistry : (m : Mux) (h : ℕ) → IsRegistry m → IsRegistry (reset m h)
reset-IsRegistry m h v = reset_but m h (IsRegistry-But (m.obj h).id v)

arm-IsRegistry : (now : ℕ) (m : Mux) (h : ℕ) → IsRegistry m → IsRegistry (arm_idle_reaper now m h)
unfolding arm_idle_reaper is_closed
arm-IsRegistry now m h v = elim (Bool-cases (ltb 0 m.config.half_close_timeout)) [
  | inl e ↦ rw e (
      modify-IsRegistry (modify m h (touch now)) h
        (set_timer (some (now + m.config.half_close_timeout))) refl (λ o. o)
        (modify-IsRegistry m h (touch now) refl (λ o. o) v))
  | inr e ↦ rw e v
]

reap-IsRegistry : (now : ℕ) (m : Mux) (h : ℕ) → IsRegistry m → IsRegistry (reap now m h)
unfolding reap is_closed
reap-IsRegistry now m h v =
    elim (Bool-cases (ltb (now - (m.obj h).last_active) m.config.half_close_timeout)) [
      | inl e ↦ rw e (modify-IsRegistry m h (set_timer (some again)) refl (λ o. o) v)
      | inr e ↦ rw e (
          reset_but (modify m h mark_reset) h (
            modify-Same-But m h mark_reset refl (modify m h mark_reset)
              (record { streams = refl; stream_count = refl; obj = refl; allocated = refl })
              (IsRegistry-But (m.obj h).id v)))
    ]
  where
    again : ℕ
    again = now + (m.config.half_close_timeout - (now - (m.obj h).last_active))

pub reap_if_idle-IsRegistry :
    (now : ℕ) (m : Mux) (h : ℕ) (st : State) → IsRegistry m → IsRegistry (reap_if_idle now m h st)
unfolding reap_if_idle
reap_if_idle-IsRegistry now m h half_closed_local v = reap-IsRegistry now m h v
reap_if_idle-IsRegistry now m h _ v = v

settle-IsRegistry :
    (st : State) (now : ℕ) (m : Mux) (h : ℕ)
    → IsRegistryBut (m.obj h).id m
    → (is_terminal st ≡ false → IsRegistry m)
    → IsRegistry (settle st now m h)
unfolding settle
settle-IsRegistry active now m h b v = v refl
settle-IsRegistry half_closed_remote now m h b v = v refl
settle-IsRegistry half_closed_local now m h b v = arm-IsRegistry now m h (v refl)
settle-IsRegistry closed now m h b v = cleanup-IsRegistry m h b
settle-IsRegistry was_reset now m h b v = cleanup-IsRegistry m h b

close_first-IsRegistry :
    (now : ℕ) (m : Mux) (h : ℕ) → IsRegistry m → IsRegistry (close_first now m h).1
unfolding close_first send_stream_close is_closed
close_first-IsRegistry now m h v =
    settle-IsRegistry (close_local (m.obj h).state) now _ h
      (modify-Same-But m h end_local refl _ same (IsRegistry-But (m.obj h).id v))
      (λ t. Same-IsRegistry same (modify-IsRegistry m h end_local refl (λ _. t) v))
  where
    same :
        Same
          (modify m h end_local)
          (unless_done
            (modify m h end_local)
            (send_stream_close (modify m h end_local) (m.obj h).id)).1
    same = unless_done-Same _ _ (send_frame-Same _ _)

pub close-IsRegistry : (now : ℕ) (m : Mux) (h : ℕ) → IsRegistry m → IsRegistry (close now m h).1
unfolding close
close-IsRegistry now m h v =
    if_cases (λ (out : Option Io.Error × Mux). IsRegistry out.1) (m.obj h).close_once v
      (close_first-IsRegistry now m h v)
