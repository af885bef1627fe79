-- ===== src/Mux/Registry/Open.antt =====
-- What `OpenStream` comes to.
use wire_rift.Prelude.{
  ℕ, ◌+◌, ◌*◌, ◌<◌, ◌≤◌, ◌≡◌, refl, true, false, leb, ==_refl, if_split, maybe_cases, Option, none,
  some, arith, ◌⊎◌, inr,
}
use wire_rift.Mux.Stream.{new_stream}
use wire_rift.Mux.State.{Mux, MuxError, find, get_stream, add_stream}
use wire_rift.Mux.Handlers.{alloc_scan, alloc_id, open_with, open_stream, max_local_stream_id}
use wire_rift.Mux.Registry.{IsRegistry}
use wire_rift.Mux.Registry.Ids.{
  alloc_scan_free, alloc_scan_range, alloc_scan_even, alloc_scan_finds,
}

-- A new stream, with a free even ID of the opener's half, registered under that ID.
pub record Opened (m : Mux) (id : ℕ) (out : (MuxError ⊎ ℕ) × Mux) : Type 0 where
  pub even : (a : ℕ) × (id ≡ 2 * a)
  pub in_range : (2 ≤ id) × (id ≤ max_local_stream_id)
  pub was_free : get_stream m id ≡ none
  pub handle : out.0 ≡ inr m.allocated
  pub registered : get_stream out.1 id ≡ some m.allocated
  pub fresh : out.1.obj m.allocated ≡ new_stream id m.config.window_size
  pub counted : out.1.stream_count ≡ m.stream_count + 1

open_with-Opened :
    (m : Mux) (next id : ℕ)
    → (a : ℕ) × (id ≡ 2 * a)
    → (2 ≤ id) × (id ≤ max_local_stream_id)
    → find id m.streams ≡ none
    → Opened m id (open_with (record m { next_id = next }) id)
unfolding open_with add_stream get_stream find new_stream
open_with-Opened m next id e r f = record {
  even = e;
  in_range = r;
  was_free = f;
  handle = refl;
  registered = rw (==_refl m.allocated, ==_refl id);
  fresh = rw (==_refl m.allocated) refl;
  counted = refl;
}

-- On a sound registry, with an even next ID and a limit of at most 8388605 streams, `OpenStream` on
-- a multiplexer that is open and below its limit gives a new stream: its ID is even, within the
-- opener's range and was free, and the stream is registered under it and counted.
pub open_stream-Opened :
    (m : Mux) (k : ℕ)
    → IsRegistry m
    → m.done ≡ false
    → m.next_id ≡ 2 * k
    → m.max_streams + 2 ≤ 8388607
    → m.stream_count < m.max_streams
    → (id : ℕ) × Opened m id (open_stream m)
unfolding open_stream alloc_id
open_stream-Opened m k v d e b l =
    if_split P m.done (λ t. cc)
      (λ _.
        if_split P (leb m.max_streams m.stream_count) (λ t. absurd (not_full t))
          (λ _.
            maybe_cases P scan.0
              (λ o. absurd (
                alloc_scan_finds (m.max_streams + 2) m.streams m.next_id k e b v.distinct
                  (omega (arith, v.counted)) o))
              (λ id o. (
                id,
                open_with-Opened m scan.1 id
                    (alloc_scan_even (m.max_streams + 2) m.streams m.next_id k id e o)
                    (alloc_scan_range (m.max_streams + 2) m.streams m.next_id id o)
                    (alloc_scan_free (m.max_streams + 2) m.streams m.next_id id o),
              ))))
  where
    scan : Option ℕ × ℕ
    scan = alloc_scan (m.max_streams + 2) m.streams m.next_id

    not_full : leb m.max_streams m.stream_count ≡ true → ⊥
    not_full t = ground arith

    P : (MuxError ⊎ ℕ) × Mux → Type 0
    P out = (id : ℕ) × Opened m id out
