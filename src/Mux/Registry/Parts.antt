-- ===== src/Mux/Registry/Parts.antt =====
-- The registry under the parts that the methods are made of.
use mathlib.Core.Path.{subst}
use wire_rift.Prelude.{
  All-map, maybe_cases, ℕ, ◌≡◌, ap, sym, ◌∙◌, ◌≢◌, false, List, [], ◌∷◌, length, none, All, arith,
}
use wire_rift.Proto.Frame.{Frame}
use wire_rift.Mux.Stream.{Stream, is_closed}
use wire_rift.Mux.State.{Mux, find, remove_stream, modify, send_frame}
use wire_rift.Mux.Methods.{cleanup, set_timer}
use wire_rift.Mux.Registry.{IsRegistry, Owns}
use wire_rift.Mux.Registry.Map.{
  Distinct, IsFree, find-IsFree, drop_id-Distinct, length-drop_id, drop_id-All_ne,
}

-- The two states agree on everything that the registry is about.
pub record Same (m m' : Mux) : Type 0 where
  pub streams : m'.streams ≡ m.streams
  pub stream_count : m'.stream_count ≡ m.stream_count
  pub obj : m'.obj ≡ m.obj
  pub allocated : m'.allocated ≡ m.allocated

pub Same-IsRegistry : {m m' : Mux} → Same m m' → IsRegistry m → IsRegistry m'
Same-IsRegistry {m} {m'} e v = record {
  distinct = subst Distinct (sym e.streams) v.distinct;
  counted = e.stream_count ∙ v.counted ∙ ap length (sym e.streams);
  owned = rw (e.streams, e.obj, e.allocated) v.owned;
}

pub send_frame-Same : (m : Mux) (f : Frame) → Same m (send_frame m f).1
unfolding send_frame
send_frame-Same m f = record {
  streams = ground arith;
  stream_count = ground arith;
  obj = ground arith;
  allocated = ground arith;
}

-- The registry, but for the entry of one ID, which is about to be removed.
pub record IsRegistryBut (id : ℕ) (m : Mux) : Type 0 where
  pub distinct : Distinct m.streams
  pub counted : m.stream_count ≡ length m.streams
  pub owned : All (λ e. e.0 ≢ id → Owns m.obj m.allocated e) m.streams

pub Same-IsRegistryBut :
    {m m' : Mux} (id : ℕ) → Same m m' → IsRegistryBut id m → IsRegistryBut id m'
Same-IsRegistryBut {m} {m'} id e v = record {
  distinct = subst Distinct (sym e.streams) v.distinct;
  counted = e.stream_count ∙ v.counted ∙ ap length (sym e.streams);
  owned = rw (e.streams, e.obj, e.allocated) v.owned;
}

pub IsRegistry-But : {m : Mux} (id : ℕ) → IsRegistry m → IsRegistryBut id m
IsRegistry-But {m} id v = record {
  distinct = v.distinct;
  counted = v.counted;
  owned = All-map m.streams (λ e o _. o) v.owned;
}

entries_free :
    (P : ℕ × ℕ → Type 0) (id : ℕ) (m : List (ℕ × ℕ))
    → IsFree id m
    → All (λ e. e.0 ≢ id → P e) m
    → All P m
entries_free P id [] f a = tt
entries_free P id (e ∷ m) f a = (a.0 f.0, entries_free P id m f.1 a.1)

pub remove_stream-IsRegistry :
    (m : Mux) (id : ℕ) → IsRegistryBut id m → IsRegistry (remove_stream m id)
unfolding remove_stream
remove_stream-IsRegistry m id v =
    maybe_cases IsRegistry (find id m.streams)
      (λ e. record {
        distinct = v.distinct;
        counted = v.counted;
        owned =
            entries_free (Owns m.obj m.allocated) id m.streams (find-IsFree id m.streams e) v.owned;
      })
      (λ h e. record {
        distinct = drop_id-Distinct id m.streams v.distinct;
        counted = omega (arith, length-drop_id id m.streams v.distinct e, v.counted);
        owned = drop_id-All_ne id m.streams (λ x ne o. o ne) v.owned;
      })

module _ (m : Mux) (h : ℕ) (f : Stream → Stream) (keeps : (f (m.obj h)).id ≡ (m.obj h).id) where
  entry_other :
      (e : ℕ × ℕ)
      → (e.0 ≢ (m.obj h).id → Owns m.obj m.allocated e)
      → e.0 ≢ (m.obj h).id
      → Owns (modify m h f).obj m.allocated e
  entry_other e o ne = ground (arith, o ne)

  -- Whatever becomes of an object, only the entry of its ID is touched.
  pub modify-IsRegistryBut :
      IsRegistryBut (m.obj h).id m → IsRegistryBut (m.obj h).id (modify m h f)
  modify-IsRegistryBut v = record {
    distinct = v.distinct;
    counted = v.counted;
    owned = All-map m.streams entry_other v.owned;
  }

  pub modify-IsRegistry :
      (is_closed (m.obj h) ≡ false → is_closed (f (m.obj h)) ≡ false)
      → IsRegistry m
      → IsRegistry (modify m h f)
  modify-IsRegistry alive v = record {
    distinct = v.distinct;
    counted = v.counted;
    owned = All-map m.streams kept v.owned;
  }
    where
      kept : (e : ℕ × ℕ) → Owns m.obj m.allocated e → Owns (modify m h f).obj m.allocated e
      kept e o = ground arith

pub cleanup-IsRegistry : (m : Mux) (h : ℕ) → IsRegistryBut (m.obj h).id m → IsRegistry (cleanup m h)
unfolding cleanup
cleanup-IsRegistry m h v =
    remove_stream-IsRegistry (modify m h (set_timer none)) (m.obj h).id (record {
      distinct = v.distinct;
      counted = v.counted;
      owned = All-map m.streams kept v.owned;
    })
  where
    kept :
        (e : ℕ × ℕ)
        → (e.0 ≢ (m.obj h).id → Owns m.obj m.allocated e)
        → e.0 ≢ (m.obj h).id
        → Owns (modify m h (set_timer none)).obj m.allocated e
    kept e o ne = ground (arith, o ne)

pub cleanup-IsRegistry_id :
    (m : Mux) (h id : ℕ) → (m.obj h).id ≡ id → IsRegistryBut id m → IsRegistry (cleanup m h)
cleanup-IsRegistry_id m h id e v = cleanup-IsRegistry m h (rw e v)

-- A method that changes its stream in any way and then removes it keeps the registry.
module _ (m : Mux) (h : ℕ) (f : Stream → Stream) (keeps : (f (m.obj h)).id ≡ (m.obj h).id) where
  pub id-modify : ((modify m h f).obj h).id ≡ (m.obj h).id
  id-modify = ground arith

  pub modify-Same-But :
      (out : Mux)
      → Same (modify m h f) out
      → IsRegistryBut (m.obj h).id m
      → IsRegistryBut (out.obj h).id out
  modify-Same-But out e v =
      rw (ap (λ o. (o h).id) e.obj ∙ id-modify)
        (Same-IsRegistryBut (m.obj h).id e (modify-IsRegistryBut m h f keeps v))

  pub modify-cleanup : IsRegistryBut (m.obj h).id m → IsRegistry (cleanup (modify m h f) h)
  modify-cleanup v =
      cleanup-IsRegistry_id (modify m h f) h (m.obj h).id id-modify
        (modify-IsRegistryBut m h f keeps v)

  pub modify-send-cleanup :
      (out : Mux)
      → Same (modify m h f) out
      → IsRegistryBut (m.obj h).id m
      → IsRegistry (cleanup out h)
  modify-send-cleanup out e v =
      cleanup-IsRegistry_id out h (m.obj h).id (ap (λ o. (o h).id) e.obj ∙ id-modify)
        (Same-IsRegistryBut (m.obj h).id e (modify-IsRegistryBut m h f keeps v))
