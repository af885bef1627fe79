-- ===== src/Proto/Magic.antt =====
-- internal/proto/frame.go: `ReadMagic` accepts the magic bytes and nothing else.
use wire_rift.Prelude.{ℕ, ◌≡◌, refl, ◌↔◌, true, List, [], ◌∷◌, ◌++◌, length, arith, if◌then◌else◌}
use wire_rift.Proto.Io.{invalid_magic, ok, read_full, done, fail}
use wire_rift.Proto.Types.{magic}
use wire_rift.Proto.Frame.{same_bytes, read_magic}
use wire_rift.Proto.Frame.RoundTrip.{read_full_append}
use wire_rift.Proto.Frame.Canonical.{read_full-ok, and_then-ok}

same_bytes-eq : (bs ms : List ℕ) → length bs ≡ length ms → same_bytes bs ms ≡ true → bs ≡ ms
unfolding same_bytes
same_bytes-eq [] [] h e = refl
same_bytes-eq [] (m ∷ ms) h e = absurd (omega arith)
same_bytes-eq (b ∷ bs) [] h e = absurd (omega arith)
same_bytes-eq (b ∷ bs) (m ∷ ms) h e = ground (arith, same_bytes-eq bs ms)

-- `ReadMagic` succeeds exactly on input that begins with the magic bytes, which it consumes.
pub read_magic_iff : (r rest : List ℕ) → (read_magic r ≡ (ok tt, rest)) ↔ (r ≡ magic ++ rest)
unfolding read_magic same_bytes
read_magic_iff r rest = (accepted, matching)
  where
    accepted : read_magic r ≡ (ok tt, rest) → r ≡ magic ++ rest
    accepted h =
        let (bs, r', e, k) =
          and_then-ok (read_full 4 r)
            (λ buf. if same_bytes buf magic then done tt else fail invalid_magic) h in
        ground
          (arith, read_full-ok 4 r bs r' e, same_bytes-eq bs magic (read_full-ok 4 r bs r' e).1)

    matching : r ≡ magic ++ rest → read_magic r ≡ (ok tt, rest)
    matching e = rw (e, read_full_append 4 magic rest refl)
