-- ===== src/Mux/Registry/Ids.antt =====
-- The scan for a stream ID (`allocIDLocked`): what it gives, and that it finds a free ID.
use mathlib.Core.Path.{subst}
use wire_rift.Prelude.{
  dec_le, ℕ, zero, suc, ◌+◌, ◌*◌, ◌<◌, ◌≤◌, ◌≡◌, ◌≢◌, refl, sym, ◌∙◌, ltb, ◌||◌, List, [], ◌∷◌,
  length, none, some, All, arith, ◌⊎◌, inl, inr, Option-cases, Bool-cases,
}
use wire_rift.Mux.State.{find, drop_id}
use wire_rift.Mux.Handlers.{alloc_scan, usable_id, max_local_stream_id}
use wire_rift.Mux.Registry.Map.{Distinct, find-drop_id_ne, length-drop_id, drop_id-Distinct}

-- An ID that the scan gives is not in use.
pub alloc_scan_free :
    (tries : ℕ) (live : List (ℕ × ℕ)) (next id : ℕ)
    → (alloc_scan tries live next).0 ≡ some id
    → find id live ≡ none
unfolding alloc_scan
alloc_scan_free zero live next id e = cc
alloc_scan_free (suc tries) live next id e =
    ground (arith, alloc_scan_free tries live (usable_id next + 2) id)

usable : (n : ℕ) → (2 ≤ usable_id n) × (usable_id n ≤ max_local_stream_id)
unfolding usable_id
usable n = ground arith

usable_even : (n k : ℕ) → n ≡ 2 * k → (a : ℕ) × (usable_id n ≡ 2 * a)
unfolding usable_id
usable_even n k e = elim (Bool-cases (ltb n 2 || ltb max_local_stream_id n)) [
  | inl t ↦ (1, rw t)
  | inr t ↦ (k, rw t e)
]

usable_same : (b : ℕ) → 1 ≤ b → b ≤ 8388607 → usable_id (2 * b) ≡ 2 * b
unfolding usable_id
usable_same b p q = ground arith

usable_wrap : (b : ℕ) → 8388607 < b → usable_id (2 * b) ≡ 2
unfolding usable_id
usable_wrap b p = ground arith

-- An ID that the scan gives is even and from 2 to the largest even ID, and so is the next start.
pub alloc_scan_range :
    (tries : ℕ) (live : List (ℕ × ℕ)) (next id : ℕ)
    → (alloc_scan tries live next).0 ≡ some id
    → (2 ≤ id) × (id ≤ max_local_stream_id)
unfolding alloc_scan
alloc_scan_range zero live next id e = cc
alloc_scan_range (suc tries) live next id e =
    ground (arith, alloc_scan_range tries live (usable_id next + 2) id, usable next)

-- An ID that the scan gives from an even start is even, and so is the next start.
pub alloc_scan_even :
    (tries : ℕ) (live : List (ℕ × ℕ)) (next k id : ℕ)
    → next ≡ 2 * k
    → (alloc_scan tries live next).0 ≡ some id
    → (a : ℕ) × (id ≡ 2 * a)
unfolding alloc_scan
alloc_scan_even zero live next k id e o = cc
alloc_scan_even (suc tries) live next k id e o = elim (Option-cases (find (usable_id next) live)) [
  | inl free ↦ (even.0, ground (arith, even.1))
  | inr (h, taken) ↦
      alloc_scan_even tries live (usable_id next + 2) (even.0 + 1) id (omega (arith, even.1))
        (ground arith)
]
  where
    even : (a : ℕ) × (usable_id next ≡ 2 * a)
    even = usable_even next k e

-- The IDs that the scan tries.
abbrev candidates : ℕ → ℕ → List ℕ
candidates zero next = []
candidates (suc t) next = usable_id next ∷ candidates t (usable_id next + 2)

length-candidates : (t next : ℕ) → length (candidates t next) ≡ t
length-candidates zero next = refl
length-candidates (suc t) next = ground (arith, length-candidates t (usable_id next + 2))

abbrev IsTaken : List (ℕ × ℕ) → ℕ → Type 0
IsTaken live id = find id live ≢ none

alloc_scan_fails :
    (t : ℕ) (live : List (ℕ × ℕ)) (next : ℕ)
    → (alloc_scan t live next).0 ≡ none
    → All (IsTaken live) (candidates t next)
unfolding alloc_scan
alloc_scan_fails zero live next e = tt
alloc_scan_fails (suc t) live next e = (λ o. ground arith, alloc_scan_fails t live _ (ground arith))

abbrev NoRepeat : List ℕ → Type 0
NoRepeat [] = Unit {0}
NoRepeat (x ∷ l) = All (λ y. x ≢ y) l × NoRepeat l

-- 2 * a is not among the t candidates from 2 * b.
unseen :
    (t a b : ℕ)
    → 1 ≤ a
    → 1 ≤ b
    → b ≤ 8388608
    → ((a < b) × (t + b ≤ 8388607 + a)) ⊎ (t + b ≤ a)
    → a ≤ 8388607
    → All (λ y. 2 * a ≢ y) (candidates t (2 * b))
unseen zero a b p q r s n = tt
unseen (suc t) a b p q r s n = elim (dec_le b 8388607) [
  | yes h ↦ (
    λ e. ground (arith, usable_same b q h),
    subst (λ i. All (λ y. 2 * a ≢ y) (candidates t i)) (next h)
        (unseen t a (b + 1) p (omega arith) (omega arith) (ground arith) n),
  )
  | no h ↦ (
    λ e. ground (arith, usable_wrap b),
    subst (λ i. All (λ y. 2 * a ≢ y) (candidates t i)) (wrap h)
        (unseen t a 2 p (omega arith) (omega arith) (ground arith) n),
  )
]
  where
    next : b ≤ 8388607 → 2 * (b + 1) ≡ usable_id (2 * b) + 2
    next h = ground (arith, usable_same b q h)

    wrap : (b ≤ 8388607 → ⊥) → 2 * 2 ≡ usable_id (2 * b) + 2
    wrap h = ground (arith, usable_wrap b)

candidates-NoRepeat : (t next k : ℕ) → next ≡ 2 * k → t ≤ 8388607 → NoRepeat (candidates t next)
candidates-NoRepeat zero next k e b = tt
candidates-NoRepeat (suc t) next k e b = (
  subst (λ x. All (λ y. x ≢ y) (candidates t (x + 2))) (sym id.1)
      (subst (λ i. All (λ y. 2 * id.0 ≢ y) (candidates t i)) (twice id.0)
        (unseen t id.0 (id.0 + 1) (omega (arith, usable next, id.1)) (omega arith)
          (omega (arith, usable next, id.1)) (inl (omega arith, omega arith))
          (omega (arith, usable next, id.1)))),
  candidates-NoRepeat t (usable_id next + 2) (id.0 + 1) (ground (arith, id.1)) (omega arith),
)
  where
    id : (a : ℕ) × (usable_id next ≡ 2 * a)
    id = usable_even next k e

    twice : (a : ℕ) → 2 * (a + 1) ≡ 2 * a + 2
    twice a = omega arith

drop_id-All_ids :
    (l : List ℕ) (x : ℕ) (live : List (ℕ × ℕ))
    → All (λ y. x ≢ y) l
    → All (IsTaken live) l
    → All (IsTaken (drop_id x live)) l
drop_id-All_ids [] x live n a = tt
drop_id-All_ids (y ∷ l) x live n a =
    (λ e. a.0 (sym (find-drop_id_ne x y live n.0) ∙ e), drop_id-All_ids l x live n.1 a.1)

-- Distinct IDs that are all in use are no more than the entries.
no_more :
    (l : List ℕ) (live : List (ℕ × ℕ))
    → NoRepeat l
    → All (IsTaken live) l
    → Distinct live
    → length l ≤ length live
no_more [] live r a d = omega arith
no_more (x ∷ l) live r a d = elim (Option-cases (find x live)) [
  | inl e ↦ absurd (a.0 e)
  | inr (h, e) ↦ omega (
    arith,
    length-drop_id x live d e,
    no_more l (drop_id x live) r.1 (drop_id-All_ids l x live r.0 a.1) (drop_id-Distinct x live d),
  )
]

-- From an even start, with distinct live IDs and no more rounds than there are even IDs, the scan
-- finds an ID when it has more rounds than there are entries.
pub alloc_scan_finds :
    (tries : ℕ) (live : List (ℕ × ℕ)) (next k : ℕ)
    → next ≡ 2 * k
    → tries ≤ 8388607
    → Distinct live
    → length live < tries
    → (alloc_scan tries live next).0 ≢ none
alloc_scan_finds tries live next k e b d l o = omega (
  arith,
  length-candidates tries next,
  no_more (candidates tries next) live (candidates-NoRepeat tries next k e b)
      (alloc_scan_fails tries live next o) d,
)
