-- ===== src/Mux/Registry/Map.antt =====
-- Laws of the map from stream IDs to handles.
use mathlib.Core.Path.{subst}
use wire_rift.Prelude.{
  Bool-cases, inl, inr, ==_iff, ℕ, ◌+◌, ◌≡◌, refl, ap, ◌≢◌, true, false, ◌==◌, List, [], ◌∷◌,
  length, none, some, All, arith,
}
use wire_rift.Mux.State.{find, drop_id}

-- No entry has the ID.
abbrev pub IsFree : ℕ → List (ℕ × ℕ) → Type 0
IsFree id = All (λ e. e.0 ≢ id)

abbrev pub Distinct : List (ℕ × ℕ) → Type 0
Distinct [] = Unit {0}
Distinct ((k, h) ∷ m) = IsFree k m × Distinct m

pub find-drop_id_self : (id : ℕ) (m : List (ℕ × ℕ)) → find id (drop_id id m) ≡ none
unfolding find drop_id
find-drop_id_self id [] = refl
find-drop_id_self id ((k, h) ∷ m) = ground (arith, find-drop_id_self id m)

pub find-drop_id_ne : (id j : ℕ) (m : List (ℕ × ℕ)) → id ≢ j → find j (drop_id id m) ≡ find j m
unfolding find drop_id
find-drop_id_ne id j [] h = refl
find-drop_id_ne id j ((k, x) ∷ m) h = ground (arith, find-drop_id_ne id j m h)

pub find-IsFree : (id : ℕ) (m : List (ℕ × ℕ)) → find id m ≡ none → IsFree id m
unfolding find
find-IsFree id [] h = tt
find-IsFree id ((k, x) ∷ m) h = (λ e. ground arith, find-IsFree id m (ground arith))

pub drop_id-free : (id : ℕ) (m : List (ℕ × ℕ)) → IsFree id m → drop_id id m ≡ m
unfolding drop_id
drop_id-free id [] h = refl
drop_id-free id ((k, x) ∷ m) h = ground (arith, drop_id-free id m h.1, h.0)

pub drop_id-All {ℓ} :
    (P : ℕ × ℕ → Type ℓ) (id : ℕ) (m : List (ℕ × ℕ)) → All P m → All P (drop_id id m)
unfolding drop_id
drop_id-All P id [] h = tt
drop_id-All P id ((k, x) ∷ m) h = elim (Bool-cases (k == id)) [
  | inl e ↦ rw e (drop_id-All P id m h.1)
  | inr e ↦ rw e (h.0, drop_id-All P id m h.1)
]

pub drop_id-IsFree : (id : ℕ) (m : List (ℕ × ℕ)) → IsFree id (drop_id id m)
drop_id-IsFree id m = find-IsFree id (drop_id id m) (find-drop_id_self id m)

pub drop_id-Distinct : (id : ℕ) (m : List (ℕ × ℕ)) → Distinct m → Distinct (drop_id id m)
unfolding drop_id
drop_id-Distinct id [] d = tt
drop_id-Distinct id ((k, x) ∷ m) d = elim (Bool-cases (k == id)) [
  | inl e ↦ rw e (drop_id-Distinct id m d.1)
  | inr e ↦ rw e (drop_id-All (λ p. p.0 ≢ k) id m d.0, drop_id-Distinct id m d.1)
]

pub length-drop_id :
    (id : ℕ) (m : List (ℕ × ℕ)) {h : ℕ}
    → Distinct m
    → find id m ≡ some h
    → length (drop_id id m) + 1 ≡ length m
unfolding find drop_id
length-drop_id id [] d e = cc
length-drop_id id ((k, x) ∷ m) {h} d e = elim (Bool-cases (k == id)) [
  | inl hit ↦ rw hit (
      omega
        (arith, ap length (drop_id-free id m (subst (λ j. IsFree j m) ((==_iff k id).0 hit) d.0))))
  | inr miss ↦ rw miss (omega (arith, length-drop_id id m d.1 (later miss)))
]
  where
    later : (k == id) ≡ false → find id m ≡ some h
    later miss = ground arith

-- A handle of the map stands in an entry.
pub find-All {ℓ} :
    (P : ℕ × ℕ → Type ℓ) (id h : ℕ) (m : List (ℕ × ℕ)) → find id m ≡ some h → All P m → P (id, h)
unfolding find
find-All P id h [] e a = cc
find-All P id h ((k, x) ∷ m) e a = elim (Bool-cases (k == id)) [
  | inl hit ↦ subst P (same hit) a.0
  | inr miss ↦ find-All P id h m (later miss) a.1
]
  where
    same : (k == id) ≡ true → ◌≡◌ {A = ℕ × ℕ} (k, x) (id, h)
    same hit = ground arith

    later : (k == id) ≡ false → find id m ≡ some h
    later miss = ground arith

-- All entries but those of an ID.
pub drop_id-All_ne {ℓ κ} :
    {P : ℕ × ℕ → Type ℓ} {Q : ℕ × ℕ → Type κ} (id : ℕ) (m : List (ℕ × ℕ))
    → ((e : ℕ × ℕ) → e.0 ≢ id → P e → Q e)
    → All P m
    → All Q (drop_id id m)
unfolding drop_id
drop_id-All_ne id [] f a = tt
drop_id-All_ne id ((k, x) ∷ m) f a = elim (Bool-cases (k == id)) [
  | inl e ↦ rw e (drop_id-All_ne id m f a.1)
  | inr e ↦ rw e (f (k, x) (other e) a.0, drop_id-All_ne id m f a.1)
]
  where
    other : (k == id) ≡ false → k ≢ id
    other miss = ground arith
