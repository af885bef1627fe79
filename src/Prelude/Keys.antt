-- ===== src/Prelude/Keys.antt =====
-- Byte strings, which stand for Go's strings, and maps from them.
use Prim.Native.Nat.{ℕ}
use mathlib.Core.Path.{subst, ◌∙◌, ◌≡◌, refl, ap}
use mathlib.Core.Logic.{inl, inr}
use mathlib.Core.Bool.{Bool, true, false}
use mathlib.Core.List.{List, [], ◌∷◌}
use mathlib.Core.Option.{Option, none, some}
use native.Mathlib.Omega.{arith}
use wire_rift.Prelude.Lists.{All, All-map}
use wire_rift.Prelude.Tests.{Bool-cases, if_split, if_cases, maybe, ◌==◌, if◌then◌else◌}

abbrev pub Bytes : Type 0
Bytes = List ℕ

unfoldable pub eq_bytes : Bytes → Bytes → Bool
eq_bytes [] [] = true
eq_bytes [] (y ∷ ys) = false
eq_bytes (x ∷ xs) [] = false
eq_bytes (x ∷ xs) (y ∷ ys) = if x == y then eq_bytes xs ys else false

pub eq_bytes_refl : (xs : Bytes) → eq_bytes xs xs ≡ true
unfolding eq_bytes
eq_bytes_refl [] = refl
eq_bytes_refl (x ∷ xs) = ground (arith, eq_bytes_refl xs)

pub eq_bytes-eq : (xs ys : Bytes) → eq_bytes xs ys ≡ true → xs ≡ ys
unfolding eq_bytes
eq_bytes-eq [] [] e = refl
eq_bytes-eq [] (y ∷ ys) e = cc
eq_bytes-eq (x ∷ xs) [] e = cc
eq_bytes-eq (x ∷ xs) (y ∷ ys) e = ground (arith, eq_bytes-eq xs ys)

-- Maps from byte strings, as association lists: lookup, deletion and store.
unfoldable pub lookup {ℓ} : {A : Type ℓ} → Bytes → List (Bytes × A) → Option A
lookup k [] = none
lookup k ((j, a) ∷ m) = if eq_bytes j k then some a else lookup k m

unfoldable pub delete {ℓ} : {A : Type ℓ} → Bytes → List (Bytes × A) → List (Bytes × A)
delete k [] = []
delete k ((j, a) ∷ m) = let rest = delete k m in if eq_bytes j k then rest else (j, a) ∷ rest

abbrev pub store {ℓ} : {A : Type ℓ} → Bytes → A → List (Bytes × A) → List (Bytes × A)
store k a m = (k, a) ∷ delete k m

abbrev Found {ℓ κ} : {A : Type ℓ} → (Bytes × A → Type κ) → Bytes → Option A → Type κ
Found P k none = Unit
Found P k (some a) = P (k, a)

lookup-Found {ℓ κ} :
    {A : Type ℓ} (P : Bytes × A → Type κ) (k : Bytes) (m : List (Bytes × A))
    → All P m
    → Found P k (lookup k m)
unfolding lookup
lookup-Found P k [] all = tt
lookup-Found P k ((j, x) ∷ m) all =
    if_split (Found P k) (eq_bytes j k) (λ h. subst (λ i. P (i, x)) (eq_bytes-eq j k h) all.0)
      (λ _. lookup-Found P k m all.1)

-- What holds of every entry holds of an entry that is found.
pub lookup-All {ℓ κ} :
    {A : Type ℓ} (P : Bytes × A → Type κ) (k : Bytes) (m : List (Bytes × A)) (a : A)
    → lookup k m ≡ some a
    → All P m
    → P (k, a)
lookup-All P k m a e all = subst (Found P k) e (lookup-Found P k m all)

-- Deleting and storing keep what holds of every entry.
pub delete-All {ℓ κ} :
    {A : Type ℓ} (P : Bytes × A → Type κ) (k : Bytes) (m : List (Bytes × A))
    → All P m
    → All P (delete k m)
unfolding delete
delete-All P k [] all = tt
delete-All P k ((j, x) ∷ m) all =
    if_split (All P) (eq_bytes j k) (λ _. delete-All P k m all.1)
      (λ _. (all.0, delete-All P k m all.1))

pub lookup-delete_ne {ℓ} :
    {A : Type ℓ} (k j : Bytes) (m : List (Bytes × A))
    → eq_bytes j k ≡ false
    → lookup k (delete j m) ≡ lookup k m
unfolding lookup delete
lookup-delete_ne k j [] ne = refl
lookup-delete_ne k j ((i, x) ∷ m) ne = elim (Bool-cases (eq_bytes i j)) [
  | inl e ↦
      rw (e, ap (λ (z : Bytes). eq_bytes z k) (eq_bytes-eq i j e) ∙ ne) (lookup-delete_ne k j m ne)
  | inr e ↦ rw e (ap (λ o. if eq_bytes i k then some x else o) (lookup-delete_ne k j m ne))
]

pub lookup-store_same {ℓ} :
    {A : Type ℓ} (k : Bytes) (a : A) (m : List (Bytes × A)) → lookup k (store k a m) ≡ some a
unfolding lookup
lookup-store_same k a m = rw (eq_bytes_refl k)

pub lookup-store_ne {ℓ} :
    {A : Type ℓ} (k j : Bytes) (a : A) (m : List (Bytes × A))
    → eq_bytes j k ≡ false
    → lookup k (store j a m) ≡ lookup k m
unfolding lookup
lookup-store_ne k j a m ne = rw ne (lookup-delete_ne k j m ne)

unfoldable pub has_key {ℓ} : {A : Type ℓ} → Bytes → List (Bytes × A) → Bool
has_key k m = maybe (lookup k m) false (λ _. true)

has_key-later {ℓ} :
    {A : Type ℓ} (k j : Bytes) (a : A) (m : List (Bytes × A))
    → has_key k m ≡ true
    → has_key k ((j, a) ∷ m) ≡ true
unfolding has_key lookup
has_key-later {A} k j a m h =
    if_cases (λ (o : Option A). maybe o false (λ _. true) ≡ true) (eq_bytes j k) refl h

has_key-first {ℓ} :
    {A : Type ℓ} (k : Bytes) (a : A) (m : List (Bytes × A)) → has_key k ((k, a) ∷ m) ≡ true
unfolding has_key lookup
has_key-first k a m = rw (eq_bytes_refl k)

-- A map has the key of each of its entries.
pub All-has_key {ℓ} : {A : Type ℓ} (m : List (Bytes × A)) → All (λ e. has_key e.0 m ≡ true) m
All-has_key [] = tt
All-has_key ((j, a) ∷ m) =
    (has_key-first j a m, All-map m (λ e. has_key-later e.0 j a m) (All-has_key m))

pub lookup-delete_same {ℓ} :
    {A : Type ℓ} (k : Bytes) (m : List (Bytes × A)) → lookup k (delete k m) ≡ none
unfolding lookup delete
lookup-delete_same k [] = refl
lookup-delete_same k ((i, x) ∷ m) = elim (Bool-cases (eq_bytes i k)) [
  | inl e ↦ rw e (lookup-delete_same k m)
  | inr e ↦ rw e (rw e (lookup-delete_same k m))
]

-- A change of the object that a key is mapped to, in place.
unfoldable pub modify {ℓ} : {A : Type ℓ} → Bytes → (A → A) → List (Bytes × A) → List (Bytes × A)
modify k f [] = []
modify k f ((j, a) ∷ m) =
    let rest = modify k f m in if eq_bytes j k then (j, f a) ∷ m else (j, a) ∷ rest

pub lookup-modify_same {ℓ} :
    {A : Type ℓ} (k : Bytes) (f : A → A) (m : List (Bytes × A))
    → lookup k (modify k f m) ≡ maybe (lookup k m) none (λ a. some (f a))
unfolding lookup modify
lookup-modify_same k f [] = refl
lookup-modify_same k f ((i, x) ∷ m) = elim (Bool-cases (eq_bytes i k)) [
  | inl e ↦ rw e (rw e refl)
  | inr e ↦ rw e (rw e (lookup-modify_same k f m))
]

pub lookup-modify_ne {ℓ} :
    {A : Type ℓ} (k j : Bytes) (f : A → A) (m : List (Bytes × A))
    → eq_bytes j k ≡ false
    → lookup k (modify j f m) ≡ lookup k m
unfolding lookup modify
lookup-modify_ne k j f [] ne = refl
lookup-modify_ne k j f ((i, x) ∷ m) ne = elim (Bool-cases (eq_bytes i j)) [
  | inl e ↦ rw (e, ap (λ (z : Bytes). eq_bytes z k) (eq_bytes-eq i j e) ∙ ne) refl
  | inr e ↦ rw e (ap (λ o. if eq_bytes i k then some x else o) (lookup-modify_ne k j f m ne))
]

-- The three operations at any key.
pub lookup-delete {ℓ} :
    {A : Type ℓ} (k j : Bytes) (m : List (Bytes × A))
    → lookup k (delete j m) ≡ (if eq_bytes j k then none else lookup k m)
lookup-delete k j m = elim (Bool-cases (eq_bytes j k)) [
  | inl e ↦ rw e (ap (λ i. lookup k (delete i m)) (eq_bytes-eq j k e) ∙ lookup-delete_same k m)
  | inr e ↦ rw e (lookup-delete_ne k j m e)
]

pub lookup-store {ℓ} :
    {A : Type ℓ} (k j : Bytes) (a : A) (m : List (Bytes × A))
    → lookup k (store j a m) ≡ (if eq_bytes j k then some a else lookup k m)
lookup-store k j a m = elim (Bool-cases (eq_bytes j k)) [
  | inl e ↦ rw e (ap (λ i. lookup k (store i a m)) (eq_bytes-eq j k e) ∙ lookup-store_same k a m)
  | inr e ↦ rw e (lookup-store_ne k j a m e)
]

pub lookup-modify {ℓ} :
    {A : Type ℓ} (k j : Bytes) (f : A → A) (m : List (Bytes × A))
    → lookup k (modify j f m)
      ≡ (if eq_bytes j k then maybe (lookup k m) none (λ a. some (f a)) else lookup k m)
lookup-modify k j f m = elim (Bool-cases (eq_bytes j k)) [
  | inl e ↦ rw e (ap (λ i. lookup k (modify i f m)) (eq_bytes-eq j k e) ∙ lookup-modify_same k f m)
  | inr e ↦ rw e (lookup-modify_ne k j f m e)
]

-- Keys that are told apart, in either order.
pub eq_bytes_sym : (xs ys : Bytes) → eq_bytes xs ys ≡ false → eq_bytes ys xs ≡ false
eq_bytes_sym xs ys ne = elim (Bool-cases (eq_bytes ys xs)) [
  | inl e ↦ absurd (true_ne_false (ap (λ z. eq_bytes z ys) (eq_bytes-eq ys xs e)))
  | inr e ↦ e
]
  where
    true_ne_false : eq_bytes ys ys ≡ eq_bytes xs ys → ⊥
    true_ne_false p = grind (arith, eq_bytes_refl ys)

-- A map that has each key once, and operations that keep it so.
abbrev pub Distinct {ℓ} : {A : Type ℓ} → List (Bytes × A) → Type ℓ
Distinct [] = Unit
Distinct ((k, a) ∷ m) = (lookup k m ≡ none) × Distinct m

delete-none {ℓ} :
    {A : Type ℓ} (k j : Bytes) (m : List (Bytes × A))
    → lookup k m ≡ none
    → lookup k (delete j m) ≡ none
delete-none k j m e = lookup-delete k j m ∙ if_cases (λ o. o ≡ none) (eq_bytes j k) refl e

pub delete-Distinct {ℓ} :
    {A : Type ℓ} (j : Bytes) (m : List (Bytes × A)) → Distinct m → Distinct (delete j m)
unfolding delete
delete-Distinct j [] d = tt
delete-Distinct j ((k, a) ∷ m) d =
    if_cases Distinct (eq_bytes k j) (delete-Distinct j m d.1)
      (delete-none k j m d.0, delete-Distinct j m d.1)

pub store-Distinct {ℓ} :
    {A : Type ℓ} (j : Bytes) (a : A) (m : List (Bytes × A)) → Distinct m → Distinct (store j a m)
store-Distinct j a m d = (lookup-delete_same j m, delete-Distinct j m d)

-- A change of an object keeps what holds of every entry, if the change does.
pub modify-All {ℓ κ} :
    {A : Type ℓ} (P : Bytes × A → Type κ) (k : Bytes) (f : A → A) (m : List (Bytes × A))
    → ((j : Bytes) (a : A) → P (j, a) → P (j, f a))
    → All P m
    → All P (modify k f m)
unfolding modify
modify-All P k f [] keep all = tt
modify-All P k f ((j, a) ∷ m) keep all =
    if_cases (All P) (eq_bytes j k) (keep j a all.0, all.1) (all.0, modify-All P k f m keep all.1)
