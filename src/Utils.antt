-- ===== src/Utils.antt =====
-- internal/utils/utils.go: which subdomains are valid. Go's loop over the runes rejects every rune
-- above 127, and so every byte above 127 here.
use mathlib.Core.Path.{subst}
use wire_rift.Prelude.{
  Bool-cases, sym, ℕ, ◌≤◌, ◌≡◌, refl, Bool, true, false, ◌&&◌, ◌||◌, ltb, leb, ◌==◌, if◌then◌else◌,
  List, [], ◌∷◌, length, arith, ◌⊎◌, inl, inr, ◌↔◌, Bytes, eq_bytes,
}

-- `isAlphaNum`
unfoldable pub is_alpha_num : ℕ → Bool
is_alpha_num c = (leb 97 c && leb c 122) || (leb 65 c && leb c 90) || (leb 48 c && leb c 57)

-- The loop over the characters.
unfoldable pub all_allowed : Bytes → Bool
all_allowed [] = true
all_allowed (c ∷ s) =
    let rest = all_allowed s in
    if ltb 127 c then false else if is_alpha_num c then rest else if c == 45 then rest else false

-- The last byte of c ∷ s.
unfoldable pub last_byte : ℕ → Bytes → ℕ
last_byte c [] = c
last_byte c (d ∷ s) = last_byte d s

-- `IsValidSubdomain`
unfoldable pub is_valid_subdomain : Bytes → Bool
is_valid_subdomain [] = false
is_valid_subdomain (c ∷ s) =
    if ltb 63 (length (c ∷ s))
    then false
    else if is_alpha_num c
    then if is_alpha_num (last_byte c s) then all_allowed (c ∷ s) else false
    else false

-- `reservedSubdomains`: the names of the service itself, in the order of the source.
abbrev reserved_subdomains : List Bytes
reserved_subdomains =
    (119 ∷ 119 ∷ 119 ∷ [])
    ∷ (97 ∷ 112 ∷ 105 ∷ [])
    ∷ (97 ∷ 100 ∷ 109 ∷ 105 ∷ 110 ∷ [])
    ∷ (100 ∷ 97 ∷ 115 ∷ 104 ∷ 98 ∷ 111 ∷ 97 ∷ 114 ∷ 100 ∷ [])
    ∷ (97 ∷ 112 ∷ 112 ∷ [])
    ∷ (109 ∷ 97 ∷ 105 ∷ 108 ∷ [])
    ∷ (115 ∷ 109 ∷ 116 ∷ 112 ∷ [])
    ∷ (102 ∷ 116 ∷ 112 ∷ [])
    ∷ (110 ∷ 115 ∷ 49 ∷ [])
    ∷ (110 ∷ 115 ∷ 50 ∷ [])
    ∷ (115 ∷ 116 ∷ 97 ∷ 116 ∷ 117 ∷ 115 ∷ [])
    ∷ (119 ∷ 105 ∷ 114 ∷ 101 ∷ 114 ∷ 105 ∷ 102 ∷ 116 ∷ [])
    ∷ (108 ∷ 111 ∷ 99 ∷ 97 ∷ 108 ∷ 104 ∷ 111 ∷ 115 ∷ 116 ∷ [])
    ∷ (114 ∷ 111 ∷ 111 ∷ 116 ∷ [])
    ∷ (115 ∷ 117 ∷ 112 ∷ 112 ∷ 111 ∷ 114 ∷ 116 ∷ [])
    ∷ (104 ∷ 101 ∷ 108 ∷ 112 ∷ [])
    ∷ (108 ∷ 111 ∷ 103 ∷ 105 ∷ 110 ∷ [])
    ∷ (97 ∷ 117 ∷ 116 ∷ 104 ∷ [])
    ∷ []

unfoldable pub member : Bytes → List Bytes → Bool
member s [] = false
member s (r ∷ rs) = let further = member s rs in if eq_bytes s r then true else further

-- `IsReservedSubdomain`
unfoldable pub is_reserved_subdomain : Bytes → Bool
is_reserved_subdomain s = member s reserved_subdomains

-- A letter or a digit of ASCII.
abbrev pub AlphaNum : ℕ → Type 0
AlphaNum c = ((97 ≤ c) × (c ≤ 122)) ⊎ (((65 ≤ c) × (c ≤ 90)) ⊎ ((48 ≤ c) × (c ≤ 57)))

is_alpha_num-AlphaNum : (c : ℕ) → (is_alpha_num c ≡ true) ↔ AlphaNum c
unfolding is_alpha_num
is_alpha_num-AlphaNum c = (λ e. ground arith, λ v. ground arith)

-- RFC 1123's grammar of a label, from its second byte on: letters, digits and hyphens, and at the
-- end a letter or digit.
pub data LabelTail : Bytes → Type 0 where
  finish : (c : ℕ) → AlphaNum c → LabelTail (c ∷ [])
  letter : (c : ℕ) (s : Bytes) → AlphaNum c → LabelTail s → LabelTail (c ∷ s)
  hyphen : (s : Bytes) → LabelTail s → LabelTail (45 ∷ s)

pub data Label : Bytes → Type 0 where
  single : (c : ℕ) → AlphaNum c → Label (c ∷ [])
  longer : (c : ℕ) (s : Bytes) → AlphaNum c → LabelTail s → Label (c ∷ s)

is_alpha_num-ascii : (c : ℕ) → is_alpha_num c ≡ true → c ≤ 122
unfolding is_alpha_num
is_alpha_num-ascii c e = ground arith

head_allowed :
    (c : ℕ) (s : Bytes)
    → all_allowed (c ∷ s) ≡ true
    → ((is_alpha_num c ≡ true) ⊎ (c ≡ 45)) × (all_allowed s ≡ true)
unfolding all_allowed
head_allowed c s e = elim (Bool-cases (is_alpha_num c)) [
  | inl a ↦ (inl a, ground (arith, a))
  | inr n ↦ (inr (ground (arith, n)), ground (arith, n))
]

allowed_next :
    (c : ℕ) (s : Bytes) → is_alpha_num c ≡ true → all_allowed s ≡ true → all_allowed (c ∷ s) ≡ true
unfolding all_allowed
allowed_next c s a e = ground (arith, is_alpha_num-ascii c a)

all_allowed-LabelTail :
    (d : ℕ) (s : Bytes)
    → is_alpha_num (last_byte d s) ≡ true
    → all_allowed (d ∷ s) ≡ true
    → LabelTail (d ∷ s)
unfolding last_byte
all_allowed-LabelTail d [] l a = finish d ((is_alpha_num-AlphaNum d).0 l)
all_allowed-LabelTail d (e ∷ s) l a = elim (head_allowed d (e ∷ s) a).0 [
  | inl n ↦
      letter d (e ∷ s) ((is_alpha_num-AlphaNum d).0 n)
        (all_allowed-LabelTail e s l (head_allowed d (e ∷ s) a).1)
  | inr h ↦
      subst (λ c. LabelTail (c ∷ (e ∷ s))) (sym h)
        (hyphen (e ∷ s) (all_allowed-LabelTail e s l (head_allowed d (e ∷ s) a).1))
]

LabelTail-all_allowed : {s : Bytes} → LabelTail s → all_allowed s ≡ true
unfolding all_allowed is_alpha_num
LabelTail-all_allowed (finish c a) = allowed_next c [] ((is_alpha_num-AlphaNum c).1 a) refl
LabelTail-all_allowed (letter c s a t) =
    allowed_next c s ((is_alpha_num-AlphaNum c).1 a) (LabelTail-all_allowed t)
LabelTail-all_allowed (hyphen s t) = LabelTail-all_allowed t

LabelTail-last_byte : {s : Bytes} (c : ℕ) → LabelTail s → is_alpha_num (last_byte c s) ≡ true
unfolding last_byte
LabelTail-last_byte c (finish d a) = (is_alpha_num-AlphaNum d).1 a
LabelTail-last_byte c (letter d s a t) = LabelTail-last_byte d t
LabelTail-last_byte c (hyphen s t) = LabelTail-last_byte 45 t

nil_allowed : all_allowed [] ≡ true
unfolding all_allowed
nil_allowed = refl

checks-Label :
    (c : ℕ) (s : Bytes)
    → is_alpha_num c ≡ true
    → is_alpha_num (last_byte c s) ≡ true
    → all_allowed (c ∷ s) ≡ true
    → Label (c ∷ s)
unfolding last_byte
checks-Label c [] a l e = single c ((is_alpha_num-AlphaNum c).0 a)
checks-Label c (d ∷ s) a l e =
    longer c (d ∷ s) ((is_alpha_num-AlphaNum c).0 a)
      (all_allowed-LabelTail d s l (head_allowed c (d ∷ s) e).1)

is_valid_subdomain_sound : (s : Bytes) → is_valid_subdomain s ≡ true → Label s × (length s ≤ 63)
unfolding is_valid_subdomain
is_valid_subdomain_sound [] e = cc
is_valid_subdomain_sound (c ∷ s) e =
    (checks-Label c s (ground arith) (ground arith) (ground arith), ground arith)

accepted :
    (c : ℕ) (s : Bytes)
    → is_alpha_num c ≡ true
    → is_alpha_num (last_byte c s) ≡ true
    → all_allowed (c ∷ s) ≡ true
    → length (c ∷ s) ≤ 63
    → is_valid_subdomain (c ∷ s) ≡ true
unfolding is_valid_subdomain
accepted c s a l e n = ground arith

is_valid_subdomain_complete : {s : Bytes} → Label s → length s ≤ 63 → is_valid_subdomain s ≡ true
unfolding last_byte
is_valid_subdomain_complete (single c a) n =
    let e = (is_alpha_num-AlphaNum c).1 a in accepted c [] e e (allowed_next c [] e nil_allowed) n
is_valid_subdomain_complete (longer c s a t) n =
    let e = (is_alpha_num-AlphaNum c).1 a in
    accepted c s e (LabelTail-last_byte c t) (allowed_next c s e (LabelTail-all_allowed t)) n

-- The test accepts exactly the labels of RFC 1123's grammar that have at most 63 bytes: ASCII
-- letters, digits and hyphens, with a letter or a digit at either end.
pub is_valid_subdomain-Label :
    (s : Bytes) → (is_valid_subdomain s ≡ true) ↔ (Label s × (length s ≤ 63))
is_valid_subdomain-Label s = (is_valid_subdomain_sound s, λ v. is_valid_subdomain_complete v.0 v.1)
