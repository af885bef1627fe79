-- ===== src/Server/Names/Digits.antt =====
-- Different ports have different keys, and no valid subdomain is one of them.
use wire_rift.Prelude.{
  ℕ, zero, suc, ◌+◌, ◌-◌, ◌*◌, ◌/◌, ◌%◌, ◌≤◌, ◌≡◌, ◌≢◌, refl, ap, sym, ◌∙◌, true, false, ltb,
  if_split, Bool-cases, inl, inr, [], ◌∷◌, ◌++◌, Bytes, eq_bytes, eq_bytes-eq, arith,
}
use wire_rift.Utils.{is_valid_subdomain, all_allowed, is_alpha_num}
use wire_rift.Server.Names.{itoa_rounds, itoa, port_key, custom_key, has_byte}

-- The number that decimal digits stand for, after the digits of `high`.
abbrev value : ℕ → Bytes → ℕ
value high [] = high
value high (d ∷ s) = value (high * 10 + (d - 48)) s

value-append :
    (high : ℕ) (s : Bytes) (d : ℕ) → value high (s ++ (d ∷ [])) ≡ value high s * 10 + (d - 48)
value-append high [] d = refl
value-append high (e ∷ s) d = value-append (high * 10 + (e - 48)) s d

value-itoa_rounds : (rounds n : ℕ) → n ≤ rounds → value 0 (itoa_rounds rounds n) ≡ n
unfolding itoa_rounds
value-itoa_rounds zero n h = omega arith
value-itoa_rounds (suc rounds) n h =
    if_split (λ (s : Bytes). value 0 s ≡ n) (ltb n 10) (λ _. omega arith)
      (λ e.
        value-append 0 (itoa_rounds rounds (n / 10)) (48 + n % 10)
        ∙ omega (arith, value-itoa_rounds rounds (n / 10) (smaller e)))
  where
    smaller : ltb n 10 ≡ false → n / 10 ≤ rounds
    smaller e = omega arith

itoa_inj : (m n : ℕ) → itoa m ≡ itoa n → m ≡ n
unfolding itoa
itoa_inj m n e =
    sym (value-itoa_rounds m m (omega arith)) ∙ ap (value 0) e ∙ value-itoa_rounds n n (omega arith)

-- Different ports have different keys.
pub port_key_ne : (p q : ℕ) → p ≢ q → eq_bytes (port_key p) (port_key q) ≡ false
unfolding port_key eq_bytes
port_key_ne p q ne = elim (Bool-cases (eq_bytes (itoa p) (itoa q))) [
  | inl e ↦ absurd (ne (itoa_inj p q (eq_bytes-eq (itoa p) (itoa q) e)))
  | inr e ↦ e
]

-- The key of a port is not that of a custom domain.
pub port_key-custom_key : (p : ℕ) (d : Bytes) → eq_bytes (port_key p) (custom_key d) ≡ false
unfolding port_key custom_key eq_bytes
port_key-custom_key p d = refl

-- Different custom domains have different keys.
pub custom_key_ne :
    (d e : Bytes) → eq_bytes d e ≡ false → eq_bytes (custom_key d) (custom_key e) ≡ false
unfolding custom_key eq_bytes
custom_key_ne d e ne = ne

-- A name without a colon is not the key of a port or of a custom domain.
eq_bytes-has_byte :
    (c : ℕ) (s t : Bytes) → has_byte c s ≡ true → has_byte c t ≡ false → eq_bytes s t ≡ false
eq_bytes-has_byte c s t h n = elim (Bool-cases (eq_bytes s t)) [
  | inl e ↦ absurd (clash (ap (has_byte c) (eq_bytes-eq s t e)))
  | inr e ↦ e
]
  where
    clash : has_byte c s ≡ has_byte c t → ⊥
    clash p = cc

pub port_key-subdomain :
    (p : ℕ) (s : Bytes) → has_byte 58 s ≡ false → eq_bytes (port_key p) s ≡ false
unfolding port_key has_byte
port_key-subdomain p s n = eq_bytes-has_byte 58 _ s refl n

pub custom_key-subdomain : (d s : Bytes) → has_byte 58 s ≡ false → eq_bytes (custom_key d) s ≡ false
unfolding custom_key has_byte
custom_key-subdomain d s n = eq_bytes-has_byte 58 _ s refl n

all_allowed-has_byte : (s : Bytes) → all_allowed s ≡ true → has_byte 58 s ≡ false
unfolding all_allowed has_byte is_alpha_num
all_allowed-has_byte [] e = refl
all_allowed-has_byte (c ∷ s) e = ground (arith, all_allowed-has_byte s)

-- A valid subdomain has no colon.
pub is_valid_subdomain-has_byte : (s : Bytes) → is_valid_subdomain s ≡ true → has_byte 58 s ≡ false
unfolding is_valid_subdomain
is_valid_subdomain-has_byte [] e = cc
is_valid_subdomain-has_byte (c ∷ s) e = all_allowed-has_byte (c ∷ s) (ground arith)
