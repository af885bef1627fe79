-- ===== src/Server/Edge/Access/Addresses.antt =====
-- Which addresses a tunnel's list admits.
use wire_rift.Prelude.{
  ◌≡◌, refl, sym, ap, Bool, true, false, if_split, maybe, List, [], ◌∷◌, Option, none, some, Bytes,
  eq_bytes, eq_bytes-eq, ◌⊎◌, inl, inr,
}
use wire_rift.Server.Names.{has_byte}
use wire_rift.Server.Edge.Access.{
  Net, is_ip_allowed, entry_allows, any_allows, trim_opening, trim_closing,
}

-- Whether an entry of a tunnel's list admits an address: a network, written with a slash, that
-- contains it, the same address in any notation, or the same text.
abbrev pub Admits : Net → Bytes → Bytes → Type 0
Admits net ip entry =
    ((has_byte 47 entry ≡ true)
      × (network : Bytes → Bool) × (address : Bytes) × (net.parse_cidr entry ≡ some network)
      × (net.parse_ip ip ≡ some address)
      × (network address ≡ true))
    ⊎ ((has_byte 47 entry ≡ false)
        × (((address : Bytes) × (net.parse_ip entry ≡ some address)
              × (net.parse_ip ip ≡ some address))
            ⊎ (ip ≡ entry)))

abbrev pub SomeAdmits : Net → Bytes → List Bytes → Type 0
SomeAdmits net ip [] = ⊥
SomeAdmits net ip (entry ∷ l) = Admits net ip entry ⊎ SomeAdmits net ip l

network_contains :
    (o : Option (Bytes → Bool)) (a : Option Bytes)
    → maybe o false (λ contains. maybe a false contains) ≡ true
    → (network : Bytes → Bool) × (address : Bytes) × (o ≡ some network)
      × (a ≡ some address)
      × (network address ≡ true)
network_contains none a e = absurd (cc e)
network_contains (some f) none e = absurd (cc e)
network_contains (some f) (some a) e = (f, a, refl, refl, e)

same_address :
    (o a : Option Bytes)
    → maybe o false (λ x. maybe a false (eq_bytes x)) ≡ true
    → (address : Bytes) × (o ≡ some address) × (a ≡ some address)
same_address none a e = absurd (cc e)
same_address (some x) none e = absurd (cc e)
same_address (some x) (some y) e = (x, refl, ap some (sym (eq_bytes-eq x y e)))

entry_allows-Admits :
    (net : Net) (ip entry : Bytes) → entry_allows net ip entry ≡ true → Admits net ip entry
unfolding entry_allows
entry_allows-Admits net ip entry =
    if_split Fine (has_byte 47 entry)
      (λ slash e.
        let (f, a, o, p, q) = network_contains (net.parse_cidr entry) (net.parse_ip ip) e in
        inl (slash, f, a, o, p, q))
      (λ plain.
        if_split Fine
          (maybe (net.parse_ip entry) false (λ a. maybe (net.parse_ip ip) false (eq_bytes a)))
          (λ same _. inr (plain, inl (same_address (net.parse_ip entry) (net.parse_ip ip) same)))
          (λ _ e. inr (plain, inr (eq_bytes-eq ip entry e))))
  where
    Fine : Bool → Type 0
    Fine b = b ≡ true → Admits net ip entry

any_allows-SomeAdmits :
    (net : Net) (ip : Bytes) (l : List Bytes) → any_allows net ip l ≡ true → SomeAdmits net ip l
unfolding any_allows
any_allows-SomeAdmits net ip [] e = cc e
any_allows-SomeAdmits net ip (entry ∷ l) h =
    if_split (λ (b : Bool). b ≡ true → SomeAdmits net ip (entry ∷ l)) (entry_allows net ip entry)
      (λ e _. inl (entry_allows-Admits net ip entry e))
      (λ _ e. inr (any_allows-SomeAdmits net ip l e)) h

pub is_ip_allowed-SomeAdmits :
    (net : Net) (ip : Bytes) (l : List Bytes)
    → is_ip_allowed net ip l ≡ true
    → SomeAdmits net (trim_closing (trim_opening ip)) l
unfolding is_ip_allowed
is_ip_allowed-SomeAdmits net ip l = any_allows-SomeAdmits net (trim_closing (trim_opening ip)) l
