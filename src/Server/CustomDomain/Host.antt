-- ===== src/Server/CustomDomain/Host.antt =====
-- What an accepted custom domain looks like.
use wire_rift.Prelude.{
  ℕ, ◌-◌, ◌≤◌, ◌<◌, ◌≡◌, ◌≢◌, refl, sym, ap, ap₂, ◌∙◌, true, false, not, ◌||◌, ltb, leb, ◌==◌,
  if_split, List, [], ◌∷◌, ◌++◌, length, drop_append, length-append, All, Bytes, eq_bytes,
  eq_bytes_refl, arith, ◌⊎◌, inl, inr, Bool-cases, ==_iff, &&_both, ||_neither,
}
use wire_rift.Server.Names.{has_byte}
use wire_rift.Server.CustomDomain.{
  Externals, Checked, rejected, accepted, trim_dot, has_suffix, split_dots, push_label,
  is_host_byte, all_host_bytes, ends_in_hyphen, starts_with_hyphen, is_label, all_labels, is_under,
  check_domain, normalize_custom_domain,
}

-- A lowercase letter, a digit or a hyphen.
abbrev pub HostByte : ℕ → Type 0
HostByte c = ((97 ≤ c) × (c ≤ 122)) ⊎ (((48 ≤ c) × (c ≤ 57)) ⊎ (c ≡ 45))

-- A label of a host name: 1 to 63 such bytes, with no hyphen at either end.
pub record HostLabel (l : Bytes) : Type 0 where
  pub not_empty : 1 ≤ length l
  pub short : length l ≤ 63
  pub bytes : All HostByte l
  pub first : (s : Bytes) → l ≢ 45 ∷ s
  pub last : (s : Bytes) → l ≢ s ++ (45 ∷ [])

-- The labels put together again.
abbrev pub join_dots : List Bytes → Bytes
join_dots [] = []
join_dots (l ∷ []) = l
join_dots (l ∷ (k ∷ ls)) = l ++ (46 ∷ join_dots (k ∷ ls))

is_host_byte-HostByte : (c : ℕ) → is_host_byte c ≡ true → HostByte c
unfolding is_host_byte
is_host_byte-HostByte c e = ground arith

all_host_bytes-All : (l : Bytes) → all_host_bytes l ≡ true → All HostByte l
unfolding all_host_bytes
all_host_bytes-All [] e = tt
all_host_bytes-All (c ∷ l) e =
    (is_host_byte-HostByte c (&&_both _ _ e).0, all_host_bytes-All l (&&_both _ _ e).1)

ends_in_hyphen-append : (s : Bytes) → ends_in_hyphen (s ++ (45 ∷ [])) ≡ true
unfolding ends_in_hyphen
ends_in_hyphen-append [] = refl
ends_in_hyphen-append (c ∷ []) = refl
ends_in_hyphen-append (c ∷ (d ∷ s)) = ends_in_hyphen-append (d ∷ s)

label_tests :
    (l : Bytes)
    → is_label l ≡ true
    → ((length l == 0) ≡ false)
      × (ltb 63 (length l) ≡ false)
      × (starts_with_hyphen l ≡ false)
      × (ends_in_hyphen l ≡ false)
      × (all_host_bytes l ≡ true)
unfolding is_label
label_tests l e = ground arith

is_label-HostLabel : (l : Bytes) → is_label l ≡ true → HostLabel l
unfolding starts_with_hyphen
is_label-HostLabel l e =
    let (a, b, c, d, f) = label_tests l e in
    record {
      not_empty = ground arith;
      short = ground arith;
      bytes = all_host_bytes-All l f;
      first = λ s p. cc (sym (ap starts_with_hyphen p) ∙ c);
      last = λ s p. cc (sym (ends_in_hyphen-append s) ∙ sym (ap ends_in_hyphen p) ∙ d);
    }

all_labels-All : (ls : List Bytes) → all_labels ls ≡ true → All HostLabel ls
unfolding all_labels
all_labels-All [] e = tt
all_labels-All (l ∷ ls) e =
    (is_label-HostLabel l (&&_both _ _ e).0, all_labels-All ls (&&_both _ _ e).1)

join_dots-push_label : (c : ℕ) (ls : List Bytes) → join_dots (push_label c ls) ≡ c ∷ join_dots ls
join_dots-push_label c [] = refl
join_dots-push_label c (l ∷ []) = refl
join_dots-push_label c (l ∷ (k ∷ ls)) = refl

split_dots-cons : (s : Bytes) → (l : Bytes) × (ls : List Bytes) × (split_dots s ≡ l ∷ ls)
unfolding split_dots
split_dots-cons [] = ([], [], refl)
split_dots-cons (c ∷ s) = elim (Bool-cases (c == 46)) [
  | inl e ↦ ([], split_dots s, rw e refl)
  | inr e ↦ let (l, ls, h) = split_dots-cons s in (c ∷ l, ls, rw e (ap (push_label c) h))
]

join_dots-next :
    (ls : List Bytes) (l : Bytes) (ks : List Bytes)
    → ls ≡ l ∷ ks
    → join_dots ([] ∷ ls) ≡ 46 ∷ join_dots ls
join_dots-next ls l ks e = ap (λ m. join_dots ([] ∷ m)) e ∙ ap (λ m. 46 ∷ join_dots m) (sym e)

join_dots-split_dots : (s : Bytes) → join_dots (split_dots s) ≡ s
unfolding split_dots
join_dots-split_dots [] = refl
join_dots-split_dots (c ∷ s) = elim (Bool-cases (c == 46)) [
  | inl e ↦
      let (l, ls, h) = split_dots-cons s in
      rw e (
        join_dots-next (split_dots s) l ls h
        ∙ ap₂ (λ d t. d ∷ t) (sym ((==_iff c 46).0 e)) (join_dots-split_dots s))
  | inr e ↦ rw e (join_dots-push_label c (split_dots s) ∙ ap (λ t. c ∷ t) (join_dots-split_dots s))
]

has_suffix-append : (s t : Bytes) → has_suffix (s ++ t) t ≡ true
unfolding has_suffix
has_suffix-append s t =
    rw (enough, drop_append (length (s ++ t) - length t) s t place) (eq_bytes_refl t)
  where
    place : length (s ++ t) - length t ≡ length s
    place = omega (arith, length-append s t)

    enough : leb (length t) (length (s ++ t)) ≡ true
    enough = ground (arith, length-append s t)

-- What `normalizeCustomDomain` accepts.
pub record HostName (lib : Externals) (base d : Bytes) : Type 0 where
  pub short : length d ≤ 253
  pub not_ip : lib.is_ip d ≡ false
  pub labels : List Bytes
  pub joined : join_dots labels ≡ d
  pub two : 2 ≤ length labels
  pub each : All HostLabel labels
  pub not_base : 0 < length base → d ≢ base
  pub not_under : 0 < length base → (s : Bytes) → d ≢ s ++ (46 ∷ base)

abbrev pub IfAccepted : Externals → Bytes → Checked → Type 0
IfAccepted lib base (rejected e) = Unit {0}
IfAccepted lib base (accepted d) = HostName lib base d

outside :
    (base d : Bytes)
    → is_under base d ≡ false
    → 0 < length base
    → (eq_bytes d base ≡ false) × (has_suffix d (46 ∷ base) ≡ false)
unfolding is_under
outside base d e pos = ||_neither _ _ (rw positive at e)
  where
    positive : ltb 0 (length base) ≡ true
    positive = ground arith

accepted-HostName :
    (lib : Externals) (base d : Bytes)
    → ltb 253 (length d) ≡ false
    → lib.is_ip d ≡ false
    → ltb (length (split_dots d)) 2 ≡ false
    → all_labels (split_dots d) ≡ true
    → is_under base d ≡ false
    → HostName lib base d
accepted-HostName lib base d a b c e f = record {
  short = ground arith;
  not_ip = b;
  labels = split_dots d;
  joined = join_dots-split_dots d;
  two = ground arith;
  each = all_labels-All (split_dots d) e;
  not_base = λ pos p.
      cc (sym (eq_bytes_refl base) ∙ ap (λ t. eq_bytes t base) (sym p) ∙ (outside base d f pos).0);
  not_under = λ pos s p. cc (
      sym (has_suffix-append s (46 ∷ base))
      ∙ ap (λ t. has_suffix t (46 ∷ base)) (sym p)
      ∙ (outside base d f pos).1);
}

check_domain-accepted :
    (lib : Externals) (base d : Bytes) → IfAccepted lib base (check_domain lib base d)
unfolding check_domain
check_domain-accepted lib base d =
    if_split (IfAccepted lib base) (length d == 0 || ltb 253 (length d)) (λ _. tt)
      (λ a.
        if_split (IfAccepted lib base) (lib.is_ip d) (λ _. tt)
          (λ b.
            if_split (IfAccepted lib base) (has_byte 42 d) (λ _. tt)
              (λ _.
                if_split (IfAccepted lib base) (ltb (length (split_dots d)) 2) (λ _. tt)
                  (λ c.
                    if_split (IfAccepted lib base) (not (all_labels (split_dots d))) (λ _. tt)
                      (λ e.
                        if_split (IfAccepted lib base) (is_under base d) (λ _. tt)
                          (λ f.
                            accepted-HostName lib base d (||_neither _ _ a).1 b c (not_false e)
                              f))))))
  where
    not_false : not (all_labels (split_dots d)) ≡ false → all_labels (split_dots d) ≡ true
    not_false e = ground arith

-- A custom domain that is accepted is a host name: at most 253 bytes, no IP address, two labels or
-- more that are joined by dots, each of 1 to 63 lowercase letters, digits and hyphens with no
-- hyphen at either end; and it is neither the lowercased base domain, where there is one, nor a
-- name under it.
pub normalize_custom_domain-HostName :
    (lib : Externals) (domain base_domain : Bytes)
    → IfAccepted lib (lib.to_lower base_domain) (normalize_custom_domain lib domain base_domain)
unfolding normalize_custom_domain
normalize_custom_domain-HostName lib domain base_domain =
    check_domain-accepted lib (lib.to_lower base_domain)
      (lib.to_lower (trim_dot (lib.trim_space domain)))
