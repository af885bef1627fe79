-- ===== src/Server/Edge/Hosts.antt =====
-- The host of a request, with or without a port, and the names under the base domain.
use mathlib.Core.Path.{subst}
use wire_rift.Prelude.{
  ℕ, ◌-◌, ◌<◌, ◌≡◌, ◌≢◌, refl, sym, ap, ◌∙◌, false, not, ◌==◌, ==_iff, if◌then◌else◌, if_split,
  maybe, [], ◌∷◌, ◌++◌, length, length-append, take, take_append, take-append-drop, drop,
  drop_append, Option, none, some, Bytes, eq_bytes, eq_bytes_refl, eq_bytes-eq, leb, arith,
}
use wire_rift.Server.Names.{has_byte}
use wire_rift.Server.Edge.{before_colon, cut_port, cut_suffix}

-- A host and the name that it has before its port, if it has one.
pub data IsHostOf : Bytes → Bytes → Type 0 where
  without_port : (name : Bytes) → has_byte 58 name ≡ false → IsHostOf name name
  with_port : (name port : Bytes) → has_byte 58 port ≡ false → IsHostOf (name ++ (58 ∷ port)) name

-- What `before_colon` says of a host.
abbrev IfSplit : Bytes → Option Bytes → Type 0
IfSplit s none = has_byte 58 s ≡ false
IfSplit s (some name) = (port : Bytes) × (s ≡ name ++ (58 ∷ port)) × (has_byte 58 port ≡ false)

IfSplit-cons :
    (c : ℕ) (s : Bytes) (o : Option Bytes)
    → IfSplit s o
    → IfSplit (c ∷ s) (maybe o (if c == 58 then some [] else none) (λ rest. some (c ∷ rest)))
unfolding has_byte
IfSplit-cons c s none h =
    if_split (IfSplit (c ∷ s)) (c == 58) (λ e. (s, ap (λ d. d ∷ s) ((==_iff c 58).0 e), h))
      (λ e. rw e h)
IfSplit-cons c s (some name) (port, e, f) = (port, ap (◌∷◌ c) e, f)

before_colon-IfSplit : (s : Bytes) → IfSplit s (before_colon s)
unfolding before_colon has_byte
before_colon-IfSplit [] = refl
before_colon-IfSplit (c ∷ s) = IfSplit-cons c s (before_colon s) (before_colon-IfSplit s)

-- What `cut_port` leaves is the name before the port.
pub cut_port-IsHostOf : (host : Bytes) → IsHostOf host (cut_port host)
unfolding cut_port
cut_port-IsHostOf host = named (before_colon host) (before_colon-IfSplit host)
  where
    named : (o : Option Bytes) → IfSplit host o → IsHostOf host (maybe o host (λ h. h))
    named none h = without_port host h
    named (some name) (port, e, f) = subst (λ s. IsHostOf s name) (sym e) (with_port name port f)

pub before_colon-none : (s : Bytes) → has_byte 58 s ≡ false → before_colon s ≡ none
unfolding before_colon has_byte
before_colon-none [] h = refl
before_colon-none (c ∷ s) h = ground (arith, before_colon-none s)

pub before_colon-append :
    (s port : Bytes) → has_byte 58 port ≡ false → before_colon (s ++ (58 ∷ port)) ≡ some s
unfolding before_colon
before_colon-append [] port h = rw (before_colon-none port h) refl
before_colon-append (c ∷ s) port h = rw (before_colon-append s port h) refl

pub has_byte-append :
    (c : ℕ) (a b : Bytes)
    → has_byte c a ≡ false
    → has_byte c b ≡ false
    → has_byte c (a ++ b) ≡ false
unfolding has_byte
has_byte-append c [] b h k = k
has_byte-append c (d ∷ a) b h k = ground (arith, has_byte-append c a b)

pub cut_suffix-append :
    (sub suffix : Bytes) → 0 < length sub → cut_suffix (sub ++ suffix) suffix ≡ sub
unfolding cut_suffix
cut_suffix-append sub suffix pos =
    rw (longer, drop_append _ sub suffix rest, eq_bytes_refl suffix, take_append _ sub suffix rest)
      refl
  where
    longer : leb (length (sub ++ suffix)) (length suffix) ≡ false
    longer = ground (arith, length-append sub suffix)

    rest : length (sub ++ suffix) - length suffix ≡ length sub
    rest = omega (arith, length-append sub suffix)

-- The port is cut off any host.
pub cut_port-name : {host name : Bytes} → IsHostOf host name → cut_port host ≡ name
unfolding cut_port
cut_port-name (without_port name h) = rw (before_colon-none name h) refl
cut_port-name (with_port name port h) = rw (before_colon-append name port h) refl

-- What is left of a name under the base domain, with the suffix, is that name.
pub cut_suffix-joined :
    (host suffix : Bytes)
    → 0 < length (cut_suffix host suffix)
    → cut_suffix host suffix ++ suffix ≡ host
unfolding cut_suffix
cut_suffix-joined host suffix =
    if_split Joined (leb (length host) (length suffix)) (λ _ h. absurd (omega arith))
      (λ _.
        if_split Joined (not (eq_bytes (drop n host) suffix)) (λ _ h. absurd (omega arith))
          (λ e _.
            ap (◌++◌ (take n host)) (sym (eq_bytes-eq (drop n host) suffix (ground arith)))
            ∙ take-append-drop n host))
  where
    n : ℕ
    n = length host - length suffix

    Joined : Bytes → Type 0
    Joined s = 0 < length s → s ++ suffix ≡ host

-- Where nothing is left, the host is not a name under the base domain.
pub cut_suffix-outside :
    (host suffix : Bytes)
    → length (cut_suffix host suffix) ≡ 0
    → (name : Bytes) → 0 < length name
    → host ≢ name ++ suffix
cut_suffix-outside host suffix e name pos p = absurd (
    omega
      (arith, e, ap length (ap (λ h. cut_suffix h suffix) p ∙ cut_suffix-append name suffix pos)))
