-- ===== src/Server/Edge/Custom.antt =====
-- What the look-ups by host need of an accepted custom domain.
use mathlib.Core.Path.{subst}
use wire_rift.Prelude.{
  ℕ, ◌≤◌, ◌<◌, ◌≡◌, ◌≢◌, refl, ap, List, [], ◌∷◌, ◌++◌, length, length-append, All, Bytes, arith,
}
use wire_rift.Server.CustomDomain.{Externals, trim_dot}
use wire_rift.Server.CustomDomain.Host.{HostByte, HostLabel, join_dots, HostName}

-- No dot at the end, and no name under the base domain.
pub record IsApartFrom (base custom_domain : Bytes) : Type 0 where
  pub undotted : trim_dot custom_domain ≡ custom_domain
  pub outside : (name : Bytes) → custom_domain ≢ name ++ (46 ∷ base)

abbrev EndsUndotted : Bytes → Type 0
EndsUndotted [] = Unit {0}
EndsUndotted (c ∷ []) = c ≢ 46
EndsUndotted (c ∷ (d ∷ s)) = EndsUndotted (d ∷ s)

trim_dot-EndsUndotted : (s : Bytes) → EndsUndotted s → trim_dot s ≡ s
unfolding trim_dot
trim_dot-EndsUndotted [] h = refl
trim_dot-EndsUndotted (c ∷ []) h = ground arith
trim_dot-EndsUndotted (c ∷ (d ∷ s)) h = ap (◌∷◌ c) (trim_dot-EndsUndotted (d ∷ s) h)

EndsUndotted-cons : (c : ℕ) (s : Bytes) → 0 < length s → EndsUndotted s → EndsUndotted (c ∷ s)
EndsUndotted-cons c [] pos h = absurd (omega arith)
EndsUndotted-cons c (d ∷ s) pos h = h

EndsUndotted-append : (a s : Bytes) → 0 < length s → EndsUndotted s → EndsUndotted (a ++ s)
EndsUndotted-append [] s pos h = h
EndsUndotted-append (c ∷ a) s pos h =
    EndsUndotted-cons c (a ++ s) (omega (arith, length-append a s)) (EndsUndotted-append a s pos h)

label-EndsUndotted : (l : Bytes) → All HostByte l → EndsUndotted l
label-EndsUndotted [] h = tt
label-EndsUndotted (c ∷ []) (h, _) = λ e. ground arith
label-EndsUndotted (c ∷ (d ∷ l)) (_, h) = label-EndsUndotted (d ∷ l) h

join_dots-positive : (l : Bytes) (ls : List Bytes) → 1 ≤ length l → 0 < length (join_dots (l ∷ ls))
join_dots-positive l [] h = omega arith
join_dots-positive l (k ∷ ls) h = omega (arith, length-append l (46 ∷ join_dots (k ∷ ls)))

join_dots-EndsUndotted : (ls : List Bytes) → All HostLabel ls → EndsUndotted (join_dots ls)
join_dots-EndsUndotted [] h = tt
join_dots-EndsUndotted (l ∷ []) (h, _) = label-EndsUndotted l h.bytes
join_dots-EndsUndotted (l ∷ (k ∷ ls)) (_, h) =
    EndsUndotted-append l (46 ∷ join_dots (k ∷ ls)) (omega arith) (
      EndsUndotted-cons 46 (join_dots (k ∷ ls)) (join_dots-positive k ls h.0.not_empty)
        (join_dots-EndsUndotted (k ∷ ls) h))

pub HostName-IsApartFrom :
    (lib : Externals) (base d : Bytes) → 0 < length base → HostName lib base d → IsApartFrom base d
HostName-IsApartFrom lib base d pos h = record {
  undotted =
      trim_dot-EndsUndotted d
        (subst EndsUndotted h.joined (join_dots-EndsUndotted h.labels h.each));
  outside = h.not_under pos;
}
