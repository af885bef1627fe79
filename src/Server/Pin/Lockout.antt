-- ===== src/Server/Pin/Lockout.antt =====
-- When the guard locks a key.
use wire_rift.Prelude.{
  ℕ, ◌+◌, ◌-◌, ◌≤◌, ◌<◌, ◌≡◌, refl, ap, ◌∙◌, true, false, ltb, le→ltb, lt→ltb, if_cases, if_split,
  maybe, List, [], ◌∷◌, length, Option, none, some, Bytes, eq_bytes, lookup, store,
  lookup-store_same, arith, Bool-cases, inl, inr,
}
use wire_rift.Server.Pin.{
  pin_lockout, PinFailure, Failures, locked, drop_stale, current, one_more, fail,
}

drop_stale-keeps :
    (now : ℕ) (key : Bytes) (g : Failures) (f : PinFailure)
    → now - f.last ≤ pin_lockout
    → lookup key g ≡ some f
    → lookup key (drop_stale now g) ≡ some f
unfolding drop_stale lookup
drop_stale-keeps now key [] f l e = cc
drop_stale-keeps now key ((k, x) ∷ g) f l e = elim (Bool-cases (eq_bytes k key)) [
  | inl hit ↦
      if_split (λ (out : Failures). lookup key out ≡ some f) (ltb pin_lockout (now - x.last))
        (λ late. absurd (not_late (rw hit at e) late)) (λ _. rw hit (rw hit at e))
  | inr miss ↦
      if_cases (λ (out : Failures). lookup key out ≡ some f) (ltb pin_lockout (now - x.last))
        (drop_stale-keeps now key g f l (rw miss at e))
        (rw miss (drop_stale-keeps now key g f l (rw miss at e)))
]
  where
    not_late : some x ≡ some f → ltb pin_lockout (now - x.last) ≡ true → ⊥
    not_late s late = ground (arith, ap (λ (o : Option PinFailure). maybe o 0 (λ y. y.last)) s)

current_soon : (now : ℕ) (f : PinFailure) → now ≤ f.last + pin_lockout → current now (some f) ≡ f
unfolding current
current_soon now f l = rw (le→ltb pin_lockout (now - f.last) (omega (arith, l)))

-- A failure soon after the last one adds to it.
fail-adds :
    (now : ℕ) (key : Bytes) (g : Failures) (f : PinFailure)
    → now ≤ f.last + pin_lockout
    → lookup key g ≡ some f
    → lookup key (fail now key g).1 ≡ some (one_more now f)
unfolding fail
fail-adds now key g f l e =
    if_cases
      (λ (kept : Failures).
        lookup key (store key (one_more now (current now (lookup key kept))) kept)
        ≡ some (one_more now f))
      (ltb 10000 (length g))
      (added (drop_stale now g) (drop_stale-keeps now key g f (omega (arith, l)) e)) (added g e)
  where
    added :
        (kept : Failures)
        → lookup key kept ≡ some f
        → lookup key (store key (one_more now (current now (lookup key kept))) kept)
          ≡ some (one_more now f)
    added kept e' =
        lookup-store_same key (one_more now (current now (lookup key kept))) kept
        ∙ ap (λ o. some (one_more now (current now o))) e'
        ∙ ap (λ x. some (one_more now x)) (current_soon now f l)

drop_stale-none :
    (now : ℕ) (key : Bytes) (g : Failures)
    → lookup key g ≡ none
    → lookup key (drop_stale now g) ≡ none
unfolding drop_stale lookup
drop_stale-none now key [] e = refl
drop_stale-none now key ((k, x) ∷ g) e = elim (Bool-cases (eq_bytes k key)) [
  | inl hit ↦ absurd (never (rw hit at e))
  | inr miss ↦
      if_cases (λ (out : Failures). lookup key out ≡ none) (ltb pin_lockout (now - x.last))
        (drop_stale-none now key g (rw miss at e))
        (rw miss (drop_stale-none now key g (rw miss at e)))
]
  where
    never : some x ≡ none → ⊥
    never s = cc

first_entry :
    (now : ℕ)
    → some (one_more now (current now none)) ≡ some (record { count = 1; until = 0; last = now })
unfolding one_more current
first_entry now = refl

-- The first failure of a key.
fail_first :
    (now : ℕ) (key : Bytes) (g : Failures)
    → lookup key g ≡ none
    → lookup key (fail now key g).1 ≡ some (record { count = 1; until = 0; last = now })
unfolding fail
fail_first now key g e =
    if_cases
      (λ (kept : Failures).
        lookup key (store key (one_more now (current now (lookup key kept))) kept)
        ≡ some (record { count = 1; until = 0; last = now }))
      (ltb 10000 (length g)) (added (drop_stale now g) (drop_stale-none now key g e)) (added g e)
  where
    added :
        (kept : Failures)
        → lookup key kept ≡ none
        → lookup key (store key (one_more now (current now (lookup key kept))) kept)
          ≡ some (record { count = 1; until = 0; last = now })
    added kept e' =
        lookup-store_same key (one_more now (current now (lookup key kept))) kept
        ∙ ap (λ o. some (one_more now (current now o))) e'
        ∙ first_entry now

-- The failures of one key at the given times, one after the other.
abbrev pub fail_all : Bytes → List ℕ → Failures → Failures
fail_all key [] g = g
fail_all key (t ∷ ts) g = fail_all key ts (fail t key g).1

-- Five wrong PINs of one key, each within 5 minutes of the one before, lock a key without earlier
-- failures: at every time before 5 minutes after the fifth. Four of them do not lock it.
pub locked-fail_all :
    (t1 t2 t3 t4 t5 now : ℕ) (key : Bytes) (g : Failures)
    → lookup key g ≡ none
    → t2 ≤ t1 + pin_lockout
    → t3 ≤ t2 + pin_lockout
    → t4 ≤ t3 + pin_lockout
    → t5 ≤ t4 + pin_lockout
    → now < t5 + pin_lockout
    → (locked now key (fail_all key (t1 ∷ t2 ∷ t3 ∷ t4 ∷ []) g) ≡ false)
      × (locked now key (fail_all key (t1 ∷ t2 ∷ t3 ∷ t4 ∷ t5 ∷ []) g) ≡ true)
unfolding locked one_more
locked-fail_all t1 t2 t3 t4 t5 now key g e l2 l3 l4 l5 l = (
  ap (λ o. maybe o false (λ f. ltb now f.until)) e4 ∙ ground arith,
  ap (λ o. maybe o false (λ f. ltb now f.until)) e5 ∙ lt→ltb now (t5 + pin_lockout) l,
)
  where
    g1 : Failures
    g1 = (fail t1 key g).1

    g2 : Failures
    g2 = (fail t2 key g1).1

    g3 : Failures
    g3 = (fail t3 key g2).1

    g4 : Failures
    g4 = (fail t4 key g3).1

    e2 : lookup key g2 ≡ some (record { count = 2; until = 0; last = t2 })
    e2 = fail-adds t2 key g1 (record { count = 1; until = 0; last = t1 }) l2 (fail_first t1 key g e)

    e3 : lookup key g3 ≡ some (record { count = 3; until = 0; last = t3 })
    e3 = fail-adds t3 key g2 (record { count = 2; until = 0; last = t2 }) l3 e2

    e4 : lookup key g4 ≡ some (record { count = 4; until = 0; last = t4 })
    e4 = fail-adds t4 key g3 (record { count = 3; until = 0; last = t3 }) l4 e3

    e5 :
        lookup key (fail t5 key g4).1
        ≡ some (record { count = 0; until = t5 + pin_lockout; last = t5 })
    e5 = fail-adds t5 key g4 (record { count = 4; until = 0; last = t4 }) l5 e4
