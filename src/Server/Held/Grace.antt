-- ===== src/Server/Held/Grace.antt =====
-- A held name stays with its account for the grace period.
use wire_rift.Prelude.{
  ℕ, ◌+◌, ◌<◌, ◌≤◌, ◌≡◌, ap, sym, ◌∙◌, true, false, ltb, le→ltb, ltb→lt, ◌==◌, if_cases, if_split,
  maybe, maybe_cases, List, [], ◌∷◌, Option, some, All, Bytes, eq_bytes, eq_bytes-eq, lookup,
  lookup-store_same, lookup-store_ne, lookup-delete_ne, arith, Bool-cases, inl, inr,
}
use wire_rift.Server.Held.{HeldName, HeldNames, hold_subdomain, held_by, sweep_held}

-- What else may happen to the held names: someone asks for a name, the sweep runs, a name is held.
pub data HeldOp : Type 0 where
  ask : ℕ → Bytes → HeldOp
  sweep : ℕ → HeldOp
  hold : ℕ → Bytes → Bytes → HeldOp

unfoldable pub apply_op : ℕ → HeldOp → HeldNames → HeldNames
apply_op grace (ask now k) held = (held_by now k held).1
apply_op grace (sweep now) held = sweep_held now held
apply_op grace (hold now k a) held = hold_subdomain grace now k a held

unfoldable pub apply_ops : ℕ → List HeldOp → HeldNames → HeldNames
apply_ops grace [] held = held
apply_ops grace (op ∷ ops) held = apply_ops grace ops (apply_op grace op held)

-- An operation that comes no later than `until` and does not hold the name itself.
abbrev pub IsHarmless : ℕ → Bytes → HeldOp → Type 0
IsHarmless until name (ask now k) = now ≤ until
IsHarmless until name (sweep now) = now ≤ until
IsHarmless until name (hold now k a) = eq_bytes k name ≡ false

same_until :
    (name : Bytes) (held : HeldNames) (g h : HeldName)
    → lookup name held ≡ some g
    → lookup name held ≡ some h
    → g.until ≡ h.until
same_until name held g h e f = ap (λ (o : Option HeldName). maybe o 0 (λ x. x.until)) (sym e ∙ f)

sweep-keeps :
    (now : ℕ) (name : Bytes) (held : HeldNames) (h : HeldName)
    → now ≤ h.until
    → lookup name held ≡ some h
    → lookup name (sweep_held now held) ≡ some h
unfolding sweep_held lookup
sweep-keeps now name [] h l e = cc
sweep-keeps now name ((k, g) ∷ held) h l e = elim (Bool-cases (eq_bytes k name)) [
  | inl hit ↦
      if_split (λ (out : HeldNames). lookup name out ≡ some h) (ltb g.until now)
        (λ late. absurd (
          omega (
            arith,
            ltb→lt g.until now late,
            l,
            ap (λ (o : Option HeldName). maybe o 0 (λ x. x.until)) (rw hit at e),
          )))
        (λ _. rw hit (rw hit at e))
  | inr miss ↦
      if_cases (λ (out : HeldNames). lookup name out ≡ some h) (ltb g.until now)
        (sweep-keeps now name held h l (rw miss at e))
        (rw miss (sweep-keeps now name held h l (rw miss at e)))
]

ask-keeps :
    (now : ℕ) (k name : Bytes) (held : HeldNames) (h : HeldName)
    → now ≤ h.until
    → lookup name held ≡ some h
    → lookup name (held_by now k held).1 ≡ some h
unfolding held_by
ask-keeps now k name held h l e =
    maybe_cases (λ (out : Option Bytes × HeldNames). lookup name out.1 ≡ some h) (lookup k held)
      (λ _. e)
      (λ g f.
        if_split (λ (out : Option Bytes × HeldNames). lookup name out.1 ≡ some h) (ltb g.until now)
          (λ late. lookup-delete_ne name k held (other_name g f late) ∙ e) (λ _. e))
  where
    other_name :
        (g : HeldName) → lookup k held ≡ some g → ltb g.until now ≡ true → eq_bytes k name ≡ false
    other_name g f late = elim (Bool-cases (eq_bytes k name)) [
      | inl same ↦ absurd (
          omega (
            arith,
            ltb→lt g.until now late,
            l,
            same_until name held g h (ap (λ z. lookup z held) (sym (eq_bytes-eq k name same)) ∙ f)
                e,
          ))
      | inr ne ↦ ne
    ]

hold-keeps :
    (grace now : ℕ) (k a name : Bytes) (held : HeldNames) (h : HeldName)
    → eq_bytes k name ≡ false
    → lookup name held ≡ some h
    → lookup name (hold_subdomain grace now k a held) ≡ some h
unfolding hold_subdomain
hold-keeps grace now k a name held h ne e =
    if_cases (λ (out : HeldNames). lookup name out ≡ some h) (grace == 0) e
      (lookup-store_ne name k (record { account_id = a; until = now + grace }) held ne ∙ e)

ops-keep :
    (grace : ℕ) (ops : List HeldOp) (name : Bytes) (held : HeldNames) (h : HeldName)
    → All (IsHarmless h.until name) ops
    → lookup name held ≡ some h
    → lookup name (apply_ops grace ops held) ≡ some h
unfolding apply_ops apply_op
ops-keep grace [] name held h all e = e
ops-keep grace (ask now k ∷ ops) name held h all e =
    ops-keep grace ops name _ h all.1 (ask-keeps now k name held h all.0 e)
ops-keep grace (sweep now ∷ ops) name held h all e =
    ops-keep grace ops name _ h all.1 (sweep-keeps now name held h all.0 e)
ops-keep grace (hold now k a ∷ ops) name held h all e =
    ops-keep grace ops name _ h all.1 (hold-keeps grace now k a name held h all.0 e)

-- With a positive grace period, a name that is held when its session drops is reported for its
-- account at every time of the period, if nobody holds the name again and whatever is asked, swept
-- or held for other names within the period.
pub held_by-hold_subdomain :
    (grace now later : ℕ) (name account : Bytes) (ops : List HeldOp) (held : HeldNames)
    → 0 < grace
    → later ≤ now + grace
    → All (IsHarmless (now + grace) name) ops
    → (held_by later name (apply_ops grace ops (hold_subdomain grace now name account held))).0
      ≡ some account
unfolding held_by hold_subdomain
held_by-hold_subdomain grace now later name account ops held g l all = rw (
  ops-keep grace ops name (hold_subdomain grace now name account held) h all first,
  le→ltb (now + grace) later l,
)
  where
    h : HeldName
    h = record { account_id = account; until = now + grace }

    positive : (grace == 0) ≡ true → ⊥
    positive z = ground arith

    first : lookup name (hold_subdomain grace now name account held) ≡ some h
    first =
        if_split (λ (out : HeldNames). lookup name out ≡ some h) (grace == 0)
          (λ z. absurd (positive z)) (λ _. lookup-store_same name h held)
