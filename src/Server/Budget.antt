-- ===== src/Server/Budget.antt =====
-- internal/server/bodybudget.go: the cap on the request-body bytes that are held in memory. Byte
-- counts stay far below 2^63.
use wire_rift.Prelude.{
  ℕ, ◌+◌, ◌-◌, ◌≤◌, ◌≡◌, refl, Bool, true, false, ltb, ◌==◌, if◌then◌else◌, if_split, List, [], ◌∷◌,
  ◌++◌, Option, none, some, arith,
}

-- `byteBudget`; a budget that is `none` is unlimited.
pub record ByteBudget : Type 0 where
  pub max : ℕ
  pub used : ℕ

-- `newByteBudget`; a limit that is not positive is 0 here.
unfoldable pub new_byte_budget : ℕ → Option ByteBudget
new_byte_budget limit = if limit == 0 then none else some (record { max = limit; used = 0 })

-- `take` and `give`; the load and the compare-and-swap of `take` are one step.
unfoldable pub take_bytes : Option ByteBudget → ℕ → Bool × Option ByteBudget
take_bytes none n = (true, none)
take_bytes (some b) n =
    if ltb b.max (b.used + n)
    then (false, some b)
    else (true, some (record b { used = b.used + n }))

unfoldable pub give_bytes : Option ByteBudget → ℕ → Option ByteBudget
give_bytes none n = none
give_bytes (some b) n = if ltb 0 n then some (record b { used = b.used - n }) else some b

-- A `budgetBody`: what the wrapped body still holds, and what was charged for it.
pub record BudgetBody : Type 0 where
  pub held : ℕ

pub data BodyError : Type 0 where
  body_budget_exceeded : BodyError
  body_error : ℕ → BodyError

-- What `Read` returns once it tried to charge the n bytes: the result, the body, the budget.
abbrev pub charged :
    Option ByteBudget
    → BudgetBody
    → ℕ
    → Option BodyError
    → Bool × Option ByteBudget
    → (ℕ × Option BodyError) × (BudgetBody × Option ByteBudget)
charged budget b n e (true, after) = ((n, e), (record b { held = b.held + n }, after))
charged budget b n e (false, after) = ((0, some body_budget_exceeded), (b, after))

-- `Read`, where the wrapped body's Read gave n bytes and the error e.
unfoldable pub read_body_bytes :
    Option ByteBudget
    → BudgetBody
    → ℕ
    → Option BodyError
    → (ℕ × Option BodyError) × (BudgetBody × Option ByteBudget)
read_body_bytes budget b n e =
    if ltb 0 n then charged budget b n e (take_bytes budget n) else ((n, e), (b, budget))

-- `release`
unfoldable pub release_body : Option ByteBudget → BudgetBody → BudgetBody × Option ByteBudget
release_body budget b = (record b { held = 0 }, give_bytes budget b.held)

-- The bodies in flight and their budget: a request starts, reads or releases its body.
pub data Flight (limit : ℕ) : Option ByteBudget → List BudgetBody → Type 0 where
  idle : Flight limit (new_byte_budget limit) []
  arrive :
      (budget : Option ByteBudget) (l : List BudgetBody)
      → Flight limit budget l
      → Flight limit budget ((record { held = 0 }) ∷ l)
  reads :
      (budget : Option ByteBudget) (xs ys : List BudgetBody) (b : BudgetBody) (n : ℕ)
      (e : Option BodyError)
      → Flight limit budget (xs ++ (b ∷ ys))
      → Flight limit
          (read_body_bytes budget b n e).1.1
          (xs ++ ((read_body_bytes budget b n e).1.0 ∷ ys))
  releases :
      (budget : Option ByteBudget) (xs ys : List BudgetBody) (b : BudgetBody)
      → Flight limit budget (xs ++ (b ∷ ys))
      → Flight limit (release_body budget b).1 (xs ++ ((release_body budget b).0 ∷ ys))

-- The bytes that all bodies hold.
abbrev pub all_held : List BudgetBody → ℕ
all_held [] = 0
all_held (b ∷ l) = b.held + all_held l

all_held-append : (xs ys : List BudgetBody) → all_held (xs ++ ys) ≡ all_held xs + all_held ys
all_held-append [] ys = omega arith
all_held-append (x ∷ xs) ys = omega (arith, all_held-append xs ys)

-- A budget counts exactly what the bodies hold, and never more than its cap.
abbrev pub IsWithin : ℕ → Option ByteBudget → ℕ → Type 0
IsWithin limit none n = limit ≡ 0
IsWithin limit (some b) n = (b.max ≡ limit) × (b.used ≡ n) × (n ≤ limit)

reads-IsWithin :
    (limit : ℕ) (budget : Option ByteBudget) (xs ys : List BudgetBody) (b : BudgetBody) (n : ℕ)
    (e : Option BodyError)
    → IsWithin limit budget (all_held (xs ++ (b ∷ ys)))
    → IsWithin limit
        (read_body_bytes budget b n e).1.1
        (all_held (xs ++ ((read_body_bytes budget b n e).1.0 ∷ ys)))
unfolding read_body_bytes take_bytes
reads-IsWithin limit none xs ys b n e v = ground (arith, v)
reads-IsWithin limit (some g) xs ys b n e v =
    if_split P (ltb 0 n)
      (λ _.
        if_split (λ (out : Bool × Option ByteBudget). P (charged (some g) b n e out))
          (ltb g.max (g.used + n)) (λ _. v)
          (λ fits. (
            v.0,
            omega (
              arith,
              v,
              all_held-append xs (b ∷ ys),
              all_held-append xs ((record b { held = b.held + n }) ∷ ys),
            ),
            ground (
              arith,
              v,
              all_held-append xs (b ∷ ys),
              all_held-append xs ((record b { held = b.held + n }) ∷ ys),
            ),
          )))
      (λ _. v)
  where
    P : (ℕ × Option BodyError) × (BudgetBody × Option ByteBudget) → Type 0
    P out = IsWithin limit out.1.1 (all_held (xs ++ (out.1.0 ∷ ys)))

releases-IsWithin :
    (limit : ℕ) (budget : Option ByteBudget) (xs ys : List BudgetBody) (b : BudgetBody)
    → IsWithin limit budget (all_held (xs ++ (b ∷ ys)))
    → IsWithin limit (release_body budget b).1 (all_held (xs ++ ((release_body budget b).0 ∷ ys)))
unfolding release_body give_bytes
releases-IsWithin limit none xs ys b v = v
releases-IsWithin limit (some g) xs ys b v =
    if_split
      (λ (out : Option ByteBudget).
        IsWithin limit out (all_held (xs ++ ((record b { held = 0 }) ∷ ys))))
      (ltb 0 b.held) (λ _. (v.0, omega (arith, v, before, later), omega (arith, v, before, later)))
      (λ e. (v.0, ground (arith, v, before, later), ground (arith, v, before, later)))
  where
    before : all_held (xs ++ (b ∷ ys)) ≡ all_held xs + (b.held + all_held ys)
    before = all_held-append xs (b ∷ ys)

    later : all_held (xs ++ ((record b { held = 0 }) ∷ ys)) ≡ all_held xs + (0 + all_held ys)
    later = all_held-append xs ((record b { held = 0 }) ∷ ys)

-- Whatever bodies are read and released, in any order: a capped budget counts exactly the bytes
-- that the bodies hold, and they never hold more than the cap. Only a cap that is not positive
-- gives an unlimited budget.
pub Flight-IsWithin :
    {limit : ℕ} {budget : Option ByteBudget} {l : List BudgetBody}
    → Flight limit budget l
    → IsWithin limit budget (all_held l)
unfolding new_byte_budget
Flight-IsWithin {limit} idle =
    if_split (λ (out : Option ByteBudget). IsWithin limit out 0) (limit == 0) (λ e. ground arith)
      (λ e. (refl, refl, omega arith))
Flight-IsWithin {limit} (arrive none l h) = Flight-IsWithin h
Flight-IsWithin {limit} (arrive (some g) l h) =
    let v = Flight-IsWithin h in (v.0, omega (arith, v), omega (arith, v))
Flight-IsWithin {limit} (reads budget xs ys b n e h) =
    reads-IsWithin limit budget xs ys b n e (Flight-IsWithin h)
Flight-IsWithin {limit} (releases budget xs ys b h) =
    releases-IsWithin limit budget xs ys b (Flight-IsWithin h)
