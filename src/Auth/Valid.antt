-- ===== src/Auth/Valid.antt =====
-- A token that `ValidateToken` accepts is one that `StillValid` accepts.
use mathlib.Core.Path.{subst}
use wire_rift.Prelude.{
  ℕ, ◌<◌, ◌≡◌, ap, sym, ◌∙◌, Bool, true, false, ◌||◌, ltb, if◌then◌else◌, if_split, maybe,
  maybe_cases, List, [], ◌∷◌, length, Option, none, some, All, Bytes, eq_bytes, lookup, has_key,
  All-has_key, lookup-All, All-map, All-both, lt→ltb,
}
use wire_rift.Auth.{
  Token, Account, Manager, Origin, bootstrap, other, is_expired, with_account, check_stored,
  scan_tokens, is_dev_secret, validate_token, account_active, still_listed, still_valid_token,
  still_valid,
}

-- The maps of a manager: a token of the file stands under its digest, and one in memory under its
-- ID, without a digest.
pub record IsKeyed (m : Manager) : Type 0 where
  pub by_digest : All (λ e. e.1.hash ≡ e.0) m.by_hash
  pub digests : All (λ e. 0 < length e.0) m.by_hash
  pub by_id : All (λ e. (e.1.id ≡ e.0) × (e.1.hash ≡ [])) m.tokens
  pub dev_origin : maybe m.dev_token Unit (λ t. t.origin ≡ bootstrap)

-- What is promised of an accepted token: it is still good, and its account is the one returned,
-- which is active.
abbrev pub Accepted : ℕ → Manager → Option (Token × Account) → Type 0
Accepted now m none = Unit {0}
Accepted now m (some (t, a)) =
    (still_valid now m (some t) ≡ true)
    × (lookup t.account_id m.accounts ≡ some a)
    × (a.active ≡ true)

active_iff :
    (m : Manager) (id : Bytes) (a : Account)
    → lookup id m.accounts ≡ some a
    → a.active ≡ true
    → account_active m id ≡ true
unfolding account_active
active_iff m id a e f = rw e f

-- A token that is good once its account is active.
with_account-Accepted :
    (now : ℕ) (m : Manager) (t : Token)
    → (account_active m t.account_id ≡ true → still_valid now m (some t) ≡ true)
    → Accepted now m (with_account m t)
unfolding with_account
with_account-Accepted now m t good =
    maybe_cases (Accepted now m) (lookup t.account_id m.accounts) (λ _. tt)
      (λ a e.
        if_split (Accepted now m) a.active (λ on. (good (active_iff m t.account_id a e on), e, on))
          (λ _. tt))

by_origin :
    (now : ℕ) (m : Manager) (t : Token) (o : Origin)
    → account_active m t.account_id ≡ true
    → still_listed now m t ≡ true
    → still_valid_token now m t o ≡ true
unfolding still_valid_token
by_origin now m t bootstrap a l = a
by_origin now m t other a l = l

listed :
    (now : ℕ) (m : Manager) (t : Token)
    → (account_active m t.account_id ≡ true → still_listed now m t ≡ true)
    → account_active m t.account_id ≡ true
    → still_valid now m (some t) ≡ true
unfolding still_valid
listed now m t f a = by_origin now m t t.origin a (f a)

file_listed :
    (now : ℕ) (m : Manager) (t : Token)
    → 0 < length t.hash
    → lookup t.hash m.by_hash ≡ some t
    → (t.revoked || is_expired now t) ≡ false
    → account_active m t.account_id ≡ true
    → still_listed now m t ≡ true
unfolding still_listed
file_listed now m t h e good a = rw (lt→ltb 0 (length t.hash) h, e, good, a)

memory_listed :
    (now : ℕ) (m : Manager) (t : Token)
    → has_key t.id m.tokens ≡ true
    → t.hash ≡ []
    → is_expired now t ≡ false
    → account_active m t.account_id ≡ true
    → still_listed now m t ≡ true
unfolding still_listed
memory_listed now m t k h good a = rw (ap (λ (d : Bytes). ltb 0 (length d)) h, k, good, a)

-- A token of the file that is found under its digest.
stored-Accepted :
    (now : ℕ) (m : Manager) (d : Bytes) (t : Token)
    → IsKeyed m
    → lookup d m.by_hash ≡ some t
    → Accepted now m (check_stored now m t)
unfolding check_stored
stored-Accepted now m d t v e =
    if_split (Accepted now m) (t.revoked || is_expired now t) (λ _. tt)
      (λ good.
        with_account-Accepted now m t
          (listed now m t (λ a. file_listed now m t hashed same good a)))
  where
    digest : t.hash ≡ d
    digest = lookup-All (λ e. e.1.hash ≡ e.0) d m.by_hash t e v.by_digest

    hashed : 0 < length t.hash
    hashed =
        subst (λ k. 0 < length k) (sym digest)
          (lookup-All (λ e. 0 < length e.0) d m.by_hash t e v.digests)

    same : lookup t.hash m.by_hash ≡ some t
    same = ap (λ k. lookup k m.by_hash) digest ∙ e

-- A token in memory.
scan-Accepted :
    (now : ℕ) (m : Manager) (secret : Bytes) (l : List (Bytes × Token))
    → All (λ e. (has_key e.1.id m.tokens ≡ true) × (e.1.hash ≡ [])) l
    → Accepted now m (scan_tokens now m secret l)
unfolding scan_tokens
scan-Accepted now m secret [] all = tt
scan-Accepted now m secret ((id, t) ∷ l) all =
    if_split (Accepted now m) (eq_bytes t.secret secret)
      (λ _.
        if_split (Accepted now m) (is_expired now t) (λ _. tt)
          (λ good.
            with_account-Accepted now m t
              (listed now m t (λ a. memory_listed now m t all.0.0 all.0.1 good a))))
      (λ _. scan-Accepted now m secret l all.1)

then_some :
    (b : Bool) {o : Option Token} {t : Token} → (if b then o else none) ≡ some t → o ≡ some t
then_some true e = e
then_some false e = cc

bootstrap_good :
    (now : ℕ) (m : Manager) (t : Token)
    → t.origin ≡ bootstrap
    → account_active m t.account_id ≡ true
    → still_valid now m (some t) ≡ true
unfolding still_valid still_valid_token
bootstrap_good now m t o a = subst (λ (g : Origin). still_valid_token now m t g ≡ true) (sym o) a

-- What `ValidateToken` accepts on a manager whose maps are keyed, `StillValid` accepts at the same
-- time, and the account it returns is the token's and is active.
pub validate_token-Accepted :
    (hash_secret : Bytes → Bytes) (now : ℕ) (m : Manager) (secret : Bytes)
    → IsKeyed m
    → Accepted now m (validate_token hash_secret now m secret)
unfolding validate_token
validate_token-Accepted hash_secret now m secret v =
    if_split P (is_dev_secret m secret)
      (λ _.
        maybe_cases P m.dev_token (λ _. tt)
          (λ t e. with_account-Accepted now m t (λ a.
            bootstrap_good now m t
              (subst (λ o. maybe o Unit (λ u. u.origin ≡ bootstrap)) e v.dev_origin) a)))
      (λ _.
        maybe_cases P found (λ _. scan-Accepted now m secret m.tokens in_memory)
          (λ t e.
            stored-Accepted now m (hash_secret secret) t v
              (then_some (ltb 0 (length m.by_hash)) e)))
  where
    P : Option (Token × Account) → Type 0
    P = Accepted now m

    found : Option Token
    found = if ltb 0 (length m.by_hash) then lookup (hash_secret secret) m.by_hash else none

    in_memory : All (λ e. (has_key e.1.id m.tokens ≡ true) × (e.1.hash ≡ [])) m.tokens
    in_memory =
        All-map m.tokens
          (λ e (k, (same, no_hash)). (subst (λ i. has_key i m.tokens ≡ true) (sym same) k, no_hash))
          (All-both (λ e. has_key e.0 m.tokens ≡ true) (λ e. (e.1.id ≡ e.0) × (e.1.hash ≡ []))
            m.tokens (All-has_key m.tokens) v.by_id)
