-- ===== src/Auth/Apply.antt =====
-- What applying a token file leaves alone, and what it withdraws.
use mathlib.Core.Path.{subst}
use wire_rift.Prelude.{
  ℕ, ◌<◌, ◌≡◌, refl, sym, ◌∙◌, true, false, ◌==◌, if_cases, if_split, maybe_cases, List, [], ◌∷◌,
  length, some, All, Bytes, eq_bytes, lookup, has_key, delete, store, lookup-All, delete-All,
  lookup-delete_ne, lookup-store_ne, lt→ltb, arith,
}
use wire_rift.Auth.{
  Token, Account, Manager, Origin, other, dev_account_id, new_manager, still_listed,
  still_valid_token, still_valid,
}
use wire_rift.Auth.File.{
  FileAccount, FileToken, TokenFile, account_of, token_of, file_accounts, file_tokens, delete_all,
  store_all, ids_of, apply_token_file,
}
use wire_rift.Auth.Valid.{IsKeyed}

-- What holds of every token that the file may contribute holds of the map by digest.
file_tokens-All {ℓ} :
    (P : Bytes × Token → Type ℓ) (accounts : List (Bytes × Account)) (l : List FileToken)
    (m : List (Bytes × Token))
    → All (λ t. 0 < length t.hash → P (t.hash, token_of t)) l
    → All P m
    → All P (file_tokens accounts l m)
unfolding file_tokens
file_tokens-All P accounts [] m q all = all
file_tokens-All P accounts (t ∷ l) m q all =
    if_cases (All P) (has_key t.account_id accounts)
      (if_split (All P) (length t.hash == 0) (λ _. file_tokens-All P accounts l m q.1 all)
        (λ e.
          file_tokens-All P accounts l (store t.hash (token_of t) m) q.1
            (q.0 (ground arith), delete-All P t.hash m all)))
      (file_tokens-All P accounts l m q.1 all)

every_token {ℓ} : (Q : FileToken → Type ℓ) (l : List FileToken) → ((t : FileToken) → Q t) → All Q l
every_token Q [] f = tt
every_token Q (t ∷ l) f = (f t, every_token Q l f)

pub new_manager-IsKeyed : (now : ℕ) (secret : Bytes) → IsKeyed (new_manager now secret)
unfolding new_manager
new_manager-IsKeyed now secret = record {
  by_digest = tt;
  digests = tt;
  by_id = ((refl, refl), tt);
  dev_origin = refl;
}

-- Applying a token file to a manager whose maps are keyed keeps them keyed: a token of the file
-- stands under its digest, which is not empty, one in memory under its ID and without a digest, and
-- the bootstrap token stays the manager's own.
pub apply_token_file-IsKeyed :
    (m : Manager) (f : TokenFile) → IsKeyed m → IsKeyed (apply_token_file m f)
unfolding apply_token_file
apply_token_file-IsKeyed m f v = record {
  by_digest =
      file_tokens-All (λ e. e.1.hash ≡ e.0) accounts f.tokens []
        (every_token _ f.tokens (λ t _. refl)) tt;
  digests =
      file_tokens-All (λ e. 0 < length e.0) accounts f.tokens [] (every_token _ f.tokens (λ t h. h))
        tt;
  by_id = v.by_id;
  dev_origin = v.dev_origin;
}
  where
    accounts : List (Bytes × Account)
    accounts = file_accounts f.accounts []

withdrawn :
    (now : ℕ) (m : Manager) (t : Token)
    → 0 < length t.hash
    → All (λ e. e.0 ≡ t.hash → e.1.revoked ≡ true) m.by_hash
    → still_listed now m t ≡ false
unfolding still_listed
withdrawn now m t h all = rw (lt→ltb 0 (length t.hash) h) (
    maybe_cases (λ b. b ≡ false) (lookup t.hash m.by_hash) (λ _. refl)
      (λ cur e.
        rw (lookup-All (λ e. e.0 ≡ t.hash → e.1.revoked ≡ true) t.hash m.by_hash cur e all refl)
          refl))

-- Once a token file is applied in which every token of a digest is revoked, or in which the digest
-- does not occur at all, a session's token of that digest, other than the bootstrap token, is no
-- longer good, at any time.
pub apply_token_file-withdraws :
    (now : ℕ) (m : Manager) (f : TokenFile) (t : Token)
    → t.origin ≡ other
    → 0 < length t.hash
    → All (λ u. u.hash ≡ t.hash → u.revoked ≡ true) f.tokens
    → still_valid now (apply_token_file m f) (some t) ≡ false
unfolding apply_token_file still_valid still_valid_token
apply_token_file-withdraws now m f t o h gone =
    subst (λ (g : Origin). still_valid_token now (apply_token_file m f) t g ≡ false) (sym o)
      (withdrawn now (apply_token_file m f) t h (
        file_tokens-All (λ e. e.0 ≡ t.hash → e.1.revoked ≡ true) (file_accounts f.accounts [])
          f.tokens [] (contributes f.tokens gone) tt))
  where
    contributes :
        (l : List FileToken)
        → All (λ u. u.hash ≡ t.hash → u.revoked ≡ true) l
        → All (λ u. 0 < length u.hash → u.hash ≡ t.hash → u.revoked ≡ true) l
    contributes [] g = tt
    contributes (u ∷ l) g = (λ _. g.0, contributes l g.1)

-- No ID of the list is the bootstrap account's.
abbrev pub IsForeign : List Bytes → Type 0
IsForeign = All (λ id. eq_bytes id dev_account_id ≡ false)

file_accounts-IsForeign :
    (l : List FileAccount) (m : List (Bytes × Account))
    → All (λ e. eq_bytes e.0 dev_account_id ≡ false) m
    → All (λ e. eq_bytes e.0 dev_account_id ≡ false) (file_accounts l m)
unfolding file_accounts
file_accounts-IsForeign [] m all = all
file_accounts-IsForeign (a ∷ l) m all =
    if_split (All (λ e. eq_bytes e.0 dev_account_id ≡ false)) (eq_bytes a.id dev_account_id)
      (λ _. file_accounts-IsForeign l m all)
      (λ e. file_accounts-IsForeign l (store a.id (account_of a) m) (e, delete-All _ a.id m all))

ids_of-IsForeign :
    (m : List (Bytes × Account))
    → All (λ e. eq_bytes e.0 dev_account_id ≡ false) m
    → IsForeign (ids_of m)
ids_of-IsForeign [] all = tt
ids_of-IsForeign (e ∷ m) all = (all.0, ids_of-IsForeign m all.1)

lookup-delete_all :
    (ids : List Bytes) (m : List (Bytes × Account))
    → IsForeign ids
    → lookup dev_account_id (delete_all ids m) ≡ lookup dev_account_id m
unfolding delete_all
lookup-delete_all [] m f = refl
lookup-delete_all (id ∷ ids) m f =
    lookup-delete_all ids (delete id m) f.1 ∙ lookup-delete_ne dev_account_id id m f.0

lookup-store_all :
    (l m : List (Bytes × Account))
    → All (λ e. eq_bytes e.0 dev_account_id ≡ false) l
    → lookup dev_account_id (store_all l m) ≡ lookup dev_account_id m
unfolding store_all
lookup-store_all [] m f = refl
lookup-store_all ((id, a) ∷ l) m f =
    lookup-store_all l (store id a m) f.1 ∙ lookup-store_ne dev_account_id id a m f.0

-- Where the bootstrap account is none of the loaded ones, a token file leaves it as it is, and
-- after the file it still is none of the loaded ones, so the next file spares it too.
pub apply_token_file-bootstrap :
    (m : Manager) (f : TokenFile)
    → IsForeign m.loaded_accounts
    → (lookup dev_account_id (apply_token_file m f).accounts ≡ lookup dev_account_id m.accounts)
      × IsForeign (apply_token_file m f).loaded_accounts
unfolding apply_token_file
apply_token_file-bootstrap m f v = (
  lookup-store_all accounts (delete_all m.loaded_accounts m.accounts) foreign
      ∙ lookup-delete_all m.loaded_accounts m.accounts v,
  ids_of-IsForeign accounts foreign,
)
  where
    accounts : List (Bytes × Account)
    accounts = file_accounts f.accounts []

    foreign : All (λ e. eq_bytes e.0 dev_account_id ≡ false) accounts
    foreign = file_accounts-IsForeign f.accounts [] tt
