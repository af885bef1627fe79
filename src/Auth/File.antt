-- ===== src/Auth/File.antt =====
-- internal/auth/store.go and auth.go: the token file and what it does to the manager.
use wire_rift.Prelude.{
  ℕ, Bool, true, ◌==◌, if◌then◌else◌, maybe, List, [], ◌∷◌, length, Option, none, some, Bytes,
  eq_bytes, delete, store, has_key,
}
use wire_rift.Auth.{other, Token, Account, Manager, dev_account_id}

pub record FileAccount : Type 0 where
  pub id : Bytes
  pub name : Bytes
  pub active : Bool
  pub max_tunnels : ℕ
  pub max_sessions : ℕ
  pub rate_limit : ℕ
  pub created_at : ℕ

pub record FileToken : Type 0 where
  pub id : Bytes
  pub account_id : Bytes
  pub name : Bytes
  pub hash : Bytes
  pub created_at : ℕ
  pub expires_at : Option ℕ
  pub revoked : Bool

pub record TokenFile : Type 0 where
  pub accounts : List FileAccount
  pub tokens : List FileToken

abbrev pub account_of : FileAccount → Account
account_of a = record {
  id = a.id;
  email = [];
  name = a.name;
  active = a.active;
  created_at = a.created_at;
  max_tunnels = a.max_tunnels;
  max_sessions = a.max_sessions;
  rate_limit = a.rate_limit;
}

abbrev pub token_of : FileToken → Token
token_of t = record {
  origin = other;
  id = t.id;
  account_id = t.account_id;
  name = t.name;
  created_at = t.created_at;
  expires_at = t.expires_at;
  secret = [];
  hash = t.hash;
  revoked = t.revoked;
}

-- The accounts of a file, into a map: a later one replaces an earlier one of its ID, and the
-- bootstrap account cannot be redefined.
unfoldable pub file_accounts : List FileAccount → List (Bytes × Account) → List (Bytes × Account)
file_accounts [] m = m
file_accounts (a ∷ rest) m =
    let kept = file_accounts rest m in
    let stored = file_accounts rest (store a.id (account_of a) m) in
    if eq_bytes a.id dev_account_id then kept else stored

-- The tokens of a file, by digest, without those of accounts that the file does not have.
unfoldable pub file_tokens :
    List (Bytes × Account) → List FileToken → List (Bytes × Token) → List (Bytes × Token)
file_tokens accounts [] m = m
file_tokens accounts (t ∷ rest) m =
    let skipped = file_tokens accounts rest m in
    let stored = file_tokens accounts rest (store t.hash (token_of t) m) in
    if has_key t.account_id accounts
    then if length t.hash == 0 then skipped else stored
    else skipped

unfoldable pub delete_all : List Bytes → List (Bytes × Account) → List (Bytes × Account)
delete_all [] m = m
delete_all (id ∷ ids) m = delete_all ids (delete id m)

unfoldable pub store_all : List (Bytes × Account) → List (Bytes × Account) → List (Bytes × Account)
store_all [] m = m
store_all ((id, a) ∷ rest) m = store_all rest (store id a m)

abbrev pub ids_of : List (Bytes × Account) → List Bytes
ids_of [] = []
ids_of ((id, a) ∷ rest) = id ∷ ids_of rest

-- `ApplyTokenFile`
unfoldable pub apply_token_file : Manager → TokenFile → Manager
apply_token_file m f =
    let accounts = file_accounts f.accounts [] in
    record m {
      by_hash = file_tokens accounts f.tokens [];
      accounts = store_all accounts (delete_all m.loaded_accounts m.accounts);
      loaded_accounts = ids_of accounts;
    }

-- `TokenFile.Revoke`: the first token of the ID; `none` is ErrTokenNotFound.
unfoldable pub revoke_first : Bytes → List FileToken → Option (List FileToken)
revoke_first id [] = none
revoke_first id (t ∷ rest) =
    let further = revoke_first id rest in
    if eq_bytes t.id id
    then some ((record t { revoked = true }) ∷ rest)
    else maybe further none (λ l. some (t ∷ l))

unfoldable pub revoke : TokenFile → Bytes → Option TokenFile
revoke f id = maybe (revoke_first id f.tokens) none (λ l. some (record f { tokens = l }))

-- `TokenFile.Account`
unfoldable pub find_account : Bytes → List FileAccount → Option FileAccount
find_account id [] = none
find_account id (a ∷ rest) =
    let further = find_account id rest in if eq_bytes a.id id then some a else further
