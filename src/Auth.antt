-- ===== src/Auth.antt =====
-- internal/auth/auth.go: accounts, tokens, and whether a token is good. A time is in nanoseconds;
-- the zero time of a token without expiry is `none`. Strings are their bytes.
pub mod File
pub mod Valid
pub mod Apply
use wire_rift.Prelude.{
  ℕ, Bool, true, false, not, ◌&&◌, ◌||◌, ltb, if◌then◌else◌, maybe, List, [], ◌∷◌, ◌++◌, length,
  Option, none, some, Bytes, eq_bytes, lookup, has_key, delete, store,
}

-- Which object a token is: the manager's `devToken`, or another one.
pub data Origin : Type 0 where
  bootstrap other : Origin

pub record Token : Type 0 where
  pub origin : Origin
  pub id : Bytes
  pub account_id : Bytes
  pub name : Bytes
  pub created_at : ℕ
  pub expires_at : Option ℕ
  pub secret : Bytes
  pub hash : Bytes
  pub revoked : Bool

pub record Account : Type 0 where
  pub id : Bytes
  pub email : Bytes
  pub name : Bytes
  pub active : Bool
  pub created_at : ℕ
  pub max_tunnels : ℕ
  pub max_sessions : ℕ
  pub rate_limit : ℕ

-- `Manager`, whose maps are association lists. `none` in `dev_token` is Go's nil.
pub record Manager : Type 0 where
  pub tokens : List (Bytes × Token)
  pub accounts : List (Bytes × Account)
  pub dev_token : Option Token
  pub by_hash : List (Bytes × Token)
  pub loaded_accounts : List Bytes

-- `Token.IsExpired` at time `now`.
unfoldable pub is_expired : ℕ → Token → Bool
is_expired now t = maybe t.expires_at false (λ e. ltb e now)

-- "dev_account"
abbrev pub dev_account_id : Bytes
dev_account_id = 100 ∷ 101 ∷ 118 ∷ 95 ∷ 97 ∷ 99 ∷ 99 ∷ 111 ∷ 117 ∷ 110 ∷ 116 ∷ []

-- "dev_token"
abbrev pub dev_token_id : Bytes
dev_token_id = 100 ∷ 101 ∷ 118 ∷ 95 ∷ 116 ∷ 111 ∷ 107 ∷ 101 ∷ 110 ∷ []

-- "Development Token", "Development Account", "dev@localhost"
abbrev pub dev_token_name : Bytes
dev_token_name =
    68 ∷ 101 ∷ 118 ∷ 101 ∷ 108 ∷ 111 ∷ 112 ∷ 109 ∷ 101 ∷ 110 ∷ 116 ∷ 32 ∷ 84 ∷ 111 ∷ 107 ∷ 101 ∷ 110
    ∷ []

abbrev pub dev_account_name : Bytes
dev_account_name =
    68 ∷ 101 ∷ 118 ∷ 101 ∷ 108 ∷ 111 ∷ 112 ∷ 109 ∷ 101 ∷ 110 ∷ 116 ∷ 32 ∷ 65 ∷ 99 ∷ 99 ∷ 111 ∷ 117
    ∷ 110 ∷ 116 ∷ []

abbrev pub dev_email : Bytes
dev_email = 100 ∷ 101 ∷ 118 ∷ 64 ∷ 108 ∷ 111 ∷ 99 ∷ 97 ∷ 108 ∷ 104 ∷ 111 ∷ 115 ∷ 116 ∷ []

-- The token and the account that `NewManager` makes.
abbrev pub new_dev_token : ℕ → Bytes → Token
new_dev_token now secret = record {
  origin = bootstrap;
  id = dev_token_id;
  account_id = dev_account_id;
  name = dev_token_name;
  created_at = now;
  expires_at = none;
  secret = secret;
  hash = [];
  revoked = false;
}

abbrev pub new_dev_account : ℕ → Account
new_dev_account now = record {
  id = dev_account_id;
  email = dev_email;
  name = dev_account_name;
  active = true;
  created_at = now;
  max_tunnels = 100;
  max_sessions = 0;
  rate_limit = 1000;
}

-- `NewManager` with the secret that it chose.
unfoldable pub new_manager : ℕ → Bytes → Manager
new_manager now secret = record {
  tokens = (dev_token_id, new_dev_token now secret) ∷ [];
  accounts = (dev_account_id, new_dev_account now) ∷ [];
  dev_token = some (new_dev_token now secret);
  by_hash = [];
  loaded_accounts = [];
}

-- A token with its account, if the account is there and active.
unfoldable pub with_account : Manager → Token → Option (Token × Account)
with_account m t =
    maybe (lookup t.account_id m.accounts) none (λ a. if a.active then some (t, a) else none)

-- `checkStored`
unfoldable pub check_stored : ℕ → Manager → Token → Option (Token × Account)
check_stored now m t = if (t.revoked || is_expired now t) then none else with_account m t

-- The range over the tokens in memory: it ends at the first one with the secret.
unfoldable pub scan_tokens : ℕ → Manager → Bytes → List (Bytes × Token) → Option (Token × Account)
scan_tokens now m secret [] = none
scan_tokens now m secret ((id, t) ∷ rest) =
    let further = scan_tokens now m secret rest in
    if eq_bytes t.secret secret
    then if is_expired now t then none else with_account m t
    else further

unfoldable pub is_dev_secret : Manager → Bytes → Bool
is_dev_secret m secret = maybe m.dev_token false (λ t. eq_bytes t.secret secret)

-- `ValidateToken`; `none` is ErrInvalidToken, and `hash_secret` is HashSecret.
unfoldable pub validate_token : (Bytes → Bytes) → ℕ → Manager → Bytes → Option (Token × Account)
validate_token hash_secret now m secret =
    if is_dev_secret m secret
    then maybe m.dev_token none (with_account m)
    else maybe (if ltb 0 (length m.by_hash) then lookup (hash_secret secret) m.by_hash else none)
        (scan_tokens now m secret m.tokens) (check_stored now m)

-- `accountActive`
unfoldable pub account_active : Manager → Bytes → Bool
account_active m id = maybe (lookup id m.accounts) false (λ a. a.active)

-- `StillValid` of a token that is not the bootstrap token.
unfoldable pub still_listed : ℕ → Manager → Token → Bool
still_listed now m t =
    if ltb 0 (length t.hash)
    then maybe (lookup t.hash m.by_hash) false (λ cur.
      if (cur.revoked || is_expired now cur) then false else account_active m cur.account_id)
    else if has_key t.id m.tokens
    then if is_expired now t then false else account_active m t.account_id
    else false

-- `StillValid`; `none` is a nil token.
unfoldable pub still_valid_token : ℕ → Manager → Token → Origin → Bool
still_valid_token now m t bootstrap = account_active m t.account_id
still_valid_token now m t other = still_listed now m t

unfoldable pub still_valid : ℕ → Manager → Option Token → Bool
still_valid now m token = maybe token true (λ t. still_valid_token now m t t.origin)
