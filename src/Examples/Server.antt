-- ===== src/Examples/Server.antt =====
-- Limits and tokens at concrete inputs.
use wire_rift.Prelude.{
  ℕ, ◌*◌, ◌≡◌, ◌≤◌, ◌↔◌, refl, true, false, [], ◌∷◌, Option, none, some, Bytes, eq_bytes, lookup,
  arith,
}
use wire_rift.Server.Pending.{
  PendingConns, Release, acquire, acquire_ip, counted_ip, is_full, release,
}
use wire_rift.Server.Pending.Limits.{unused, acquired, released, IsCounted, Holds-IsCounted}
use wire_rift.Server.Budget.{
  ByteBudget, BudgetBody, new_byte_budget, read_body_bytes, idle, arrive, reads, IsWithin, all_held,
  Flight-IsWithin,
}
use wire_rift.Server.Pin.{PinFailure, locked}
use wire_rift.Server.Pin.Lockout.{fail_all, locked-fail_all}
use wire_rift.Server.Held.{hold_subdomain, held_by}
use wire_rift.Server.Held.Grace.{ask, sweep, hold, apply_ops, held_by-hold_subdomain}
use wire_rift.Utils.{is_valid_subdomain, Label, is_valid_subdomain-Label}
use wire_rift.Auth.{Token, Manager, other, dev_account_id, new_manager, validate_token, still_valid}
use wire_rift.Auth.File.{TokenFile, apply_token_file}
use wire_rift.Auth.Valid.{IsKeyed, Accepted, validate_token-Accepted}
use wire_rift.Auth.Apply.{
  new_manager-IsKeyed, apply_token_file-IsKeyed, apply_token_file-withdraws, IsForeign,
  apply_token_file-bootstrap,
}

-- No address here has a port to split off.
abbrev whole : Bytes → Option Bytes
whole _ = none

abbrev no_conns : PendingConns
no_conns = record { total = 0; per_ip = λ _. 0 }

abbrev one_conn : PendingConns
one_conn = (acquire whole no_conns (some (49 ∷ []))).1

abbrev first_slot : Release
first_slot = record { ip = 49 ∷ []; once = false }

first_slot-acquired : acquire whole no_conns (some (49 ∷ [])) ≡ (some first_slot, one_conn)
unfolding acquire acquire_ip counted_ip is_full
first_slot-acquired = refl

Holds-IsCounted_example :
    IsCounted (release first_slot one_conn).1 ((release first_slot one_conn).0 ∷ [])
Holds-IsCounted_example = Holds-IsCounted {split_host_port = whole} (
    released one_conn [] [] first_slot
      (acquired no_conns one_conn [] (some (49 ∷ [])) first_slot unused first_slot-acquired))

-- Two reads of a body under a cap of 10 bytes, of which the second does not fit.
abbrev read_once : BudgetBody × Option ByteBudget
read_once = (read_body_bytes (new_byte_budget 10) (record { held = 0 }) 7 none).1

abbrev read_twice : BudgetBody × Option ByteBudget
read_twice = (read_body_bytes read_once.1 read_once.0 5 none).1

Flight-IsWithin_example : IsWithin 10 read_twice.1 (all_held (read_twice.0 ∷ []))
Flight-IsWithin_example = Flight-IsWithin (
    reads read_once.1 [] [] read_once.0 5 none (
      reads (new_byte_budget 10) [] [] (record { held = 0 }) 7 none
        (arrive (new_byte_budget 10) [] idle)))

-- One account with a good and a revoked token; a digest is the secret with a 0 in front.
abbrev digest : Bytes → Bytes
digest s = 0 ∷ s

abbrev some_file : TokenFile
some_file = record {
  accounts =
      (record {
        id = 97 ∷ [];
        name = [];
        active = true;
        max_tunnels = 3;
        max_sessions = 0;
        rate_limit = 0;
        created_at = 1;
      })
      ∷ [];
  tokens =
      (record {
        id = 1 ∷ [];
        account_id = 97 ∷ [];
        name = [];
        hash = 0 ∷ 5 ∷ [];
        created_at = 1;
        expires_at = none;
        revoked = false;
      })
      ∷ (record {
        id = 2 ∷ [];
        account_id = 97 ∷ [];
        name = [];
        hash = 0 ∷ 6 ∷ [];
        created_at = 1;
        expires_at = none;
        revoked = true;
      })
      ∷ [];
}

abbrev fresh_manager : Manager
fresh_manager = new_manager 1 (7 ∷ 7 ∷ [])

abbrev loaded : Manager
loaded = apply_token_file fresh_manager some_file

apply_token_file-IsKeyed_example : IsKeyed loaded
apply_token_file-IsKeyed_example =
    apply_token_file-IsKeyed fresh_manager some_file (new_manager-IsKeyed 1 (7 ∷ 7 ∷ []))

loaded-IsKeyed : IsKeyed loaded
loaded-IsKeyed =
    apply_token_file-IsKeyed fresh_manager some_file (new_manager-IsKeyed 1 (7 ∷ 7 ∷ []))

validate_token-Accepted_example : Accepted 9 loaded (validate_token digest 9 loaded (5 ∷ []))
validate_token-Accepted_example = validate_token-Accepted digest 9 loaded (5 ∷ []) loaded-IsKeyed

-- The token of a session that logged in before it was revoked.
abbrev old_token : Token
old_token = record {
  origin = other;
  id = 2 ∷ [];
  account_id = 97 ∷ [];
  name = [];
  created_at = 1;
  expires_at = none;
  secret = [];
  hash = 0 ∷ 6 ∷ [];
  revoked = false;
}

apply_token_file-withdraws_example : still_valid 9 loaded (some old_token) ≡ false
apply_token_file-withdraws_example =
    apply_token_file-withdraws 9 fresh_manager some_file old_token refl (omega arith)
      ((λ e. cc), ((λ _. refl), tt))

none_loaded : IsForeign fresh_manager.loaded_accounts
unfolding new_manager
none_loaded = tt

apply_token_file-bootstrap_example :
    (lookup dev_account_id loaded.accounts ≡ lookup dev_account_id fresh_manager.accounts)
    × IsForeign loaded.loaded_accounts
apply_token_file-bootstrap_example = apply_token_file-bootstrap fresh_manager some_file none_loaded

-- The name "a" is held, another is held and asked for, the sweep runs.
other_name : eq_bytes (98 ∷ []) (97 ∷ []) ≡ false
unfolding eq_bytes
other_name = refl

held_by-hold_subdomain_example :
    (held_by 15 (97 ∷ []) (
      apply_ops 10
        (hold 11 (98 ∷ []) (2 ∷ []) ∷ sweep 12 ∷ ask 13 (98 ∷ []) ∷ [])
        (hold_subdomain 10 5 (97 ∷ []) (1 ∷ []) []))).0
    ≡ some (1 ∷ [])
held_by-hold_subdomain_example =
    held_by-hold_subdomain 10 5 15 (97 ∷ []) (1 ∷ [])
      (hold 11 (98 ∷ []) (2 ∷ []) ∷ sweep 12 ∷ ask 13 (98 ∷ []) ∷ []) [] (omega arith) (omega arith)
      (other_name, (omega arith, (omega arith, tt)))

-- "a-b"
is_valid_subdomain-Label_example :
    (is_valid_subdomain (97 ∷ 45 ∷ 98 ∷ []) ≡ true) ↔ (Label (97 ∷ 45 ∷ 98 ∷ []) × (3 ≤ 63))
is_valid_subdomain-Label_example = is_valid_subdomain-Label (97 ∷ 45 ∷ 98 ∷ [])

-- Guesses a second apart, and a look ten seconds later.
abbrev second : ℕ
second = 1000000000

no_entries : lookup {A = PinFailure} (97 ∷ []) [] ≡ none
unfolding lookup
no_entries = refl

locked-fail_all_example :
    (locked
        (15 * second)
        (97 ∷ [])
        (fail_all (97 ∷ []) (second ∷ 2 * second ∷ 3 * second ∷ 4 * second ∷ []) [])
      ≡ false)
    × (locked
          (15 * second)
          (97 ∷ [])
          (fail_all (97 ∷ []) (second ∷ 2 * second ∷ 3 * second ∷ 4 * second ∷ 5 * second ∷ []) [])
        ≡ true)
locked-fail_all_example =
    locked-fail_all second (2 * second) (3 * second) (4 * second) (5 * second) (15 * second)
      (97 ∷ []) [] no_entries (omega arith) (omega arith) (omega arith) (omega arith) (omega arith)
