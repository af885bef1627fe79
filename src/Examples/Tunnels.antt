-- ===== src/Examples/Tunnels.antt =====
-- The tunnel server at concrete inputs.
use wire_rift.Prelude.{
  ◌≡◌, refl, arith, true, false, [], ◌∷◌, none, some, Bytes, eq_bytes, lookup, delete, modify,
  has_key,
}
use wire_rift.Auth.{
  new_manager, validate_token, with_account, is_dev_secret, new_dev_token, new_dev_account,
}
use wire_rift.RateLimit.{
  refilled, get_limiter, get_with, new_limiter, allow_n, allow_key_n, allow_with,
}
use wire_rift.Utils.{
  is_valid_subdomain, is_reserved_subdomain, member, is_alpha_num, all_allowed, last_byte,
}
use wire_rift.Server.Held.{held_by, hold_subdomain}
use wire_rift.Server.Names.{has_byte}
use wire_rift.Server.CustomDomain.{
  Externals, accepted, normalize_custom_domain, check_domain, trim_dot, split_dots, all_labels,
  is_label, starts_with_hyphen, ends_in_hyphen, all_host_bytes, is_host_byte, is_under, has_suffix,
}
use wire_rift.Server.CustomDomain.Host.{IfAccepted, normalize_custom_domain-HostName}
use wire_rift.Server.Tunnels.{
  Tunnel, http, TunnelRequest, Session, Server, pos, listed, tunnels_of, account_session_count,
  account_tunnel_count, session_add_tunnel, over_account_limit, add_tunnel, enlist,
}
use wire_rift.Server.Tunnels.Create.{
  handle_tunnel_request, http_tunnel, handle_decoded, allow_tunnel_request, ask_limiter,
  check_request, is_valid_ttl, is_http, create_tunnel, create_http_tunnel, check_http,
  validate_tunnel_auth, prepare_custom_domain, create_checked, publish_http, held_elsewhere,
  claim_subdomain, claim_custom_domain, register_http,
}
use wire_rift.Server.Tunnels.Close.{
  remove_session, arm_expiry, expiry_for, end_tunnels, end_tunnel, is_holdable, teardown_tunnel,
  mark_closed, cancel_expiry, release_tunnel, release_names,
}
use wire_rift.Server.Tunnels.Login.{handle_auth, new_session, start_session, register_session}
use wire_rift.Server.Tunnels.Linked.{view, IsTied}
use wire_rift.Server.Tunnels.Linked.Apart.{IsApart}
use wire_rift.Server.Tunnels.Runs.{Reached, started, logging_in, requesting, Reached-IsSound}
use wire_rift.Server.Tunnels.Safe.{handle_tunnel_request-foreign, remove_session_frees}
use wire_rift.Server.Tunnels.Limits.{IfCreated, handle_tunnel_request-limits}
use wire_rift.Server.Tunnels.Holds.{remove_session_holds}
use wire_rift.Server.Tunnels.Outcome.{Meant, handle_auth-Meant}

abbrev digest : Bytes → Bytes
digest s = 0 ∷ s

-- Lowercase, trimmed input; no DNS; every port can be bound.
abbrev pub lib : Externals
lib = record {
  to_lower = λ s. s;
  trim_space = λ s. s;
  is_ip = λ _. false;
  hmac_hex = λ _ _. [];
  txt_records = λ _. [];
  can_bind = λ _. true;
}

abbrev pub first : Server
first = record {
  config = record {
    domain = 100 ∷ [];
    public_scheme = [];
    public_port = 0;
    session_timeout = 300;
    max_tunnels_per_session = 10;
    offline_grace = 120;
  };
  domain_secret = [];
  auth_manager = new_manager 1 (7 ∷ 7 ∷ []);
  sessions = [];
  tunnels = [];
  rate_limiter = record { limiters = []; rate = 100000; burst = 50 };
  auth_fails = record { limiters = []; rate = 200; burst = 10 };
  held = [];
  ports = record {
    tcp_port_start = 20000;
    tcp_port_end = 29999;
    tcp_ports = λ _. false;
    next_port = 19999;
  };
  listeners = λ _. false;
  closed = [];
  timers = [];
  shutting_down = false;
}

-- A client of the bootstrap account logs in and asks for the name "ab".
abbrev pub logged : Server
logged = (handle_auth digest 5 (49 ∷ []) (1 ∷ []) (7 ∷ 7 ∷ []) first).1

abbrev pub client : Session
client = new_session 5 (1 ∷ []) (new_dev_token 1 (7 ∷ 7 ∷ [])) (new_dev_account 1)

abbrev pub request : TunnelRequest
request = record {
  tunnel_type = http;
  subdomain = 97 ∷ 98 ∷ [];
  remote_port = pos 0;
  local_addr = [];
  inspect = false;
  auth = none;
  headers = [];
  allowed_ips = [];
  pin = [];
  custom_domain = [];
  ttl_seconds = pos 0;
  reconnect = false;
}

abbrev pub served : Server
served = (handle_tunnel_request lib 6 client (some request) (2 ∷ []) [] logged).1

abbrev pub its_tunnel : Tunnel
its_tunnel = http_tunnel 6 client request (2 ∷ []) (97 ∷ 98 ∷ []) [] first.config

pub logged-unlisted : listed client.id (2 ∷ []) logged ≡ none
unfolding listed tunnels_of lookup handle_auth new_session start_session register_session
    get_limiter get_with new_limiter refilled validate_token is_dev_secret new_manager with_account
    account_session_count eq_bytes delete
logged-unlisted = refl

pub logged-Reached : Reached logged
unfolding lookup
logged-Reached =
    logging_in digest 5 (49 ∷ []) (1 ∷ []) (7 ∷ 7 ∷ []) first (started first refl refl) refl

served-Reached : Reached served
served-Reached =
    requesting lib 6 client (some request) (2 ∷ []) [] logged logged-Reached logged-unlisted

Reached-IsSound_example : IsTied (view served) × IsApart served
Reached-IsSound_example = Reached-IsSound served served-Reached

pub served-IsTied : IsTied (view served) × IsApart served
served-IsTied = Reached-IsSound served served-Reached

-- A client of another account asks for the same name.
abbrev stranger : Session
stranger = record {
  id = 3 ∷ [];
  account_id = 99 ∷ [];
  account = none;
  token = none;
  go_away = false;
  tunnels = [];
  created_at = 7;
  last_seen = 7;
}

-- The client logs in once more and asks for "cd"; then its first session ends.
abbrev second : Server
second = (handle_auth digest 8 (49 ∷ []) (5 ∷ []) (7 ∷ 7 ∷ []) served).1

abbrev again : Session
again = new_session 8 (5 ∷ []) (new_dev_token 1 (7 ∷ 7 ∷ [])) (new_dev_account 1)

-- The first session, as the server has it, and what its name is when it drops.
abbrev serving : Session
serving = record client { tunnels = (2 ∷ [], its_tunnel) ∷ [] }

-- What the first tunnel leaves.
pub record ServedFacts : Type 0 where
  name : lookup (97 ∷ 98 ∷ []) served.tunnels ≡ some its_tunnel
  session : lookup (1 ∷ []) served.sessions ≡ some serving
  no_other : lookup (5 ∷ []) served.sessions ≡ none
  stranger_free : listed stranger.id (4 ∷ []) served ≡ none
  second_free : listed again.id (6 ∷ []) second ≡ none
  runs : served.shutting_down ≡ false
  grace : served.config.offline_grace ≡ 120
  pub lists : listed (1 ∷ []) (2 ∷ []) served ≡ some its_tunnel
  pub config : served.config ≡ first.config

pub served_facts : ServedFacts
unfolding lookup delete modify has_key eq_bytes listed tunnels_of handle_auth new_session
    start_session register_session get_limiter get_with new_limiter refilled allow_n allow_key_n
    allow_with validate_token is_dev_secret new_manager with_account account_session_count
    account_tunnel_count handle_tunnel_request handle_decoded allow_tunnel_request ask_limiter
    check_request over_account_limit is_valid_ttl is_http create_tunnel create_http_tunnel
    check_http validate_tunnel_auth prepare_custom_domain create_checked publish_http held_elsewhere
    held_by claim_subdomain claim_custom_domain register_http add_tunnel session_add_tunnel enlist
    arm_expiry expiry_for http_tunnel is_valid_subdomain is_reserved_subdomain member is_alpha_num
    all_allowed last_byte
served_facts = record {
  name = refl;
  session = refl;
  no_other = refl;
  stranger_free = refl;
  second_free = refl;
  runs = refl;
  grace = refl;
  lists = refl;
  config = refl;
}

its_account : eq_bytes its_tunnel.account_id stranger.account_id ≡ false
unfolding eq_bytes http_tunnel new_session
its_account = refl

handle_tunnel_request-foreign_example :
    lookup
      (97 ∷ 98 ∷ [])
      (handle_tunnel_request lib 8 stranger (some request) (4 ∷ []) [] served).1.tunnels
    ≡ some its_tunnel
handle_tunnel_request-foreign_example =
    handle_tunnel_request-foreign lib 8 stranger (some request) (4 ∷ []) [] served (97 ∷ 98 ∷ [])
      its_tunnel served-IsTied.0 served_facts.stranger_free served_facts.name its_account

abbrev other_request : TunnelRequest
other_request = record request { subdomain = 99 ∷ 100 ∷ [] }

abbrev both : Server
both = (handle_tunnel_request lib 9 again (some other_request) (6 ∷ []) [] second).1

abbrev other_tunnel : Tunnel
other_tunnel = http_tunnel 9 again other_request (6 ∷ []) (99 ∷ 100 ∷ []) [] first.config

both-IsTied : IsTied (view both) × IsApart both
both-IsTied = Reached-IsSound both (
    requesting lib 9 again (some other_request) (6 ∷ []) [] second
      (logging_in digest 8 (49 ∷ []) (5 ∷ []) (7 ∷ 7 ∷ []) served served-Reached
        served_facts.no_other)
      served_facts.second_free)

other_name : lookup (99 ∷ 100 ∷ []) (remove_session 9 (1 ∷ []) both).tunnels ≡ some other_tunnel
unfolding lookup delete modify has_key eq_bytes listed tunnels_of handle_auth new_session
    start_session register_session get_limiter get_with new_limiter refilled allow_n allow_key_n
    allow_with validate_token is_dev_secret new_manager with_account account_session_count
    account_tunnel_count handle_tunnel_request handle_decoded allow_tunnel_request ask_limiter
    check_request over_account_limit is_valid_ttl is_http create_tunnel create_http_tunnel
    check_http validate_tunnel_auth prepare_custom_domain create_checked publish_http held_elsewhere
    held_by claim_subdomain claim_custom_domain register_http add_tunnel session_add_tunnel enlist
    arm_expiry expiry_for http_tunnel is_valid_subdomain is_reserved_subdomain member is_alpha_num
    all_allowed last_byte remove_session end_tunnels end_tunnel hold_subdomain is_holdable
    teardown_tunnel mark_closed cancel_expiry release_tunnel release_names
other_name = refl

remove_session_frees_example :
    (eq_bytes (1 ∷ []) other_tunnel.session_id ≡ false)
    × (lookup (1 ∷ []) (remove_session 9 (1 ∷ []) both).sessions ≡ none)
remove_session_frees_example =
    remove_session_frees 9 (1 ∷ []) both (99 ∷ 100 ∷ []) other_tunnel both-IsTied.0 both-IsTied.1
      other_name

handle_tunnel_request-limits_example :
    IfCreated client (handle_tunnel_request lib 6 client (some request) (2 ∷ []) [] logged)
handle_tunnel_request-limits_example =
    handle_tunnel_request-limits lib 6 client (some request) (2 ∷ []) [] logged

handle_auth-Meant_example :
    Meant digest 5
      (49 ∷ [])
      (1 ∷ [])
      (7 ∷ 7 ∷ [])
      first
      (handle_auth digest 5 (49 ∷ []) (1 ∷ []) (7 ∷ 7 ∷ []) first)
handle_auth-Meant_example = handle_auth-Meant digest 5 (49 ∷ []) (1 ∷ []) (7 ∷ 7 ∷ []) first

serving-lists : lookup (2 ∷ []) serving.tunnels ≡ some its_tunnel
unfolding lookup eq_bytes
serving-lists = refl

stays : serving.go_away ≡ false
unfolding new_session
stays = refl

holdable : is_holdable its_tunnel its_tunnel.tunnel_type ≡ true
unfolding is_holdable http_tunnel
holdable = refl

remove_session_holds_example :
    (held_by 100 its_tunnel.subdomain (remove_session 9 (1 ∷ []) served).held).0
    ≡ some its_tunnel.account_id
remove_session_holds_example =
    remove_session_holds 9 100 (1 ∷ []) (2 ∷ []) served serving its_tunnel served-IsTied.0
      served-IsTied.1 served_facts.session serving-lists stays served_facts.runs holdable
      (omega (arith, served_facts.grace)) (omega (arith, served_facts.grace))

-- "a.b" is accepted on a server of the domain "d".
accepts : normalize_custom_domain lib (97 ∷ 46 ∷ 98 ∷ []) (100 ∷ []) ≡ accepted (97 ∷ 46 ∷ 98 ∷ [])
unfolding normalize_custom_domain check_domain trim_dot split_dots has_byte all_labels is_label
    starts_with_hyphen ends_in_hyphen all_host_bytes is_host_byte is_under has_suffix eq_bytes
accepts = refl

normalize_custom_domain-HostName_example :
    IfAccepted lib (100 ∷ []) (normalize_custom_domain lib (97 ∷ 46 ∷ 98 ∷ []) (100 ∷ []))
normalize_custom_domain-HostName_example =
    normalize_custom_domain-HostName lib (97 ∷ 46 ∷ 98 ∷ []) (100 ∷ [])
