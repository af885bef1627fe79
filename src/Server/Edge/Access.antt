-- ===== src/Server/Edge/Access.antt =====
-- internal/server/http_edge.go and pin.go: who an HTTP request is forwarded for. The remote
-- address stands without its port, as net.SplitHostPort gives it.
pub mod Addresses
pub mod Forwarded
use wire_rift.Prelude.{
  ℕ, Bool, true, false, not, ◌&&◌, ◌==◌, if◌then◌else◌, maybe, List, [], ◌∷◌, ◌++◌, length, Option,
  none, some, Bytes, eq_bytes,
}
use wire_rift.RateLimit.{allow_key}
use wire_rift.Server.Names.{has_byte}
use wire_rift.Server.CustomDomain.{Externals}
use wire_rift.Server.Pin.{Failures, locked, fail, reset_failures}
use wire_rift.Server.Tunnels.{Tunnel, TunnelAuth, Session, Server}
use wire_rift.Server.Tunnels.Create.{basic}
use wire_rift.Server.Edge.{
  Route, invalid_host, tunnel_offline, tunnel_not_found, routed, route_request, get_session,
}

-- What the handler uses of Go's net: SplitHostPort's host, ParseIP's address in the form of 16
-- bytes, and the network that ParseCIDR reads.
pub record Net : Type 0 where
  pub split_host_port : Bytes → Option Bytes
  pub parse_ip : Bytes → Option Bytes
  pub parse_cidr : Bytes → Option (Bytes → Bool)

-- What the handler reads of a request: the user and password of its Basic credentials, its cookies,
-- the PIN of its header and of its query, where "" is none, and that of its form, if it posts one.
pub record Request : Type 0 where
  pub host : Bytes
  pub remote_ip : Bytes
  pub basic_auth : Option (Bytes × Bytes)
  pub cookie : Bytes → Option Bytes
  pub header_pin : Bytes
  pub query_pin : Bytes
  pub form_pin : Option Bytes

-- strings.TrimPrefix with "[" and strings.TrimSuffix with "]"
unfoldable pub trim_opening : Bytes → Bytes
trim_opening [] = []
trim_opening (c ∷ s) = if c == 91 then s else c ∷ s

unfoldable pub trim_closing : Bytes → Bytes
trim_closing [] = []
trim_closing (c ∷ []) = if c == 93 then [] else c ∷ []
trim_closing (c ∷ (d ∷ s)) = c ∷ trim_closing (d ∷ s)

-- One round of the loop of `isIPAllowed`: whether the entry lets the address in.
unfoldable pub entry_allows : Net → Bytes → Bytes → Bool
entry_allows net client_ip allowed =
    if has_byte 47 allowed
    then maybe (net.parse_cidr allowed) false
        (λ contains. maybe (net.parse_ip client_ip) false contains)
    else if maybe (net.parse_ip allowed) false
        (λ a. maybe (net.parse_ip client_ip) false (eq_bytes a))
    then true
    else eq_bytes client_ip allowed

unfoldable pub any_allows : Net → Bytes → List Bytes → Bool
any_allows net client_ip [] = false
any_allows net client_ip (allowed ∷ l) =
    let rest = any_allows net client_ip l in
    if entry_allows net client_ip allowed then true else rest

-- `isIPAllowed`
unfoldable pub is_ip_allowed : Net → Bytes → List Bytes → Bool
is_ip_allowed net client_ip allowed_ips =
    any_allows net (trim_closing (trim_opening client_ip)) allowed_ips

-- `checkBasicAuth`
unfoldable pub check_basic_auth : Request → Bytes → Bytes → Bool
check_basic_auth req username password =
    maybe req.basic_auth false (λ u. eq_bytes u.0 username && eq_bytes u.1 password)

-- "wirerift_pin_"
abbrev pub pin_cookie_prefix : Bytes
pin_cookie_prefix = 119 ∷ 105 ∷ 114 ∷ 101 ∷ 114 ∷ 105 ∷ 102 ∷ 116 ∷ 95 ∷ 112 ∷ 105 ∷ 110 ∷ 95 ∷ []

-- `pinMAC`
abbrev pub pin_mac : Externals → Bytes → Bytes → Bytes → Bytes
pin_mac lib pin_secret pin subdomain = lib.hmac_hex pin_secret (subdomain ++ (58 ∷ pin))

-- What `checkPIN` answers; the page says whether a PIN was wrong.
pub data PinAnswer : Type 0 where
  pin_passed pin_locked pin_redirect : PinAnswer
  pin_page : Bool → PinAnswer

unfoldable pub has_pin_cookie : Externals → Bytes → Request → Bytes → Bytes → Bool
has_pin_cookie lib pin_secret req pin subdomain =
    maybe (req.cookie (pin_cookie_prefix ++ subdomain)) false
      (λ value. eq_bytes value (pin_mac lib pin_secret pin subdomain))

-- `checkPIN` from the form on.
unfoldable pub check_form_pin : ℕ → Request → Bytes → Bytes → Failures → PinAnswer × Failures
check_form_pin now req pin key g =
    maybe req.form_pin (pin_page false, g)
      (λ submitted.
        if eq_bytes submitted pin
        then (pin_redirect, reset_failures key g)
        else (pin_page true, (fail now key g).1))

-- `checkPIN` from the query on.
unfoldable pub check_query_pin : ℕ → Request → Bytes → Bytes → Failures → PinAnswer × Failures
check_query_pin now req pin key g =
    if (not (length req.query_pin == 0) && not (eq_bytes req.query_pin pin))
    then check_form_pin now req pin key (fail now key g).1
    else if not (length req.query_pin == 0)
    then (pin_redirect, reset_failures key g)
    else check_form_pin now req pin key g

-- `checkPIN` from the header on.
unfoldable pub check_header_pin : ℕ → Request → Bytes → Bytes → Failures → PinAnswer × Failures
check_header_pin now req pin key g =
    if length req.header_pin == 0
    then check_query_pin now req pin key g
    else if eq_bytes req.header_pin pin
    then (pin_passed, reset_failures key g)
    else check_query_pin now req pin key (fail now key g).1

-- The guard's key, the subdomain and the address with "|" between them.
abbrev pub guard_key : Request → Bytes → Bytes
guard_key req subdomain = subdomain ++ (124 ∷ req.remote_ip)

-- `checkPIN`
unfoldable pub check_pin :
    Externals → Bytes → ℕ → Request → Bytes → Bytes → Failures → PinAnswer × Failures
check_pin lib pin_secret now req pin subdomain g =
    let key = guard_key req subdomain in
    if has_pin_cookie lib pin_secret req pin subdomain
    then (pin_passed, g)
    else if locked now key g
    then (pin_locked, g)
    else check_header_pin now req pin key g

-- What `handleHTTPRequest` answers, or whom it forwards the request to.
pub data Answer : Type 0 where
  too_many_requests bad_host offline not_found forbidden unauthorized no_session : Answer
  pin_refused : PinAnswer → Answer
  forwarded : Tunnel → Bytes → Session → Answer

-- The handler's last look-up.
unfoldable pub forward : Tunnel → Bytes → Server → Answer
forward t name s = maybe (get_session t.session_id s) no_session (forwarded t name)

unfoldable pub after_pin : Tunnel → Bytes → Server → PinAnswer → Answer
after_pin t name s pin_passed = forward t name s
after_pin t name s pin_locked = pin_refused pin_locked
after_pin t name s pin_redirect = pin_refused pin_redirect
after_pin t name s (pin_page wrong) = pin_refused (pin_page wrong)

-- The test of the PIN, if the tunnel has one.
unfoldable pub guard_pin :
    Externals → Bytes → ℕ → Request → Tunnel → Bytes → Server → Failures → Answer × Failures
guard_pin lib pin_secret now req t name s g =
    let asked = check_pin lib pin_secret now req t.pin name g in
    if length t.pin == 0 then (forward t name s, g) else (after_pin t name s asked.0, asked.1)

-- Whether the tunnel asks for credentials that the request does not have.
unfoldable pub lacks_auth : Request → Option TunnelAuth → Bool
lacks_auth req auth =
    maybe auth false
      (λ a. eq_bytes a.auth_type basic && not (check_basic_auth req a.username a.password))

-- The tests of the tunnel: addresses, credentials, PIN.
unfoldable pub guard_tunnel :
    Externals → Net → Bytes → ℕ → Request → Tunnel → Bytes → Server → Failures → Answer × Failures
guard_tunnel lib net pin_secret now req t name s g =
    if (not (length t.allowed_ips == 0) && not (is_ip_allowed net req.remote_ip t.allowed_ips))
    then (forbidden, g)
    else if lacks_auth req t.auth
    then (unauthorized, g)
    else guard_pin lib pin_secret now req t name s g

unfoldable pub handle_route :
    Externals → Net → Bytes → ℕ → Request → Failures → Route × Server → Answer × (Server × Failures)
handle_route lib net pin_secret now req g (routed t name, s) =
    let r = guard_tunnel lib net pin_secret now req t name s g in (r.0, (s, r.1))
handle_route lib net pin_secret now req g (invalid_host, s) = (bad_host, (s, g))
handle_route lib net pin_secret now req g (tunnel_offline, s) = (offline, (s, g))
handle_route lib net pin_secret now req g (tunnel_not_found, s) = (not_found, (s, g))

-- `handleHTTPRequest` from the rate limit to the call of `forwardHTTPRequest`.
unfoldable pub handle_http_request :
    Externals → Net → Bytes → ℕ → Request → Server → Failures → Answer × (Server × Failures)
handle_http_request lib net pin_secret now req s g =
    let asked = allow_key now req.remote_ip s.rate_limiter in
    let s' = record s { rate_limiter = asked.1 } in
    if not asked.0
    then (too_many_requests, (s', g))
    else handle_route lib net pin_secret now req g
        (route_request lib net.split_host_port now req.host s')
