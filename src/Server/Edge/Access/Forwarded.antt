-- ===== src/Server/Edge/Access/Forwarded.antt =====
-- A request that is forwarded has passed every test of the tunnel.
use mathlib.Core.Path.{subst}
use wire_rift.Prelude.{
  ℕ, ◌≡◌, refl, sym, ap, ap₂, ◌∙◌, Bool, true, false, not, ◌&&◌, ◌==◌, if_split, if_cases, maybe,
  maybe_cases, ◌++◌, List, length, Option, none, some, Bytes, eq_bytes, eq_bytes_refl, eq_bytes-eq,
  lookup, ◌⊎◌, inl, inr, &&_both, ==_iff,
}
use wire_rift.RateLimit.{allow_key}
use wire_rift.Server.CustomDomain.{Externals}
use wire_rift.Server.Pin.{Failures, locked}
use wire_rift.Server.Tunnels.{Tunnel, TunnelAuth, Session, Server, listed, tunnels_of}
use wire_rift.Server.Tunnels.Create.{basic}
use wire_rift.Server.Tunnels.Linked.{view, IsTied}
use wire_rift.Server.Edge.{
  Route, invalid_host, tunnel_offline, tunnel_not_found, routed, get_session,
}
use wire_rift.Server.Edge.Routes.{IsLive, IfRouted, route_request-IfRouted}
use wire_rift.Server.Edge.Access.Addresses.{SomeAdmits, is_ip_allowed-SomeAdmits}
use wire_rift.Server.Edge.Access.{
  Net, Request, is_ip_allowed, trim_opening, trim_closing, check_basic_auth, pin_cookie_prefix,
  pin_mac, PinAnswer, pin_passed, pin_locked, pin_redirect, pin_page, has_pin_cookie,
  check_form_pin, check_query_pin, check_header_pin, guard_key, check_pin, Answer,
  too_many_requests, bad_host, offline, not_found, forbidden, unauthorized, no_session, pin_refused,
  forwarded, forward, after_pin, guard_pin, lacks_auth, guard_tunnel, handle_route,
  handle_http_request,
}

module _ (lib : Externals) (net : Net) (pin_secret : Bytes) (now : ℕ) (req : Request)
    (g : Failures) where
  -- The cookie that only the PIN gives, or the PIN itself while its guard is not locked.
  abbrev pub KnowsPin : Bytes → Bytes → Type 0
  KnowsPin pin name =
      (req.cookie (pin_cookie_prefix ++ name) ≡ some (pin_mac lib pin_secret pin name))
      ⊎ ((req.header_pin ≡ pin) × (locked now (guard_key req name) g ≡ false))

  -- An address that a list admits, without the brackets of IPv6.
  abbrev pub IsAllowed : List Bytes → Type 0
  IsAllowed l =
      (is_ip_allowed net req.remote_ip l ≡ true)
      × SomeAdmits net (trim_closing (trim_opening req.remote_ip)) l

  -- What a forwarded request shows: the tunnel is the session's, the address is one of its list, the
  -- credentials are its own, and so is the PIN.
  pub record IsAdmitted (s : Server) (t : Tunnel) (name : Bytes) (x : Session) : Type 0 where
    pub session : get_session t.session_id s ≡ some x
    pub lists : lookup t.id x.tunnels ≡ some t
    pub address : (length t.allowed_ips ≡ 0) ⊎ IsAllowed t.allowed_ips
    pub credentials :
        (a : TunnelAuth)
        → t.auth ≡ some a
        → a.auth_type ≡ basic
        → req.basic_auth ≡ some (a.username, a.password)
    pub pin : (length t.pin ≡ 0) ⊎ KnowsPin t.pin name

  abbrev pub IfForwarded : Server → Answer → Type 0
  IfForwarded s (forwarded t name x) = IsAdmitted s t name x
  IfForwarded s too_many_requests = Unit {0}
  IfForwarded s bad_host = Unit {0}
  IfForwarded s offline = Unit {0}
  IfForwarded s not_found = Unit {0}
  IfForwarded s forbidden = Unit {0}
  IfForwarded s unauthorized = Unit {0}
  IfForwarded s no_session = Unit {0}
  IfForwarded s (pin_refused a) = Unit {0}

  abbrev IfPassed : Type 0 → PinAnswer → Type 0
  IfPassed P pin_passed = P
  IfPassed P pin_locked = Unit {0}
  IfPassed P pin_redirect = Unit {0}
  IfPassed P (pin_page wrong) = Unit {0}

  -- Neither the form nor the query lets a request through at once.
  check_form_pin-IfPassed :
      (P : Type 0) (pin key : Bytes) (f : Failures)
      → IfPassed P (check_form_pin now req pin key f).0
  unfolding check_form_pin
  check_form_pin-IfPassed P pin key f =
      maybe_cases (λ (r : PinAnswer × Failures). IfPassed P r.0) req.form_pin (λ _. tt)
        (λ submitted _.
          if_cases (λ (r : PinAnswer × Failures). IfPassed P r.0) (eq_bytes submitted pin) tt tt)

  check_query_pin-IfPassed :
      (P : Type 0) (pin key : Bytes) (f : Failures)
      → IfPassed P (check_query_pin now req pin key f).0
  unfolding check_query_pin
  check_query_pin-IfPassed P pin key f =
      if_cases (λ (r : PinAnswer × Failures). IfPassed P r.0)
        (not (length req.query_pin == 0) && not (eq_bytes req.query_pin pin))
        (check_form_pin-IfPassed P pin key _)
        (if_cases (λ (r : PinAnswer × Failures). IfPassed P r.0) (not (length req.query_pin == 0))
          tt (check_form_pin-IfPassed P pin key _))

  has_pin_cookie-cookie :
      (pin name : Bytes)
      → has_pin_cookie lib pin_secret req pin name ≡ true
      → req.cookie (pin_cookie_prefix ++ name) ≡ some (pin_mac lib pin_secret pin name)
  unfolding has_pin_cookie
  has_pin_cookie-cookie pin name = inside (req.cookie (pin_cookie_prefix ++ name))
    where
      inside :
          (o : Option Bytes)
          → maybe o false (λ value. eq_bytes value (pin_mac lib pin_secret pin name)) ≡ true
          → o ≡ some (pin_mac lib pin_secret pin name)
      inside none h = absurd (cc h)
      inside (some value) h = ap some (eq_bytes-eq value (pin_mac lib pin_secret pin name) h)

  check_pin-IfPassed :
      (pin name : Bytes)
      → IfPassed (KnowsPin pin name) (check_pin lib pin_secret now req pin name g).0
  unfolding check_pin check_header_pin
  check_pin-IfPassed pin name =
      if_split Fine (has_pin_cookie lib pin_secret req pin name)
        (λ e. inl (has_pin_cookie-cookie pin name e))
        (λ _.
          if_split Fine (locked now (guard_key req name) g) (λ _. tt)
            (λ free.
              if_cases Fine (length req.header_pin == 0)
                (check_query_pin-IfPassed (KnowsPin pin name) pin (guard_key req name) g)
                (if_split Fine (eq_bytes req.header_pin pin)
                  (λ e. inr (eq_bytes-eq req.header_pin pin e, free))
                  (λ _. check_query_pin-IfPassed (KnowsPin pin name) pin (guard_key req name) _))))
    where
      Fine : PinAnswer × Failures → Type 0
      Fine r = IfPassed (KnowsPin pin name) r.0

  check_basic_auth-credentials :
      (username password : Bytes)
      → check_basic_auth req username password ≡ true
      → req.basic_auth ≡ some (username, password)
  unfolding check_basic_auth
  check_basic_auth-credentials username password = inside req.basic_auth
    where
      inside :
          (o : Option (Bytes × Bytes))
          → maybe o false (λ u. eq_bytes u.0 username && eq_bytes u.1 password) ≡ true
          → o ≡ some (username, password)
      inside none h = absurd (cc h)
      inside (some (u, p)) h =
          ap₂ (λ a b. some (a, b)) (eq_bytes-eq u username (&&_both _ _ h).0)
            (eq_bytes-eq p password (&&_both _ _ h).1)

  credentials_match :
      (auth : Option TunnelAuth) (a : TunnelAuth)
      → lacks_auth req auth ≡ false
      → auth ≡ some a
      → a.auth_type ≡ basic
      → req.basic_auth ≡ some (a.username, a.password)
  unfolding lacks_auth
  credentials_match auth a has e is_basic = check_basic_auth-credentials a.username a.password (
      checked (eq_bytes a.auth_type basic) (check_basic_auth req a.username a.password)
        (ap (λ y. eq_bytes y basic) is_basic ∙ eq_bytes_refl basic) (rw e at has))
    where
      checked : (b c : Bool) → b ≡ true → (b && not c) ≡ false → c ≡ true
      checked true true p q = refl
      checked true false p q = sym q
      checked false c p q = absurd (cc p)

  -- The tests of a tunnel, where its session lists it.
  module _ (s : Server) (t : Tunnel) (name : Bytes) (live : IsLive s t)
      (address : (length t.allowed_ips ≡ 0) ⊎ IsAllowed t.allowed_ips)
      (credentials : (a : TunnelAuth)
        → t.auth ≡ some a
        → a.auth_type ≡ basic
        → req.basic_auth ≡ some (a.username, a.password)) where
    forward-IfForwarded :
        (length t.pin ≡ 0) ⊎ KnowsPin t.pin name → IfForwarded s (forward t name s)
    unfolding forward
    forward-IfForwarded pin =
        maybe_cases (IfForwarded s) (get_session t.session_id s) (λ _. tt)
          (λ x e. record {
            session = e;
            lists =
                subst (λ y. lookup t.id y.tunnels ≡ some t)
                  (same live.session x (sym live.there ∙ e)) live.lists;
            address = address;
            credentials = credentials;
            pin = pin;
          })
      where
        same : (x y : Session) → some x ≡ some y → x ≡ y
        same x y p = ap (λ (o : Option Session). maybe o x (λ z. z)) p

    after_pin-IfForwarded :
        (a : PinAnswer) → IfPassed (KnowsPin t.pin name) a → IfForwarded s (after_pin t name s a)
    unfolding after_pin
    after_pin-IfForwarded pin_passed knows = forward-IfForwarded (inr knows)
    after_pin-IfForwarded pin_locked knows = tt
    after_pin-IfForwarded pin_redirect knows = tt
    after_pin-IfForwarded (pin_page wrong) knows = tt

    guard_pin-IfForwarded : IfForwarded s (guard_pin lib pin_secret now req t name s g).0
    unfolding guard_pin
    guard_pin-IfForwarded =
        if_split (λ (r : Answer × Failures). IfForwarded s r.0) (length t.pin == 0)
          (λ e. forward-IfForwarded (inl ((==_iff (length t.pin) 0).0 e)))
          (λ _.
            after_pin-IfForwarded (check_pin lib pin_secret now req t.pin name g).0
              (check_pin-IfPassed t.pin name))

  guard_tunnel-IfForwarded :
      (s : Server) (t : Tunnel) (name : Bytes)
      → IsLive s t
      → IfForwarded s (guard_tunnel lib net pin_secret now req t name s g).0
  unfolding guard_tunnel
  guard_tunnel-IfForwarded s t name live =
      if_split Fine
        (not (length t.allowed_ips == 0) && not (is_ip_allowed net req.remote_ip t.allowed_ips))
        (λ _. tt)
        (λ e.
          if_split Fine (lacks_auth req t.auth) (λ _. tt)
            (λ f.
              guard_pin-IfForwarded s t name live
                (allowed (length t.allowed_ips == 0) (is_ip_allowed net req.remote_ip t.allowed_ips)
                  (==_iff (length t.allowed_ips) 0).0
                  (λ h. (h, is_ip_allowed-SomeAdmits net req.remote_ip t.allowed_ips h)) e)
                (λ a. credentials_match t.auth a f)))
    where
      Fine : Answer × Failures → Type 0
      Fine r = IfForwarded s r.0

      allowed :
          (b c : Bool)
          → (b ≡ true → length t.allowed_ips ≡ 0)
          → (c ≡ true → IsAllowed t.allowed_ips)
          → (not b && not c) ≡ false
          → (length t.allowed_ips ≡ 0) ⊎ IsAllowed t.allowed_ips
      allowed true c h k e = inl (h refl)
      allowed false true h k e = inr (k refl)
      allowed false false h k e = absurd (cc e)

  handle_route-IfForwarded :
      (r : Route × Server)
      → IfRouted lib net.split_host_port req.host r
      → let a = handle_route lib net pin_secret now req g r in IfForwarded a.1.0 a.0
  unfolding handle_route
  handle_route-IfForwarded (routed t name, s) live = guard_tunnel-IfForwarded s t name live.0
  handle_route-IfForwarded (invalid_host, s) live = tt
  handle_route-IfForwarded (tunnel_offline, s) live = tt
  handle_route-IfForwarded (tunnel_not_found, s) live = tt

  -- A request is only forwarded to a live session that lists the tunnel, from an address that an
  -- entry of the tunnel's list admits where it has one, with the tunnel's Basic credentials where it
  -- has those, and with the PIN's cookie, or the PIN while its guard is not locked, where it has a
  -- PIN.
  pub handle_http_request-IfForwarded :
      (s : Server)
      → IsTied (view s)
      → let a = handle_http_request lib net pin_secret now req s g in IfForwarded a.1.0 a.0
  unfolding handle_http_request listed tunnels_of
  handle_http_request-IfForwarded s tied =
      if_cases (λ (a : Answer × (Server × Failures)). IfForwarded a.1.0 a.0)
        (not (allow_key now req.remote_ip s.rate_limiter).0) tt
        (handle_route-IfForwarded _ (
          route_request-IfRouted lib net.split_host_port req.host now
            (record s { rate_limiter = (allow_key now req.remote_ip s.rate_limiter).1 }) tied))
