-- ===== src/Server/Names.antt =====
-- The names under which tunnels are public: keys of Server.tunnels and URLs (internal/server).
pub mod Digits
use wire_rift.Prelude.{
  ℕ, zero, suc, ◌+◌, ◌/◌, ◌%◌, Bool, true, false, ◌&&◌, ◌||◌, ltb, ◌==◌, if◌then◌else◌, List, [],
  ◌∷◌, ◌++◌, length, Bytes, eq_bytes,
}

-- strconv.Itoa of a number that is not negative; n rounds are enough.
unfoldable pub itoa_rounds : ℕ → ℕ → Bytes
itoa_rounds zero n = (48 + n) ∷ []
itoa_rounds (suc rounds) n =
    let front = itoa_rounds rounds (n / 10) in
    if ltb n 10 then (48 + n) ∷ [] else front ++ ((48 + n % 10) ∷ [])

unfoldable pub itoa : ℕ → Bytes
itoa n = itoa_rounds n n

-- "tcp:" and a port
unfoldable pub port_key : ℕ → Bytes
port_key port = 116 ∷ 99 ∷ 112 ∷ 58 ∷ itoa port

-- `customKeyPrefix` "domain:"
abbrev pub custom_key_prefix : Bytes
custom_key_prefix = 100 ∷ 111 ∷ 109 ∷ 97 ∷ 105 ∷ 110 ∷ 58 ∷ []

unfoldable pub custom_key : Bytes → Bytes
custom_key domain = custom_key_prefix ++ domain

-- strings.HasPrefix
unfoldable pub has_prefix : Bytes → Bytes → Bool
has_prefix s [] = true
has_prefix [] (c ∷ p) = false
has_prefix (d ∷ s) (c ∷ p) = if d == c then has_prefix s p else false

-- `isAliasKey`
unfoldable pub is_alias_key : Bytes → Bool
is_alias_key key = has_prefix key custom_key_prefix

unfoldable pub has_byte : ℕ → Bytes → Bool
has_byte c [] = false
has_byte c (d ∷ s) = if d == c then true else has_byte c s

-- net.JoinHostPort with a port number: a host with a colon or a percent sign is bracketed.
unfoldable pub join_host_port : Bytes → ℕ → Bytes
join_host_port host port =
    if (has_byte 58 host || has_byte 37 host)
    then (91 ∷ host) ++ (93 ∷ 58 ∷ itoa port)
    else host ++ (58 ∷ itoa port)

-- "http" and "https"
abbrev pub http_scheme : Bytes
http_scheme = 104 ∷ 116 ∷ 116 ∷ 112 ∷ []

abbrev pub https_scheme : Bytes
https_scheme = 104 ∷ 116 ∷ 116 ∷ 112 ∷ 115 ∷ []

-- `publicURLForHost` with the configuration's scheme and port.
unfoldable pub public_url_for_host : Bytes → ℕ → Bytes → Bytes
public_url_for_host public_scheme port host =
    let scheme = if length public_scheme == 0 then http_scheme else public_scheme in
    let prefix = scheme ++ (58 ∷ 47 ∷ 47 ∷ []) in
    if (port == 0
      || (eq_bytes scheme http_scheme && port == 80)
      || (eq_bytes scheme https_scheme && port == 443))
    then prefix ++ host
    else prefix ++ join_host_port host port

-- `publicHTTPURL` with the configuration's domain, scheme and port.
unfoldable pub public_http_url : Bytes → Bytes → ℕ → Bytes → Bytes
public_http_url domain public_scheme port subdomain =
    public_url_for_host public_scheme port (subdomain ++ (46 ∷ domain))
