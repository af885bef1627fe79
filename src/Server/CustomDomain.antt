-- ===== src/Server/CustomDomain.antt =====
-- internal/server/customdomain.go: which custom domains are accepted, and the DNS proof.
pub mod Host
use wire_rift.Prelude.{
  ℕ, ◌-◌, Bool, true, false, not, ◌&&◌, ◌||◌, ltb, leb, ◌==◌, if◌then◌else◌, List, [], ◌∷◌, ◌++◌,
  Option, maybe, length, take, drop, Bytes, eq_bytes,
}
use wire_rift.Server.Names.{has_byte}

-- What the server uses of Go's standard library: strings.ToLower, strings.TrimSpace, whether
-- net.ParseIP reads an address, the hexadecimal HMAC-SHA256 of a secret and a message, the TXT
-- records of a name that the resolver finds, and the ports that net.Listen can bind.
pub record Externals : Type 0 where
  pub to_lower : Bytes → Bytes
  pub trim_space : Bytes → Bytes
  pub is_ip : Bytes → Bool
  pub hmac_hex : Bytes → Bytes → Bytes
  pub txt_records : Bytes → List Bytes
  pub can_bind : ℕ → Bool

-- The errors of this file, all under ErrCustomDomain but the last two.
pub data DomainError : Type 0 where
  empty_or_too_long is_ip_address wildcard needs_two_labels invalid_host own_domain : DomainError
  not_verified in_use : DomainError

pub data Checked : Type 0 where
  rejected : DomainError → Checked
  accepted : Bytes → Checked

-- strings.TrimSuffix of ".", strings.HasSuffix, and strings.Split at ".".
unfoldable pub trim_dot : Bytes → Bytes
trim_dot [] = []
trim_dot (c ∷ []) = if c == 46 then [] else c ∷ []
trim_dot (c ∷ (d ∷ s)) = c ∷ trim_dot (d ∷ s)

unfoldable pub has_suffix : Bytes → Bytes → Bool
has_suffix s suffix =
    leb (length suffix) (length s) && eq_bytes (drop (length s - length suffix) s) suffix

abbrev pub push_label : ℕ → List Bytes → List Bytes
push_label c [] = (c ∷ []) ∷ []
push_label c (l ∷ ls) = (c ∷ l) ∷ ls

unfoldable pub split_dots : Bytes → List Bytes
split_dots [] = [] ∷ []
split_dots (c ∷ s) = let rest = split_dots s in if c == 46 then [] ∷ rest else push_label c rest

-- The bytes that a label may have.
unfoldable pub is_host_byte : ℕ → Bool
is_host_byte c = (leb 97 c && leb c 122) || (leb 48 c && leb c 57) || c == 45

unfoldable pub all_host_bytes : Bytes → Bool
all_host_bytes [] = true
all_host_bytes (c ∷ s) = is_host_byte c && all_host_bytes s

-- Whether a label ends in a hyphen.
unfoldable pub ends_in_hyphen : Bytes → Bool
ends_in_hyphen [] = false
ends_in_hyphen (c ∷ []) = c == 45
ends_in_hyphen (c ∷ (d ∷ s)) = ends_in_hyphen (d ∷ s)

unfoldable pub starts_with_hyphen : Bytes → Bool
starts_with_hyphen [] = false
starts_with_hyphen (c ∷ s) = c == 45

-- The tests of one label, and the loop over them.
unfoldable pub is_label : Bytes → Bool
is_label l =
    if (length l == 0 || ltb 63 (length l) || starts_with_hyphen l || ends_in_hyphen l)
    then false
    else all_host_bytes l

unfoldable pub all_labels : List Bytes → Bool
all_labels [] = true
all_labels (l ∷ ls) = is_label l && all_labels ls

-- The last test: the server's own domain, or a name under it.
unfoldable pub is_under : Bytes → Bytes → Bool
is_under base d = ltb 0 (length base) && (eq_bytes d base || has_suffix d (46 ∷ base))

-- The tests of `normalizeCustomDomain` on the lowercased name.
unfoldable pub check_domain : Externals → Bytes → Bytes → Checked
check_domain lib base d =
    if (length d == 0 || ltb 253 (length d))
    then rejected empty_or_too_long
    else if lib.is_ip d
    then rejected is_ip_address
    else if has_byte 42 d
    then rejected wildcard
    else if ltb (length (split_dots d)) 2
    then rejected needs_two_labels
    else if not (all_labels (split_dots d))
    then rejected invalid_host
    else if is_under base d
    then rejected own_domain
    else accepted d

-- `normalizeCustomDomain`
unfoldable pub normalize_custom_domain : Externals → Bytes → Bytes → Checked
normalize_custom_domain lib domain base_domain =
    check_domain lib (lib.to_lower base_domain) (lib.to_lower (trim_dot (lib.trim_space domain)))

-- "wirerift-domain-v1|", "_wirerift." and "wirerift-verification="
abbrev pub proof_prefix : Bytes
proof_prefix =
    119 ∷ 105 ∷ 114 ∷ 101 ∷ 114 ∷ 105 ∷ 102 ∷ 116 ∷ 45 ∷ 100 ∷ 111 ∷ 109 ∷ 97 ∷ 105 ∷ 110 ∷ 45 ∷ 118
    ∷ 49 ∷ 124 ∷ []

abbrev pub record_prefix : Bytes
record_prefix = 95 ∷ 119 ∷ 105 ∷ 114 ∷ 101 ∷ 114 ∷ 105 ∷ 102 ∷ 116 ∷ 46 ∷ []

abbrev pub value_prefix : Bytes
value_prefix =
    119 ∷ 105 ∷ 114 ∷ 101 ∷ 114 ∷ 105 ∷ 102 ∷ 116 ∷ 45 ∷ 118 ∷ 101 ∷ 114 ∷ 105 ∷ 102 ∷ 105 ∷ 99 ∷ 97
    ∷ 116 ∷ 105 ∷ 111 ∷ 110 ∷ 61 ∷ []

-- `domainProof`
unfoldable pub domain_proof : Externals → Bytes → Bytes → Bytes → Bytes
domain_proof lib secret account_id domain =
    take 32 (lib.hmac_hex secret (proof_prefix ++ (account_id ++ (124 ∷ domain))))

-- `txtRecord`: the record's name and its value.
unfoldable pub txt_record : Externals → Bytes → Bytes → Bytes → Bytes × Bytes
txt_record lib secret account_id domain =
    (record_prefix ++ domain, value_prefix ++ domain_proof lib secret account_id domain)

unfoldable pub any_record : Externals → Bytes → List Bytes → Bool
any_record lib want [] = false
any_record lib want (r ∷ records) =
    let further = any_record lib want records in
    if eq_bytes (lib.trim_space r) want then true else further

-- `verifyCustomDomain`: whether it returns nil.
unfoldable pub verify_custom_domain : Externals → Bytes → Bytes → Bytes → Bool
verify_custom_domain lib secret account_id domain =
    let name_value = txt_record lib secret account_id domain in
    any_record lib name_value.1 (lib.txt_records name_value.0)

-- `normalizeHostHeader`; `split_host_port` is net.SplitHostPort's host, if it has one.
unfoldable pub normalize_host_header : Externals → Option Bytes → Bytes → Bytes
normalize_host_header lib split_host_port host =
    lib.to_lower (trim_dot (maybe split_host_port host (λ h. h)))
