-- ===== src/Egress/Authority.antt =====
-- `parseProxyAuthority` of src/agent/egress-policy.ts: the host and port of a proxy request. Node's
-- `domainToASCII` and `isIP` are parameters.
pub mod Parsing
use bloom_workspaces.Base.{
  ℕ, zero, suc, ◌+◌, ◌-◌, ◌*◌, Bool, true, false, ◌&&◌, ◌||◌, not, Option, none, some, List, [],
  ◌∷◌, ltb, leb, ◌==◌, if◌then◌else◌, Text, any, all, is_digit, includes, length, count, Result, ok,
  err, ◌>>=◌, ◌>>◌, throw_if, or_throw,
}
use bloom_workspaces.Egress.Errors.{
  EgressPolicyError, invalid_authority, credentials_forbidden, ip_literal_forbidden,
}
use bloom_workspaces.Egress.Ipv6.{split_last}
use bloom_workspaces.Egress.Hostname.{normalize_hostname}
use bloom_workspaces.Egress.Policy.{validate_port}

pub record ProxyAuthority : Type 0 where
  pub hostname : Text
  pub port : ℕ

-- `/[\u0000-\u0020\u007f/\\?#]/u`.
abbrev pub is_forbidden : ℕ → Bool
is_forbidden c = leb c 0x20 || c == 0x7f || c == b'/' || c == 0x5c || c == b'?' || c == b'#'

abbrev starts_bracketed : Text → Bool
starts_bracketed [] = false
starts_bracketed (c ∷ cs) = c == b'['

-- The text before the last ":", and the text after it, if there is one.
abbrev pub raw_parts : Text → Text × Option Text
raw_parts authority = elim (split_last b':' authority) [
  | none ↦ (authority, none)
  | some (before, after) ↦ (before, some after)
]

-- `/^[0-9]{1,5}$/u`, and `Number` of what it matches.
abbrev pub is_port_text : Text → Bool
is_port_text digits = leb 1 (length digits) && leb (length digits) 5 && all is_digit digits

abbrev pub decimal_from : ℕ → Text → ℕ
decimal_from n [] = n
decimal_from n (c ∷ cs) = decimal_from (n * 10 + (c - b'0')) cs

abbrev pub bad_port_text : Option Text → Bool
bad_port_text none = false
bad_port_text (some digits) = not (is_port_text digits)

abbrev pub chosen_port : Option Text → Option ℕ → Option ℕ
chosen_port none default_port = default_port
chosen_port (some digits) default_port = some (decimal_from 0 digits)

module _ (to_ascii : Text → Text) (is_ip : Text → ℕ) where
  unfoldable pub parse_proxy_authority : Text → Option ℕ → Result EgressPolicyError ProxyAuthority
  parse_proxy_authority authority default_port = do
    throw_if (length authority == 0 || ltb 512 (length authority) || any is_forbidden authority)
        invalid_authority
    throw_if (includes b'@' authority) credentials_forbidden
    throw_if (starts_bracketed authority) ip_literal_forbidden
    throw_if (ltb 1 (count (λ c. c == b':') authority)) invalid_authority
    let (raw_hostname, raw_port) = raw_parts authority
    throw_if (bad_port_text raw_port) invalid_authority
    port ← or_throw (chosen_port raw_port default_port) invalid_authority
    hostname ← normalize_hostname to_ascii raw_hostname
    throw_if (not (is_ip hostname == 0)) ip_literal_forbidden
    validate_port port
    ok (record { hostname = hostname; port = port })
