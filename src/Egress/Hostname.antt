-- ===== src/Egress/Hostname.antt =====
-- Hostnames of src/agent/egress-policy.ts: normalisation, and the patterns of the allowlist.
-- Node's `domainToASCII` is the parameter `to_ascii`. Its result is ASCII, so `toLowerCase` is taken
-- on ASCII.
pub mod Matching
use bloom_workspaces.Base.{
  ℕ, suc, ◌-◌, Bool, true, false, ◌&&◌, ◌||◌, not, List, [], ◌∷◌, map, ltb, leb, ◌==◌,
  if◌then◌else◌, Text, codes, split, all, is_lower, is_digit, lower, length, text_eq, ends_with,
  starts_with, drop, take, Result, ok, err, ◌>>=◌, ◌>>◌, throw_if, ◌++◌,
}
use bloom_workspaces.Egress.Errors.{EgressPolicyError, invalid_authority, hostname_forbidden}

abbrev pub is_alnum : ℕ → Bool
is_alnum c = is_lower c || is_digit c

-- `/^[a-z0-9](?:[a-z0-9-]{0,61}[a-z0-9])?$/u`.
abbrev pub label_tail : Text → Bool
label_tail [] = false
label_tail (c ∷ []) = is_alnum c
label_tail (c ∷ d ∷ cs) = (is_alnum c || c == b'-') && label_tail (d ∷ cs)

abbrev pub is_label : Text → Bool
is_label [] = false
is_label (c ∷ []) = is_alnum c
is_label (c ∷ d ∷ cs) = is_alnum c && label_tail (d ∷ cs) && leb (length (d ∷ cs)) 62

-- `hostname.includes("..")`.
abbrev pub has_empty_label : Text → Bool
has_empty_label [] = false
has_empty_label (a ∷ []) = false
has_empty_label (a ∷ b ∷ cs) = a == b'.' && b == b'.' || has_empty_label (b ∷ cs)

abbrev pub malformed : Text → Bool
malformed hostname =
    length hostname == 0
    || ltb 253 (length hostname)
    || has_empty_label hostname
    || not (all is_label (split b'.' hostname))

abbrev pub is_local : Text → Bool
is_local hostname =
    text_eq hostname (codes "localhost")
    || ends_with (codes ".localhost") hostname
    || ends_with (codes ".local") hostname
    || ends_with (codes ".internal") hostname
    || text_eq hostname (codes "home.arpa")
    || ends_with (codes ".home.arpa") hostname

-- The two tests of a normalised name.
checked_hostname : Text → Result EgressPolicyError Text
checked_hostname hostname = do
  throw_if (malformed hostname) invalid_authority
  throw_if (is_local hostname) hostname_forbidden
  ok hostname

abbrev pub without_final_dot : Text → Text
without_final_dot input =
    if ends_with (b'.' ∷ []) input then take (length input - 1) input else input

pub record HostPattern : Type 0 where
  pub hostname : Text
  pub include_subdomains : Bool

unfoldable pub host_matches : Text → HostPattern → Bool
host_matches hostname pat =
    if pat.include_subdomains
    then ltb (length pat.hostname) (length hostname) && ends_with (b'.' ∷ pat.hostname) hostname
    else text_eq hostname pat.hostname

module _ (to_ascii : Text → Text) where
  unfoldable pub normalize_hostname : Text → Result EgressPolicyError Text
  unfolding checked_hostname
  normalize_hostname input = checked_hostname (map lower (to_ascii (without_final_dot input)))

  unfoldable pub parse_host_pattern : Text → Result EgressPolicyError HostPattern
  parse_host_pattern input = do
    let include_subdomains = starts_with (codes "*.") input
    hostname ← normalize_hostname (if include_subdomains then drop 2 input else input)
    ok (record { hostname = hostname; include_subdomains = include_subdomains })
