-- ===== src/Egress/Policy.antt =====
-- `EgressPolicy` of src/agent/egress-policy.ts. Node's `domainToASCII` and `isIP` are parameters, and
-- so is the lookup: its result is none where the promise is rejected or the timeout comes first.
-- Ports are natural numbers, so `Number.isInteger` holds of each.
pub mod Approval
use bloom_workspaces.Base.{
  ℕ, zero, suc, Bool, true, false, ◌||◌, not, Option, none, some, List, [], ◌∷◌, ◌++◌, ltb, ◌==◌,
  if◌then◌else◌, Text, any, Result, ok, err, ◌>>=◌, ◌>>◌, throw_if, or_throw, get_or_else,
}
use bloom_workspaces.Egress.Errors.{
  EgressPolicyError, invalid_authority, ip_literal_forbidden, hostname_forbidden, port_forbidden,
  dns_failed, dns_empty, address_forbidden, bad_option,
}
use bloom_workspaces.Egress.Ipv4.{is_public_ipv4}
use bloom_workspaces.Egress.Ipv6.{is_public_ipv6}
use bloom_workspaces.Egress.Hostname.{
  HostPattern, host_matches, normalize_hostname, parse_host_pattern,
}

pub data EgressProtocol : Type 0 where
  http connect : EgressProtocol

pub record ResolvedAddress : Type 0 where
  pub address : Text
  pub family : ℕ

pub record ApprovedDestination : Type 0 where
  pub hostname : Text
  pub port : ℕ
  pub protocol : EgressProtocol
  pub address : Text
  pub family : ℕ

pub record EgressPolicyOptions : Type 0 where
  pub allowed_hosts : Option (List Text)
  pub allowed_http_ports : Option (List ℕ)
  pub allowed_connect_ports : Option (List ℕ)
  pub dns_timeout_ms : Option ℕ

pub record EgressPolicy : Type 0 where
  pub host_patterns : List HostPattern
  pub http_ports : List ℕ
  pub connect_ports : List ℕ
  pub dns_timeout_ms : ℕ

unfoldable pub validate_port : ℕ → Result EgressPolicyError (Unit {0})
validate_port port = throw_if (ltb port 1 || ltb 65535 port) invalid_authority

validate_ports : List ℕ → Result EgressPolicyError (Unit {0})
validate_ports [] = ok tt
validate_ports (port ∷ ports) = do validate_port port; validate_ports ports

validate_positive_integer : ℕ → Result EgressPolicyError ℕ
validate_positive_integer value = do throw_if (ltb value 1) bad_option; ok value

abbrev pub ports_for : EgressPolicy → EgressProtocol → List ℕ
ports_for policy connect = policy.connect_ports
ports_for policy http = policy.http_ports

abbrev pub has_port : ℕ → List ℕ → Bool
has_port port = any (λ allowed. allowed == port)

module _ (is_ip : Text → ℕ) where
  unfoldable pub is_public_address : Text → Bool
  is_public_address address =
      if is_ip address == 4
      then is_public_ipv4 address
      else if is_ip address == 6
      then is_public_ipv6 address
      else false

  -- The test of each answer.
  abbrev pub unsafe : ResolvedAddress → Bool
  unsafe answer =
      not (is_ip answer.address == answer.family) || not (is_public_address answer.address)

  -- The answers, all of them safe, with the first one that is then used.
  unfoldable pub safe_answer : List ResolvedAddress → Result EgressPolicyError ResolvedAddress
  safe_answer [] = err dns_empty
  safe_answer (first ∷ rest) = do throw_if (any unsafe (first ∷ rest)) address_forbidden; ok first

module _ (to_ascii : Text → Text) where
  parse_host_patterns : List Text → Result EgressPolicyError (List HostPattern)
  parse_host_patterns [] = ok []
  parse_host_patterns (host ∷ hosts) = do
    pat ← parse_host_pattern to_ascii host
    pats ← parse_host_patterns hosts
    ok (pat ∷ pats)

  -- The constructor.
  unfoldable pub new_policy : EgressPolicyOptions → Result EgressPolicyError EgressPolicy
  unfolding parse_host_patterns validate_ports validate_positive_integer
  new_policy options = do
    patterns ← parse_host_patterns (get_or_else options.allowed_hosts [])
    let http_ports = get_or_else options.allowed_http_ports (80 ∷ [])
    let connect_ports = get_or_else options.allowed_connect_ports (443 ∷ [])
    validate_ports (http_ports ++ connect_ports)
    timeout ← validate_positive_integer (get_or_else options.dns_timeout_ms 5000)
    ok (record {
      host_patterns = patterns;
      http_ports = http_ports;
      connect_ports = connect_ports;
      dns_timeout_ms = timeout;
    })

module _ (to_ascii : Text → Text) (is_ip : Text → ℕ)
    (lookup : Text → Option (List ResolvedAddress)) where
  unfoldable pub approve :
      EgressPolicy → Text → ℕ → EgressProtocol → Result EgressPolicyError ApprovedDestination
  unfolding safe_answer
  approve policy host port protocol = do
    hostname ← normalize_hostname to_ascii host
    throw_if (not (is_ip hostname == 0)) ip_literal_forbidden
    throw_if (not (any (host_matches hostname) policy.host_patterns)) hostname_forbidden
    validate_port port
    throw_if (not (has_port port (ports_for policy protocol))) port_forbidden
    answers ← or_throw (lookup hostname) dns_failed
    approved ← safe_answer is_ip answers
    ok (record {
      hostname = hostname;
      port = port;
      protocol = protocol;
      address = approved.address;
      family = approved.family;
    })
