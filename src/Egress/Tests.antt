-- ===== src/Egress/Tests.antt =====
-- Runs of src/agent/egress-policy.ts and src/agent/egress-tls.ts, and the theorems at concrete inputs.
use bloom_workspaces.Base.{
  length, ◌+◌, ◌≤◌, ◌++◌, zero, suc, ℕ, ◌≡◌, ◌↔◌, refl, true, false, Option, none, some, List, [],
  map, lower, ◌∷◌, ◌||◌, ◌==◌, if◌then◌else◌, codes, Text, all, is_digit, ok, err, arith,
}
use bloom_workspaces.Egress.Errors.{address_forbidden}
use bloom_workspaces.Egress.Ipv4.{ipv4_to_number, is_public_ipv4}
use bloom_workspaces.Egress.Ipv4.Octets.{
  IsDotted, dotted, of_octets, ipv4_to_number-dotted, ipv4_to_number_sound,
}
use bloom_workspaces.Egress.Ipv4.Reserved.{IsPublicOctets, is_public_ipv4_iff}
use bloom_workspaces.Egress.Ipv6.{ipv6_to_big_int, ipv6_cidr_contains, is_public_ipv6}
use bloom_workspaces.Egress.Ipv6.Prefixes.{IsPublicNumber, is_public_ipv6_iff}
use bloom_workspaces.Egress.Ipv6.Leading.{is_public_ipv6-colons}
use bloom_workspaces.Egress.Hostname.{
  HostPattern, host_matches, normalize_hostname, without_final_dot,
}
use bloom_workspaces.Egress.Hostname.Matching.{
  IsHostname, IsAdmitted, normalize_hostname-IsHostname, normalize_hostname_iff, host_matches_iff,
}
use bloom_workspaces.Egress.Policy.{
  EgressPolicy, ResolvedAddress, ApprovedDestination, connect, approve, is_public_address,
  validate_port, safe_answer,
}
use bloom_workspaces.Egress.Policy.Approval.{IsApproved, approve-IsApproved, unsafe_answer_refused}
use bloom_workspaces.Egress.Authority.{ProxyAuthority, parse_proxy_authority}
use bloom_workspaces.Egress.Authority.Parsing.{IsAuthority, parse_proxy_authority-IsAuthority}
use bloom_workspaces.Egress.Tls.{
  validate_client_hello, extensions_of, read_extensions, next_sni, parse_single_server_name,
  require_bytes,
}
use bloom_workspaces.Egress.Tls.Names.{NamedOnce}
use bloom_workspaces.Egress.Tls.Acceptance.{validate_client_hello_iff}
use bloom_workspaces.Egress.Tls.Rounds.{inspect_records-enough_fuel}
use bloom_workspaces.Egress.Tls.Inspections.{Records, IsMessage, inspect_tls_client_hello-IsMessage}
use bloom_workspaces.Egress.Tls.Records.{
  record_length, check_handshake, inspect_records, inspect_tls_client_hello,
}
use bloom_workspaces.Egress.Tunnels.{
  create_connect_options, TunnelLimits, Credentials, Tunnel, TunnelEvent, resolved, client_data,
  upstream_connected, begin_connect, run, on_tunnel_event, on_tunnel_event_at, on_approving,
  on_greeting, on_connecting, on_piping, meter, more_hello, approval_given, receive_client_hello,
  inspected, begin_checked, begin_authority, reject_proxy_credentials,
}
use bloom_workspaces.Egress.Tunnels.Connections.{IsConnected, run_connect-IsConnected}

ipv6_runs :
    (ipv6_to_big_int (codes "::1") ≡ some 1)
    × (ipv6_to_big_int (codes "2001:DB8::8:800:200c:417a")
        ≡ some 0x20010db80000000000080800200c417a)
    × (ipv6_to_big_int (codes "::ffff:10.0.0.1") ≡ some 0xffff0a000001)
    × (ipv6_to_big_int (codes "1:2:3") ≡ none)
    × (ipv6_to_big_int (codes "1::2::3") ≡ none)
    × (is_public_ipv6 (codes "2606:4700:4700::1111") ≡ true)
    × (is_public_ipv6 (codes "2001:db8::1") ≡ false)
    × (is_public_ipv6 (codes "fe80::1") ≡ false)
unfolding ipv6_to_big_int is_public_ipv6 ipv6_cidr_contains ipv4_to_number
ipv6_runs = (refl, refl, refl, refl, refl, refl, refl, refl)

ipv4_runs :
    (ipv4_to_number (codes "10.1.2.3") ≡ some 167838211)
    × (is_public_ipv4 (codes "10.1.2.3") ≡ false)
    × (is_public_ipv4 (codes "8.8.8.8") ≡ true)
    × (is_public_ipv4 (codes "08.8.8.8") ≡ false)
    × (is_public_ipv4 (codes "8.8.8.256") ≡ false)
unfolding ipv4_to_number is_public_ipv4
ipv4_runs = (refl, refl, refl, refl, refl)

ipv4_to_number-dotted_example : ipv4_to_number (dotted 192 168 0 1) ≡ some (of_octets 192 168 0 1)
ipv4_to_number-dotted_example =
    ipv4_to_number-dotted 192 168 0 1 (omega arith) (omega arith) (omega arith) (omega arith)

ipv4_to_number_sound_example : IsDotted (codes "10.1.2.3") 167838211
unfolding ipv4_to_number
ipv4_to_number_sound_example = ipv4_to_number_sound (codes "10.1.2.3") 167838211 refl

is_public_ipv4_iff_example :
    (is_public_ipv4 (codes "8.8.8.8") ≡ true) ↔ IsPublicOctets (codes "8.8.8.8")
is_public_ipv4_iff_example = is_public_ipv4_iff (codes "8.8.8.8")

is_public_ipv6_iff_example :
    (is_public_ipv6 (codes "2606:4700::1") ≡ true) ↔ IsPublicNumber (codes "2606:4700::1")
is_public_ipv6_iff_example = is_public_ipv6_iff (codes "2606:4700::1")

is_public_ipv6-colons_example : is_public_ipv6 (codes "::ffff:8.8.8.8") ≡ false
is_public_ipv6-colons_example = is_public_ipv6-colons (codes "ffff:8.8.8.8")

-- Names that are ASCII already, and an address test that suffices for the names below.
abbrev as_is : Text → Text
as_is t = t

abbrev dotted_only : Text → ℕ
dotted_only t = if all (λ c. is_digit c || c == b'.') t then 4 else 0

normalize_hostname_iff_example :
    (normalize_hostname as_is (codes "API.Example.com.") ≡ ok (codes "api.example.com")) ↔ (
      (codes "api.example.com" ≡ map lower (as_is (without_final_dot (codes "API.Example.com."))))
      × IsHostname (codes "api.example.com"))
normalize_hostname_iff_example =
    normalize_hostname_iff as_is (codes "API.Example.com.") (codes "api.example.com")

abbrev wide : HostPattern
wide = record { hostname = codes "example.com"; include_subdomains = true }

host_matches_iff_example :
    (host_matches (codes "api.example.com") wide ≡ true) ↔ IsAdmitted (codes "api.example.com") wide
unfolding normalize_hostname
host_matches_iff_example =
    host_matches_iff (codes "api.example.com") wide
      (normalize_hostname-IsHostname as_is (codes "api.example.com") (codes "api.example.com") refl)

abbrev policy : EgressPolicy
policy = record {
  host_patterns = wide ∷ [];
  http_ports = 80 ∷ [];
  connect_ports = 443 ∷ [];
  dns_timeout_ms = 5000;
}

abbrev public_answer : ResolvedAddress
public_answer = record { address = codes "8.8.8.8"; family = 4 }

abbrev private_answer : ResolvedAddress
private_answer = record { address = codes "10.0.0.1"; family = 4 }

abbrev destination : ApprovedDestination
destination = record {
  hostname = codes "api.example.com";
  port = 443;
  protocol = connect;
  address = codes "8.8.8.8";
  family = 4;
}

abbrev public_lookup : Text → Option (List ResolvedAddress)
public_lookup hostname = some (public_answer ∷ [])

abbrev rebound_lookup : Text → Option (List ResolvedAddress)
rebound_lookup hostname = some (public_answer ∷ private_answer ∷ [])

approve-IsApproved_example :
    IsApproved as_is dotted_only public_lookup policy
      (codes "api.example.com")
      443
      connect
      destination
unfolding approve safe_answer normalize_hostname host_matches validate_port is_public_address
    is_public_ipv4 ipv4_to_number
approve-IsApproved_example =
    approve-IsApproved as_is dotted_only public_lookup policy (codes "api.example.com") 443 connect
      destination refl

unsafe_answer_refused_example :
    approve as_is dotted_only rebound_lookup policy (codes "api.example.com") 443 connect
    ≡ err address_forbidden
unfolding normalize_hostname host_matches is_public_address is_public_ipv4 ipv4_to_number
unsafe_answer_refused_example =
    unsafe_answer_refused as_is dotted_only rebound_lookup policy (codes "api.example.com") 443
      connect (codes "api.example.com") (public_answer ∷ []) [] private_answer refl refl refl
      (omega arith, omega arith) refl refl refl

abbrev authority : ProxyAuthority
authority = record { hostname = codes "api.example.com"; port = 443 }

parse_proxy_authority-IsAuthority_example :
    IsAuthority as_is dotted_only (codes "api.example.com:443") none authority
unfolding parse_proxy_authority normalize_hostname validate_port
parse_proxy_authority-IsAuthority_example =
    parse_proxy_authority-IsAuthority as_is dotted_only (codes "api.example.com:443") none authority
      refl

abbrev zero_bytes : ℕ → List ℕ
zero_bytes zero = []
zero_bytes (suc n) = 0 ∷ zero_bytes n

abbrev server_name : List ℕ
server_name = 0 ∷ 0 ∷ 0 ∷ 9 ∷ 0 ∷ 7 ∷ 0 ∷ 0 ∷ 4 ∷ codes "a.co"

-- A ClientHello with the one server name `a.co`.
abbrev hello : List ℕ
hello = 3 ∷ 3 ∷ (zero_bytes 32 ++ 0 ∷ 0 ∷ 2 ∷ 19 ∷ 1 ∷ 1 ∷ 0 ∷ 0 ∷ 13 ∷ server_name)

hello_runs : validate_client_hello as_is hello (codes "a.co") ≡ ok tt
unfolding validate_client_hello extensions_of read_extensions next_sni parse_single_server_name
    require_bytes normalize_hostname
hello_runs = refl

validate_client_hello_iff_example : (validate_client_hello as_is hello (codes "a.co") ≡ ok tt) ↔ (
    (extensions : List ℕ) × (extensions_of as_is hello ≡ ok extensions)
    × NamedOnce as_is (codes "a.co") extensions)
validate_client_hello_iff_example = validate_client_hello_iff as_is hello (codes "a.co")

-- The ClientHello in one handshake message of 56 bytes and one record of 60.
abbrev record_bytes : List ℕ
record_bytes = 22 ∷ 3 ∷ 1 ∷ 0 ∷ 60 ∷ 1 ∷ 0 ∷ 0 ∷ 56 ∷ hello

inspect_tls_client_hello-IsMessage_example :
    (65 ≤ 65_536)
    × (expected : Text) × (wire : List ℕ) × (rest : List ℕ) × (handshake : List ℕ)
    × (normalize_hostname as_is (codes "A.co") ≡ ok expected)
    × (record_bytes ≡ wire ++ rest)
    × (length wire ≡ 65)
    × Records wire handshake
    × IsMessage as_is expected handshake
unfolding inspect_tls_client_hello inspect_records record_length check_handshake
    validate_client_hello extensions_of read_extensions next_sni parse_single_server_name
    require_bytes normalize_hostname
inspect_tls_client_hello-IsMessage_example =
    inspect_tls_client_hello-IsMessage as_is record_bytes (codes "A.co") 65_536 65 refl

-- A ClientHello with the one server name `api.example.com`.
abbrev api_hello : List ℕ
api_hello =
    3
    ∷ 3
    ∷ (zero_bytes 32
        ++ 0
          ∷ 0
          ∷ 2
          ∷ 19
          ∷ 1
          ∷ 1
          ∷ 0
          ∷ 0
          ∷ 24
          ∷ 0
          ∷ 0
          ∷ 0
          ∷ 20
          ∷ 0
          ∷ 18
          ∷ 0
          ∷ 0
          ∷ 15
          ∷ codes "api.example.com")

abbrev api_record : List ℕ
api_record = 22 ∷ 3 ∷ 1 ∷ 0 ∷ 71 ∷ 1 ∷ 0 ∷ 0 ∷ 67 ∷ api_hello

abbrev no_credentials : Credentials
no_credentials = record { proxy_authorization = none; authorization = none; cookie = none }

abbrev tunnel_limits : TunnelLimits
tunnel_limits = record { max_bytes = 300; max_client_hello_bytes = none }

-- The ClientHello comes after the head of the request, and then some data.
abbrev tunnel_events : List TunnelEvent
tunnel_events =
    resolved public_lookup
    ∷ client_data api_record
    ∷ upstream_connected
    ∷ client_data (1 ∷ 2 ∷ [])
    ∷ []

abbrev tunnel : Tunnel
tunnel =
    run as_is dotted_only policy tunnel_limits []
      (begin_connect as_is dotted_only policy tunnel_limits no_credentials
        (codes "api.example.com:443"))
      tunnel_events

tunnel_runs :
    (tunnel.upstream ≡ some (create_connect_options destination))
    × (tunnel.to_upstream ≡ api_record ++ 1 ∷ 2 ∷ [])
unfolding run on_tunnel_event on_tunnel_event_at on_approving on_greeting on_connecting on_piping
    meter more_hello approval_given receive_client_hello inspected begin_connect begin_checked
    begin_authority reject_proxy_credentials parse_proxy_authority approve safe_answer
    normalize_hostname host_matches validate_port is_public_address is_public_ipv4 ipv4_to_number
    inspect_tls_client_hello inspect_records record_length check_handshake validate_client_hello
    extensions_of read_extensions next_sni parse_single_server_name require_bytes
tunnel_runs = (refl, refl)

run_connect-IsConnected_example :
    IsConnected as_is dotted_only policy tunnel_limits [] (codes "api.example.com:443") tunnel
    × (length tunnel.to_upstream + length tunnel.to_client ≤ 300)
run_connect-IsConnected_example =
    run_connect-IsConnected as_is dotted_only policy tunnel_limits [] no_credentials
      (codes "api.example.com:443") tunnel_events

inspect_records-enough_fuel_example :
    inspect_records as_is 66 65_536 (codes "a.co") record_bytes 0 []
    ≡ inspect_records as_is 100 65_536 (codes "a.co") record_bytes 0 []
inspect_records-enough_fuel_example =
    inspect_records-enough_fuel as_is 66 100 65_536 (codes "a.co") record_bytes 0 [] (omega arith)
      (omega arith)
