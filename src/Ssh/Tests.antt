-- ===== src/Ssh/Tests.antt =====
-- The theorems on SSH access (src/ssh/contracts.ts, src/ssh/lease-manager.ts) at concrete inputs.
-- Digests are the identity here, and the signer signs whatever it is asked for.
use bloom_workspaces.Base.{
  ℕ, ◌+◌, ◌≤◌, ◌<◌, ◌≡◌, ◌≢◌, refl, Bool, true, Option, none, some, [], ◌∷◌, ◌++◌, Text, codes, ok,
  All, Some, arith, map, lower, take, length, all, List,
}
use bloom_workspaces.Ssh.Contracts.{
  shell, normalize_workspace_id, normalize_wallet, is_workspace_id, is_wallet, workspace_principal,
  assert_port, principal_text,
}
use bloom_workspaces.Guest.Base64.{is_base64}
use bloom_workspaces.Ssh.PublicKey.{
  ParsedSshPublicKey, IsEd25519, read_string, decode_ed25519_blob, is_ed25519, encoded_field,
  blank_fields, algorithm_name, parsed_key, parse_field, parse_ssh_public_key,
  parse_ssh_public_key-IsEd25519,
}
use bloom_workspaces.Ssh.ClientPlan.{
  Url, SshClientPlanInput, proxy_command_text, argv_text, create_ssh_client_argv,
  normalize_https_origin, is_plain_url, is_https_origin, safe_proxy_path, is_posix_proxy_path,
  is_windows_proxy_path, local_path,
}
use bloom_workspaces.Ssh.ClientPlan.Quoting.{is_quiet, IsLine, create_ssh_client_argv-IsQuiet}
use bloom_workspaces.Ssh.Contracts.Principals.{workspace_principal-injective}
use bloom_workspaces.Ssh.Leases.Defs.{
  PrivateSshEndpoint, tcp, CertificateSpec, SignedCertificate, SshLeaseRequest, SshLeaseGrant,
  SshTunnelRequest, LeaseRecord, ManagerOptions, Manager, find_lease, revoke_where,
  revoke_workspace, update_lease, revoke_each, revoke_trusted, remove_lease,
}
use bloom_workspaces.Ssh.Leases.Tunnels.{
  digest_token, check_scope, authorize, begin_tunnel, finish_tunnel, reserve, settle, add_stream,
  unreserve,
}
use bloom_workspaces.Ssh.Leases.Grants.{
  validate_endpoint, issue, install, request_spec, signed_spec,
}
use bloom_workspaces.Ssh.Leases.Steps.{System, here, next, issued, begun, finished}
use bloom_workspaces.Ssh.Leases.Invariant.{IsSound}
use bloom_workspaces.Ssh.Leases.Soundness.{Reach-IsSound}
use bloom_workspaces.Ssh.Leases.Admission.{begin_tunnel-admits}
use bloom_workspaces.Ssh.Leases.Issuing.{IsLeaseFor, issue-IsScoped, issue-begin_tunnel}
use bloom_workspaces.Ssh.Leases.Revocation.{revoke_workspace-clears}

abbrev as_is : Text → Text
as_is t = t

abbrev always : Text → Bool
always t = true

abbrev workspace : Text
workspace = codes "0b9c1d2e-3f40-4a51-8b62-c73d84e95fa6"

abbrev owner : Text
owner = codes "0x00112233445566778899aabbccddeeff00112233"

abbrev principal : Text
principal = principal_text as_is workspace owner shell

abbrev signer : CertificateSpec → Option SignedCertificate
signer spec = some (record {
  certificate = codes "cert";
  fingerprint = codes "print";
  principal = principal_text as_is spec.workspace_id spec.wallet spec.mode;
  serial = codes "1";
  valid_after = spec.valid_after;
  valid_before = spec.valid_before;
  mode = spec.mode;
})

abbrev options : ManagerOptions
options = record {
  ca_key_path = codes "/ca";
  socket_root = codes "/run";
  max_lease_ms = 60_000;
  max_connections = 2;
}

abbrev endpoint : PrivateSshEndpoint
endpoint = tcp (codes "127.0.0.1") 22

abbrev request : SshLeaseRequest
request = record {
  workspace_id = workspace;
  wallet = owner;
  public_key = codes "key";
  mode = shell;
  workspace_lease_expires_at = 1_000_000;
  requested_ttl_ms = none;
  endpoint = endpoint;
}

abbrev token : Text
token = codes "0123456789abcdef0123456789abcdef"

abbrev signed : SignedCertificate
signed = record {
  certificate = codes "cert";
  fingerprint = codes "print";
  principal = principal;
  serial = codes "1";
  valid_after = 5_000;
  valid_before = 70_000;
  mode = shell;
}

abbrev lease : LeaseRecord
lease = record {
  signed = signed;
  lease_id = codes "a";
  workspace_id = workspace;
  wallet = owner;
  endpoint = endpoint;
  token_hash = token;
  active = [];
  pending = 0;
}

abbrev grant : SshLeaseGrant
grant = record {
  lease_id = codes "a";
  access_token = token;
  certificate = codes "cert";
  fingerprint = codes "print";
  principal = principal;
  valid_after = 5_000;
  valid_before = 70_000;
  mode = shell;
}

abbrev none_yet : Manager
none_yet = record { leases = []; destroyed = [] }

abbrev one_lease : Manager
one_lease = record { leases = lease ∷ []; destroyed = [] }

abbrev one_waiting : Manager
one_waiting = record { leases = record lease { pending = 1 } ∷ []; destroyed = [] }

abbrev one_stream : Manager
one_stream = record { leases = record lease { active = 7 ∷ [] } ∷ []; destroyed = [] }

abbrev tunnel : SshTunnelRequest
tunnel = record {
  lease_id = codes "a";
  workspace_id = workspace;
  wallet = owner;
  mode = shell;
  access_token = token;
}

issue_run :
    issue as_is as_is always as_is signer options none_yet 10_000 request (codes "a") token
    ≡ ok (one_lease, grant)
unfolding issue request_spec signed_spec install normalize_workspace_id normalize_wallet
    is_workspace_id is_wallet workspace_principal principal_text validate_endpoint assert_port
    digest_token revoke_where revoke_each
issue_run = refl

begin_tunnel_run : begin_tunnel as_is 2 one_lease 20_000 tunnel ≡ (one_waiting, ok lease)
unfolding begin_tunnel authorize reserve check_scope normalize_workspace_id normalize_wallet
    is_workspace_id is_wallet digest_token find_lease update_lease
begin_tunnel_run = refl

finish_tunnel_run : finish_tunnel one_waiting 21_000 (codes "a") (some 7) ≡ (one_stream, ok 7)
unfolding finish_tunnel unreserve settle add_stream find_lease update_lease
finish_tunnel_run = refl

abbrev opened : System
opened = record { manager = one_stream; opening = [] }

Reach-IsSound_example : IsSound 2 opened
unfolding find_lease
Reach-IsSound_example = Reach-IsSound as_is as_is always as_is signer options opened (
    next
      (next
        (next here (issued 10_000 request (codes "a") token one_lease grant refl refl issue_run))
        (begun 20_000 tunnel one_waiting (ok lease) begin_tunnel_run))
      (finished 21_000 (codes "a") (some 7) [] [] one_stream (ok 7) refl finish_tunnel_run))

issue-IsScoped_example :
    (kept : List LeaseRecord) × (l : LeaseRecord) × (one_lease.leases ≡ kept ++ l ∷ [])
    × IsLeaseFor as_is as_is always as_is signer options workspace owner request grant l
    × (grant.lease_id ≡ codes "a")
    × (grant.access_token ≡ token)
    × (workspace_principal as_is workspace owner shell ≡ ok grant.principal)
    × (grant.mode ≡ shell)
    × (10_000 + 1000 < grant.valid_before)
    × (grant.valid_before ≤ 1_000_000)
    × (grant.valid_before ≤ 10_000 + 60_000)
    × All
        (λ l. l.workspace_id ≡ workspace → l.signed.mode ≡ shell → l.lease_id ≡ codes "a")
        one_lease.leases
unfolding normalize_workspace_id normalize_wallet is_workspace_id is_wallet
issue-IsScoped_example =
    issue-IsScoped as_is as_is always as_is signer options none_yet one_lease 10_000 request
      (codes "a") token workspace owner grant refl refl issue_run

issue-begin_tunnel_example :
    (l : LeaseRecord) × ((begin_tunnel as_is 2 one_lease 69_999 tunnel).1 ≡ ok l)
    × (validate_endpoint always as_is (codes "/run") endpoint ≡ ok l.endpoint)
unfolding find_lease
issue-begin_tunnel_example =
    issue-begin_tunnel as_is as_is always as_is signer options none_yet one_lease one_lease 10_000
      69_999 request (codes "a") token grant refl (omega arith) issue_run (omega arith) refl

begin_tunnel-admits_example :
    (find_lease (codes "a") one_lease.leases ≡ some lease)
    × (20_000 < lease.signed.valid_before)
    × (length lease.active + lease.pending < 2)
    × (normalize_workspace_id workspace ≡ ok lease.workspace_id)
    × (normalize_wallet owner ≡ ok lease.wallet)
    × (shell ≡ lease.signed.mode)
    × (digest_token as_is token ≡ lease.token_hash)
begin_tunnel-admits_example =
    begin_tunnel-admits as_is 2 one_lease one_waiting 20_000 tunnel lease begin_tunnel_run

abbrev after_stop : Manager
after_stop = record { leases = []; destroyed = 7 ∷ [] }

revoke_workspace-clears_example :
    All (λ l. l.workspace_id ≢ workspace) after_stop.leases
    × ((l : LeaseRecord) (stream : ℕ)
        → find_lease l.lease_id one_stream.leases ≡ some l
        → l.workspace_id ≡ workspace
        → Some (λ x. x ≡ stream) l.active
        → Some (λ x. x ≡ stream) after_stop.destroyed)
unfolding revoke_workspace revoke_where revoke_each revoke_trusted find_lease remove_lease
    normalize_workspace_id is_workspace_id
revoke_workspace-clears_example =
    revoke_workspace-clears one_stream after_stop workspace workspace refl refl

workspace_principal-injective_example :
    (shell ≡ shell)
    × (map lower workspace ≡ map lower workspace)
    × (take 32 (map lower owner) ≡ take 32 (map lower owner))
unfolding workspace_principal normalize_workspace_id normalize_wallet is_workspace_id is_wallet
workspace_principal-injective_example =
    workspace_principal-injective as_is workspace workspace owner owner shell shell principal refl
      refl

-- A URL whose origin is the whole text.
abbrev url_of : Text → Option Url
url_of value = some (record {
  protocol = codes "https:";
  username = [];
  password = [];
  pathname = codes "/";
  search = [];
  hash = [];
  origin = value;
})

abbrev plan_input : SshClientPlanInput
plan_input = record {
  gateway_origin = codes "https://ssh.bloom.example:8443";
  workspace_id = codes "0f8fad5b-d9cb-469f-a165-70867728950e";
  lease_id = codes "7c9e6679-7425-40de-944b-e07fc1f90ae7";
  mode = shell;
  proxy_helper_path = codes "/opt/bloom/proxy";
  token_file_path = codes "/tmp/t";
  private_key_path = codes "/k";
  certificate_path = codes "/c";
  known_hosts_path = codes "/h";
}

abbrev planned_command : Text
planned_command =
    proxy_command_text (codes "/opt/bloom/proxy") (codes "https://ssh.bloom.example:8443")
      (codes "0f8fad5b-d9cb-469f-a165-70867728950e") (codes "7c9e6679-7425-40de-944b-e07fc1f90ae7")
      shell (codes "/tmp/t")

abbrev planned : List Text
planned =
    argv_text planned_command (codes "/k") (codes "/c") (codes "/h")
      (codes "0f8fad5b-d9cb-469f-a165-70867728950e")

create_ssh_client_argv-IsQuiet_example :
    (command : Text) × (id : Text) × (planned
      ≡ argv_text command (codes "/k") (codes "/c") (codes "/h") id)
    × (all is_quiet command ≡ true)
    × All IsLine (codes "/k" ∷ codes "/c" ∷ codes "/h" ∷ [])
unfolding create_ssh_client_argv normalize_workspace_id is_workspace_id normalize_https_origin
    is_plain_url is_https_origin safe_proxy_path is_posix_proxy_path is_windows_proxy_path
    local_path
create_ssh_client_argv-IsQuiet_example =
    create_ssh_client_argv-IsQuiet url_of plan_input planned refl

abbrev filled_key : List ℕ
filled_key =
    (0 ∷ 0 ∷ 0 ∷ 11 ∷ [])
    ++ (algorithm_name ++ ((0 ∷ 0 ∷ 0 ∷ 32 ∷ []) ++ codes "aaaaaaaaaaaaaaaaaaaaaaaaaaaaaaaa"))

abbrev filled_key_text : Text
filled_key_text = codes "AAAAC3NzaC1lZDI1NTE5AAAAIGFhYWFhYWFhYWFhYWFhYWFhYWFhYWFhYWFhYWFhYWFh"

abbrev filled_key_parsed : ParsedSshPublicKey
filled_key_parsed = record {
  encoded = filled_key_text;
  normalized = codes "ssh-ed25519 " ++ filled_key_text;
  fingerprint = codes "SHA256:digest";
}

parse_ssh_public_key-IsEd25519_example : (filled_key_text ≡ filled_key_text) × IsEd25519 filled_key
unfolding parse_ssh_public_key parse_field parsed_key encoded_field blank_fields decode_ed25519_blob
    read_string is_ed25519 is_base64
parse_ssh_public_key-IsEd25519_example =
    parse_ssh_public_key-IsEd25519 (λ s. s) length (λ _. filled_key) (λ _. filled_key_text)
      (λ _. codes "digest") (codes "ssh-ed25519  " ++ filled_key_text ++ codes " ada@host")
      filled_key_parsed refl
