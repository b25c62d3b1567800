-- ===== src/Ssh/Leases/Grants.antt =====
-- Granting a lease: the constructor, `validateEndpoint` and `issue` of src/ssh/lease-manager.ts.
-- `validAfter` is five seconds before the clock, which stands past the first five seconds of 1970.
use bloom_workspaces.Base.{
  ℕ, ◌+◌, ◌-◌, min, Bool, ◌&&◌, ◌||◌, not, Option, [], ◌∷◌, ◌++◌, ltb, leb, ◌==◌, Text, codes,
  text_eq, includes, starts_with, Result, ok, ◌>>=◌, ◌>>◌, throw_if, or_throw, get_or_else,
}
use bloom_workspaces.Ssh.Contracts.{
  SshError, endpoint_not_private, invalid_socket_path, socket_escapes, workspace_lease_expired,
  invalid_requested_lease, lease_too_close, signer_failed, wrong_scope, root_not_absolute,
  invalid_maximum_lease, invalid_connection_limit, max_ssh_lease_ms, default_ssh_lease_ms, mode_eq,
  assert_port, normalize_workspace_id, normalize_wallet, workspace_principal,
}
use bloom_workspaces.Ssh.Leases.Defs.{
  PrivateSshEndpoint, unix, tcp, SshLeaseRequest, CertificateSpec, SignedCertificate, LeaseRecord,
  SshLeaseGrant, ManagerOptions, Manager, revoke_where,
}
use bloom_workspaces.Ssh.Leases.Tunnels.{digest_token}

module _ (is_absolute : Text → Bool) (resolve : Text → Text) where
  -- The constructor's options; what is left out takes its default.
  unfoldable pub new_manager :
      (ca_key_path private_socket_root : Text)
      → Option ℕ
      → Option ℕ
      → Result SshError ManagerOptions
  new_manager ca_key_path private_socket_root max_lease max_per_lease = do
    throw_if (not (is_absolute private_socket_root)) root_not_absolute
    let max_lease_ms = get_or_else max_lease default_ssh_lease_ms
    throw_if (ltb max_lease_ms 5000 || ltb max_ssh_lease_ms max_lease_ms) invalid_maximum_lease
    let max_connections = get_or_else max_per_lease 2
    throw_if (ltb max_connections 1 || ltb 8 max_connections) invalid_connection_limit
    ok (record {
      ca_key_path = ca_key_path;
      socket_root = resolve private_socket_root;
      max_lease_ms = max_lease_ms;
      max_connections = max_connections;
    })

  unfoldable pub validate_endpoint : Text → PrivateSshEndpoint → Result SshError PrivateSshEndpoint
  validate_endpoint socket_root (tcp host port) = do
    checked ← assert_port port
    throw_if (not (text_eq host (codes "127.0.0.1")) && not (text_eq host (codes "::1")))
        endpoint_not_private
    ok (tcp host port)
  validate_endpoint socket_root (unix path) = do
    throw_if (not (is_absolute path) || includes 0 path || includes 10 path || includes 13 path)
        invalid_socket_path
    throw_if (not (starts_with (socket_root ++ codes "/") (resolve path))) socket_escapes
    ok (unix (resolve path))

-- What `issue` does to the map once the signer has answered: a lease of the same workspace and
-- mode is replaced.
unfoldable pub install : Manager → LeaseRecord → Manager
install m lease =
    let m' =
      revoke_where
        (λ l. text_eq l.workspace_id lease.workspace_id && mode_eq l.signed.mode lease.signed.mode)
        m in
    record m' { leases = m'.leases ++ lease ∷ [] }

module _ (sha256 sha256_hex : Text → Text) (is_absolute : Text → Bool) (resolve : Text → Text)
    (signer : CertificateSpec → Option SignedCertificate) where
  -- The certificate that is asked for, and the endpoint, once the request has passed its checks.
  unfoldable pub request_spec :
      ManagerOptions → ℕ → SshLeaseRequest → Result SshError (CertificateSpec × PrivateSshEndpoint)
  request_spec options now request = do
    workspace_id ← normalize_workspace_id request.workspace_id
    wallet ← normalize_wallet request.wallet
    endpoint ← validate_endpoint is_absolute resolve options.socket_root request.endpoint
    throw_if (leb request.workspace_lease_expires_at (now + 1000)) workspace_lease_expired
    let requested = get_or_else request.requested_ttl_ms options.max_lease_ms
    throw_if (ltb requested 5000 || ltb options.max_lease_ms requested) invalid_requested_lease
    let valid_before = min request.workspace_lease_expires_at (now + requested)
    throw_if (leb valid_before (now + 1000)) lease_too_close
    ok (
      record {
        ca_key_path = options.ca_key_path;
        public_key = request.public_key;
        workspace_id = workspace_id;
        wallet = wallet;
        mode = request.mode;
        valid_after = now - 5000;
        valid_before = valid_before;
      },
      endpoint,
    )

  abbrev pub out_of_scope : CertificateSpec → Text → SignedCertificate → Bool
  out_of_scope spec principal signed =
      not (text_eq signed.principal principal)
      || not (mode_eq signed.mode spec.mode)
      || not (signed.valid_after == spec.valid_after)
      || not (signed.valid_before == spec.valid_before)

  unfoldable pub signed_spec : CertificateSpec → Result SshError SignedCertificate
  signed_spec spec = do
    signed ← or_throw (signer spec) signer_failed
    principal ← workspace_principal sha256_hex spec.workspace_id spec.wallet spec.mode
    throw_if (out_of_scope spec principal signed) wrong_scope
    ok signed

  abbrev pub new_lease :
      CertificateSpec → PrivateSshEndpoint → SignedCertificate → (id token : Text) → LeaseRecord
  new_lease spec endpoint signed id token = record {
    signed = signed;
    lease_id = id;
    workspace_id = spec.workspace_id;
    wallet = spec.wallet;
    endpoint = endpoint;
    token_hash = digest_token sha256 token;
    active = [];
    pending = 0;
  }

  abbrev pub grant_of : SignedCertificate → (id token : Text) → SshLeaseGrant
  grant_of signed id token = record {
    lease_id = id;
    access_token = token;
    certificate = signed.certificate;
    fingerprint = signed.fingerprint;
    principal = signed.principal;
    valid_after = signed.valid_after;
    valid_before = signed.valid_before;
    mode = signed.mode;
  }

  -- `issue`; `now` is the clock when it is called, `id` and `token` are drawn at random.
  unfoldable pub issue :
      ManagerOptions
      → Manager
      → ℕ
      → SshLeaseRequest
      → (id token : Text) → Result SshError (Manager × SshLeaseGrant)
  unfolding request_spec signed_spec install
  issue options m now request id token = do
    (spec, endpoint) ← request_spec options now request
    signed ← signed_spec spec
    ok (install m (new_lease spec endpoint signed id token), grant_of signed id token)
