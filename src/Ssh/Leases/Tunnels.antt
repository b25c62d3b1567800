-- ===== src/Ssh/Leases/Tunnels.antt =====
-- Opening a tunnel: `authorize` and `openTunnel` of src/ssh/lease-manager.ts.
use bloom_workspaces.Base.{
  ℕ, zero, suc, ◌+◌, ◌-◌, Bool, ◌&&◌, ◌||◌, not, Option, none, some, [], ◌∷◌, leb, ◌==◌,
  if◌then◌else◌, Text, text_eq, all, is_digit, is_lower, filter_by, length, Result, ok, err, ◌>>=◌,
  ◌>>◌, throw_if,
}
use bloom_workspaces.Ssh.Contracts.{
  SshError, lease_expired_or_revoked, scope_mismatch, invalid_token, connection_limit,
  connection_failed, lease_expired, mode_eq, normalize_workspace_id, normalize_wallet,
}
use bloom_workspaces.Ssh.Leases.Defs.{
  SshTunnelRequest, LeaseRecord, Manager, find_lease, update_lease, revoke_trusted,
}

-- `/^[A-Za-z0-9_-]+$/`, and the bounds on the length.
abbrev is_token_char : ℕ → Bool
is_token_char c = is_lower c || leb b'A' c && leb c b'Z' || is_digit c || c == b'_' || c == b'-'

abbrev pub is_token : Text → Bool
is_token token = leb 32 (length token) && leb (length token) 256 && all is_token_char token

-- `Buffer.alloc(n)`.
abbrev pub zero_bytes : ℕ → Text
zero_bytes zero = []
zero_bytes (suc n) = 0 ∷ zero_bytes n

-- `lease.pending += 1`, within the limit.
unfoldable pub reserve :
    ℕ → Manager → Result SshError LeaseRecord → Manager × Result SshError LeaseRecord
reserve max_connections m (err e) = (m, err e)
reserve max_connections m (ok lease) =
    if leb max_connections (length lease.active + lease.pending)
    then (m, err connection_limit)
    else (
      record m {
        leases = update_lease lease.lease_id (λ l. record l { pending = l.pending + 1 }) m.leases;
      },
      ok lease,
    )

module _ (sha256 : Text → Text) where
  unfoldable pub digest_token : Text → Text
  digest_token token = if is_token token then sha256 token else zero_bytes 32

  -- The checks of a live lease against a request.
  unfoldable pub check_scope : SshTunnelRequest → LeaseRecord → Result SshError LeaseRecord
  check_scope request lease = do
    id ← normalize_workspace_id request.workspace_id
    throw_if (not (text_eq lease.workspace_id id)) scope_mismatch
    owner ← normalize_wallet request.wallet
    throw_if (not (text_eq lease.wallet owner)) scope_mismatch
    throw_if (not (mode_eq lease.signed.mode request.mode)) scope_mismatch
    throw_if (not (text_eq (digest_token request.access_token) lease.token_hash)) invalid_token
    ok lease

  -- `authorize`: an expired lease is revoked before the error is thrown.
  unfoldable pub authorize : Manager → ℕ → SshTunnelRequest → Manager × Result SshError LeaseRecord
  authorize m now request = elim (find_lease request.lease_id m.leases) [
    | none ↦ (m, err lease_expired_or_revoked)
    | some lease ↦
        if leb lease.signed.valid_before now
        then (revoke_trusted m lease.lease_id, err lease_expired_or_revoked)
        else (m, check_scope request lease)
  ]

  -- `openTunnel` up to its wait for the connector, which is called with the lease's endpoint.
  unfoldable pub begin_tunnel :
      ℕ → Manager → ℕ → SshTunnelRequest → Manager × Result SshError LeaseRecord
  unfolding reserve
  begin_tunnel max_connections m now request =
      let (m', authorized) = authorize m now request in reserve max_connections m' authorized

-- `lease.pending -= 1`; an object that left the map is not reached.
unfoldable pub unreserve : Manager → Text → Manager
unreserve m id = record m {
  leases = update_lease id (λ l. record l { pending = l.pending - 1 }) m.leases;
}

unfoldable pub add_stream : Manager → Text → ℕ → Manager
add_stream m id stream = record m {
  leases = update_lease id (λ l. record l { active = stream ∷ l.active }) m.leases;
}

-- The rest of `openTunnel`: the connector gave a stream or failed.
unfoldable pub settle : Manager → ℕ → Text → ℕ → Manager × Result SshError ℕ
unfolding add_stream
settle m now id stream = elim (find_lease id m.leases) [
  | none ↦ (record m { destroyed = stream ∷ m.destroyed }, err lease_expired)
  | some lease ↦
      if leb lease.signed.valid_before now
      then (record m { destroyed = stream ∷ m.destroyed }, err lease_expired)
      else (add_stream m id stream, ok stream)
]

unfoldable pub finish_tunnel : Manager → ℕ → Text → Option ℕ → Manager × Result SshError ℕ
unfolding unreserve settle
finish_tunnel m now id none = (unreserve m id, err connection_failed)
finish_tunnel m now id (some stream) = settle (unreserve m id) now id stream

-- A stream that closes, ends or fails leaves its lease's set.
unfoldable pub close_stream : Manager → Text → ℕ → Manager
close_stream m id stream = record m {
  leases =
      update_lease id (λ l. record l { active = filter_by (λ s. not (s == stream)) l.active })
        m.leases;
}
