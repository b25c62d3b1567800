-- ===== src/Ssh/Leases/Defs.antt =====
-- The state and the operations of src/ssh/lease-manager.ts.
use bloom_workspaces.Base.{
  ℕ, Bool, true, not, Option, none, some, List, [], ◌∷◌, ◌++◌, map, leb, if◌then◌else◌, Text,
  text_eq, filter_by, find, Result, ok, ◌>>=◌, ◌>>◌, throw_if, or_throw,
}
use bloom_workspaces.Ssh.Contracts.{
  SshError, lease_not_found, SshAccessMode, normalize_workspace_id, normalize_wallet,
}

pub data PrivateSshEndpoint : Type 0 where
  unix : Text → PrivateSshEndpoint
  tcp : Text → ℕ → PrivateSshEndpoint

pub record SshLeaseRequest : Type 0 where
  pub workspace_id : Text
  pub wallet : Text
  pub public_key : Text
  pub mode : SshAccessMode
  pub workspace_lease_expires_at : ℕ
  pub requested_ttl_ms : Option ℕ
  pub endpoint : PrivateSshEndpoint

pub record CertificateSpec : Type 0 where
  pub ca_key_path : Text
  pub public_key : Text
  pub workspace_id : Text
  pub wallet : Text
  pub mode : SshAccessMode
  pub valid_after : ℕ
  pub valid_before : ℕ

pub record SignedCertificate : Type 0 where
  pub certificate : Text
  pub fingerprint : Text
  pub principal : Text
  pub serial : Text
  pub valid_after : ℕ
  pub valid_before : ℕ
  pub mode : SshAccessMode

pub record SshTunnelRequest : Type 0 where
  pub lease_id : Text
  pub workspace_id : Text
  pub wallet : Text
  pub mode : SshAccessMode
  pub access_token : Text

pub record LeaseRecord : Type 0 where
  pub signed : SignedCertificate
  pub lease_id : Text
  pub workspace_id : Text
  pub wallet : Text
  pub endpoint : PrivateSshEndpoint
  pub token_hash : Text
  pub active : List ℕ
  pub pending : ℕ

pub record SshLeaseGrant : Type 0 where
  pub lease_id : Text
  pub access_token : Text
  pub certificate : Text
  pub fingerprint : Text
  pub principal : Text
  pub valid_after : ℕ
  pub valid_before : ℕ
  pub mode : SshAccessMode

-- The fields that the constructor fixes.
pub record ManagerOptions : Type 0 where
  pub ca_key_path : Text
  pub socket_root : Text
  pub max_lease_ms : ℕ
  pub max_connections : ℕ

pub record Manager : Type 0 where
  pub leases : List LeaseRecord
  pub destroyed : List ℕ

-- `this.leases.get(leaseId)`.
unfoldable pub find_lease : Text → List LeaseRecord → Option LeaseRecord
find_lease id = find (λ l. text_eq l.lease_id id)

unfoldable pub remove_lease : Text → List LeaseRecord → List LeaseRecord
remove_lease id = filter_by (λ l. not (text_eq l.lease_id id))

unfoldable pub update_lease :
    Text → (LeaseRecord → LeaseRecord) → List LeaseRecord → List LeaseRecord
update_lease id f = map (λ l. if text_eq l.lease_id id then f l else l)

-- `revokeTrusted`. The record's timer goes with the record.
unfoldable pub revoke_trusted : Manager → Text → Manager
revoke_trusted m id = elim (find_lease id m.leases) [
  | none ↦ m
  | some lease ↦ record {
    leases = remove_lease id m.leases;
    destroyed = lease.active ++ m.destroyed;
  }
]

-- `for (const lease of this.leases.values()) if (test(lease)) this.revokeTrusted(lease.leaseId, …)`.
unfoldable pub revoke_each : (LeaseRecord → Bool) → List LeaseRecord → Manager → Manager
revoke_each test [] m = m
revoke_each test (lease ∷ leases) m =
    revoke_each test leases (if test lease then revoke_trusted m lease.lease_id else m)

unfoldable pub revoke_where : (LeaseRecord → Bool) → Manager → Manager
unfolding revoke_each
revoke_where test m = revoke_each test m.leases m

unfoldable pub revoke : Manager → (lease_id workspace_id wallet : Text) → Result SshError Manager
revoke m lease_id workspace_id wallet = do
  lease ← or_throw (find_lease lease_id m.leases) lease_not_found
  id ← normalize_workspace_id workspace_id
  throw_if (not (text_eq lease.workspace_id id)) lease_not_found
  owner ← normalize_wallet wallet
  throw_if (not (text_eq lease.wallet owner)) lease_not_found
  ok (revoke_trusted m lease.lease_id)

unfoldable pub revoke_workspace : Manager → Text → Result SshError Manager
revoke_workspace m workspace_id = do
  id ← normalize_workspace_id workspace_id
  ok (revoke_where (λ l. text_eq l.workspace_id id) m)

unfoldable pub sweep_expired : Manager → ℕ → Manager
sweep_expired m now = revoke_where (λ l. leb l.signed.valid_before now) m

unfoldable pub stop : Manager → Manager
stop m = revoke_where (λ l. true) m
