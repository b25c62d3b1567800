-- ===== src/Ssh/Leases/Steps.antt =====
-- Every interleaving of the calls of src/ssh/lease-manager.ts. A tunnel that waits for its connector
-- is an entry of `opening`, the id of its lease; each entry ends by one `finish_tunnel`.
use bloom_workspaces.Base.{
  ℕ, ◌≡◌, Bool, Option, none, List, [], ◌∷◌, ◌++◌, Text, text_eq, suc, if◌then◌else◌, Result, ok,
  err,
}
use bloom_workspaces.Ssh.Contracts.{SshError}
use bloom_workspaces.Ssh.Leases.Defs.{
  SshLeaseRequest, CertificateSpec, SignedCertificate, SshTunnelRequest, LeaseRecord, SshLeaseGrant,
  ManagerOptions, Manager, find_lease, revoke_trusted, revoke, revoke_workspace, sweep_expired,
  stop,
}
use bloom_workspaces.Ssh.Leases.Tunnels.{begin_tunnel, finish_tunnel, close_stream}
use bloom_workspaces.Ssh.Leases.Grants.{issue}

pub record System : Type 0 where
  pub manager : Manager
  pub opening : List Text

-- How many tunnels of a lease wait for their connector.
abbrev pub waiting : Text → List Text → ℕ
waiting id [] = 0
waiting id (ticket ∷ tickets) =
    let rest = waiting id tickets in if text_eq ticket id then suc rest else rest

-- The tickets after `begin_tunnel`.
abbrev pub ticketed : Result SshError LeaseRecord → List Text → List Text
ticketed (ok lease) opening = lease.lease_id ∷ opening
ticketed (err e) opening = opening

module _ (sha256 sha256_hex : Text → Text) (is_absolute : Text → Bool) (resolve : Text → Text)
    (signer : CertificateSpec → Option SignedCertificate) (options : ManagerOptions) where
  pub data Step (s : System) : System → Type 0 where
    -- `randomUUID` draws an id that no lease has had.
    issued :
        (now : ℕ) (request : SshLeaseRequest) (id token : Text) (m : Manager) (g : SshLeaseGrant)
        → find_lease id s.manager.leases ≡ none
        → waiting id s.opening ≡ 0
        → issue sha256 sha256_hex is_absolute resolve signer options s.manager now request id token
          ≡ ok (m, g)
        → Step s (record { manager = m; opening = s.opening })
    begun :
        (now : ℕ) (request : SshTunnelRequest) (m : Manager) (r : Result SshError LeaseRecord)
        → begin_tunnel sha256 options.max_connections s.manager now request ≡ (m, r)
        → Step s (record { manager = m; opening = ticketed r s.opening })
    finished :
        (now : ℕ) (id : Text) (stream : Option ℕ) (before after : List Text) (m : Manager)
        (r : Result SshError ℕ)
        → s.opening ≡ before ++ id ∷ after
        → finish_tunnel s.manager now id stream ≡ (m, r)
        → Step s (record { manager = m; opening = before ++ after })
    closed :
        (id : Text) (stream : ℕ)
        → Step s (record { manager = close_stream s.manager id stream; opening = s.opening })
    revoked :
        (lease_id workspace_id wallet : Text) (m : Manager)
        → revoke s.manager lease_id workspace_id wallet ≡ ok m
        → Step s (record { manager = m; opening = s.opening })
    workspace_stopped :
        (workspace_id : Text) (m : Manager)
        → revoke_workspace s.manager workspace_id ≡ ok m
        → Step s (record { manager = m; opening = s.opening })
    swept :
        (now : ℕ) → Step s (record { manager = sweep_expired s.manager now; opening = s.opening })
    timed_out :
        (id : Text) → Step s (record { manager = revoke_trusted s.manager id; opening = s.opening })
    stopped : Step s (record { manager = stop s.manager; opening = s.opening })

  pub data Reach (s : System) : System → Type 0 where
    here : Reach s s
    next : {t u : System} → Reach s t → Step t u → Reach s u

-- The manager as the constructor leaves it.
abbrev pub initial : System
initial = record { manager = record { leases = []; destroyed = [] }; opening = [] }
