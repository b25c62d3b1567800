-- ===== src/Capability.antt =====
-- src/capabilities.ts: which features a workspace advertises, from what its runtime provides.
-- A capability is a record of a status, a reason and, if it is available, a transport.
pub mod Negotiation
mod Tests
use Prim.Native.String.{String}
use bloom_workspaces.Base.{Bool, true, false, ◌&&◌, ◌||◌, Option, none, some, if◌then◌else◌}

pub data CapabilityStatus : Type 0 where
  available disabled unsupported : CapabilityStatus

pub data Transport : Type 0 where
  websocket https guest_control http_proxy ssh nfs4 : Transport

pub record Capability : Type 0 where
  pub status : CapabilityStatus
  pub reason : String
  pub transport : Option Transport

pub record CapabilitySet : Type 0 where
  pub terminal : Capability
  pub files : Capability
  pub persistence : Capability
  pub jobs : Capability
  pub bloom : Capability
  pub controlled_egress : Capability
  pub ssh : Capability
  pub nfs : Capability

pub data Runtime : Type 0 where
  process qemu firecracker : Runtime

pub record RuntimeCapabilityInputs : Type 0 where
  pub runtime : Runtime
  pub guest_control : Bool
  pub persistent_data_disk : Bool
  pub egress_proxy : Bool
  pub ssh_gateway : Bool
  pub nfs_gateway : Bool

abbrev available_as : String → Transport → Capability
available_as reason transport = record {
  status = available;
  reason = reason;
  transport = some transport;
}

abbrev disabled_as : String → Capability
disabled_as reason = record { status = disabled; reason = reason; transport = none }

abbrev unsupported_as : String → Capability
unsupported_as reason = record { status = unsupported; reason = reason; transport = none }

abbrev is_available : CapabilityStatus → Bool
is_available available = true
is_available disabled = false
is_available unsupported = false

abbrev is_process : Runtime → Bool
is_process process = true
is_process qemu = false
is_process firecracker = false

abbrev guest_control_reason : Bool → String
guest_control_reason development_process =
    if development_process
    then "Available through the development runtime"
    else "This VM image/runtime does not expose the bounded guest-control protocol"

ssh_capability : RuntimeCapabilityInputs → Capability
ssh_capability input =
    if input.ssh_gateway && (input.guest_control || is_process input.runtime)
    then available_as "Short-lived workspace-scoped SSH authorization" ssh
    else if input.ssh_gateway
    then unsupported_as (guest_control_reason (is_process input.runtime))
    else disabled_as "The SSH gateway is disabled by the operator"

nfs_capability : RuntimeCapabilityInputs → Capability → Capability
nfs_capability input ssh_given =
    if input.nfs_gateway && input.persistent_data_disk && is_available ssh_given.status
    then available_as "NFSv4 through the authenticated workspace tunnel" nfs4
    else if input.nfs_gateway
    then unsupported_as
        "NFS requires both a persistent data volume and the authenticated SSH tunnel"
    else disabled_as "The private NFS gateway is disabled by the operator"

pub runtime_capabilities : RuntimeCapabilityInputs → CapabilitySet
unfolding ssh_capability nfs_capability
runtime_capabilities input =
    let development_process = is_process input.runtime in
    let missing = unsupported_as (guest_control_reason development_process) in
    record {
      terminal = available_as "Interactive workspace terminal" websocket;
      files =
          (if input.guest_control || development_process
            then available_as "Authenticated HTTPS file API" https
            else missing);
      persistence =
          (if input.persistent_data_disk
            then available_as "Wallet-owned quota-bounded data volume" guest_control
            else unsupported_as
                "This runtime does not attach an independently managed data volume");
      jobs =
          (if input.guest_control
            then available_as "Structured argv jobs with bounded logs and cancellation"
                guest_control
            else missing);
      bloom =
          (if input.guest_control
            then available_as "Scoped /bloom workspace service surface" guest_control
            else missing);
      controlled_egress =
          (if input.egress_proxy
            then available_as "HTTP/HTTPS only through the policy proxy" http_proxy
            else disabled_as "Controlled Internet access is disabled by the operator");
      ssh = ssh_capability input;
      nfs = nfs_capability input (ssh_capability input);
    }
