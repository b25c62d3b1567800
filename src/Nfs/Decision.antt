-- ===== src/Nfs/Decision.antt =====
-- src/nfs/capability.ts, with the platforms of src/nfs/client-plan.ts: whether NFS is offered.
use bloom_workspaces.Base.{◌≡◌, ◌↔◌, Bool, true, false, not, Text, ok, if◌then◌else◌, arith}
use bloom_workspaces.Ssh.Contracts.{is_workspace_id}
use bloom_workspaces.Ssh.ClientPlan.{
  ClientPlatform, linux, macos, windows, android, ios, unknown, PlatformStatus, supported,
  conditional, fallback,
}
use bloom_workspaces.Nfs.Export.{
  RuntimeKind, firecracker, is_qemu_runtime, ExportInput, export_plan, create_nfs_export_plan,
}

pub data Reason : Type 0 where
  linux_client macos_client windows_client mobile_client unknown_client : Reason
  firecracker_kernel process_runtime disposable_workspace no_gateway no_nfsd_gate : Reason

pub record PlatformNfsCapability : Type 0 where
  pub status : PlatformStatus
  pub reason : Reason
  pub requires_admin : Bool

unfoldable pub nfs_platform_capability : ClientPlatform → PlatformNfsCapability
nfs_platform_capability linux = record {
  status = supported;
  reason = linux_client;
  requires_admin = true;
}
nfs_platform_capability macos = record {
  status = supported;
  reason = macos_client;
  requires_admin = true;
}
nfs_platform_capability windows = record {
  status = conditional;
  reason = windows_client;
  requires_admin = true;
}
nfs_platform_capability android = record {
  status = fallback;
  reason = mobile_client;
  requires_admin = false;
}
nfs_platform_capability ios = record {
  status = fallback;
  reason = mobile_client;
  requires_admin = false;
}
nfs_platform_capability unknown = record {
  status = fallback;
  reason = unknown_client;
  requires_admin = false;
}

-- `transport` is "nfs4-over-ssh" or absent.
pub record NativeNfsDecision : Type 0 where
  pub capability : PlatformNfsCapability
  pub runtime : RuntimeKind
  pub has_transport : Bool

pub record DecisionInput : Type 0 where
  pub runtime : RuntimeKind
  pub persistent_workspace : Bool
  pub ssh_gateway : Bool
  pub nfsd_built_in : Bool
  pub platform : ClientPlatform

abbrev pub is_fallback : PlatformStatus → Bool
is_fallback supported = false
is_fallback conditional = false
is_fallback fallback = true

abbrev pub runtime_reason : RuntimeKind → Reason
runtime_reason firecracker = firecracker_kernel
runtime_reason _ = process_runtime

abbrev pub refused : RuntimeKind → Reason → NativeNfsDecision
refused runtime reason = record {
  capability = record { status = fallback; reason = reason; requires_admin = false };
  runtime = runtime;
  has_transport = false;
}

unfoldable pub native_nfs_decision : DecisionInput → NativeNfsDecision
native_nfs_decision input =
    let base = nfs_platform_capability input.platform in
    if is_fallback base.status
    then (record { capability = base; runtime = input.runtime; has_transport = false })
    else if not (is_qemu_runtime input.runtime)
    then refused input.runtime (runtime_reason input.runtime)
    else if not input.persistent_workspace
    then refused input.runtime disposable_workspace
    else if not input.ssh_gateway
    then refused input.runtime no_gateway
    else if not input.nfsd_built_in
    then refused input.runtime no_nfsd_gate
    else (record { capability = base; runtime = input.runtime; has_transport = true })

abbrev pub export_input : Text → DecisionInput → ExportInput
export_input workspace_id input = record {
  workspace_id = workspace_id;
  runtime = input.runtime;
  nfsd_built_in = input.nfsd_built_in;
  persistent_workspace = input.persistent_workspace;
}

-- For a valid identifier of a workspace, NFS is offered exactly when the platform of the client can
-- use it, the SSH gateway is there, and the guest's export can be planned; and what is offered is
-- then what the platform is capable of.
pub native_nfs_decision_iff :
    (input : DecisionInput) (workspace_id : Text)
    → is_workspace_id workspace_id ≡ true
    → ((native_nfs_decision input).has_transport ≡ true) ↔ (
        (is_fallback (native_nfs_decision input).capability.status ≡ false)
        × ((native_nfs_decision input).capability ≡ nfs_platform_capability input.platform)
        × (input.ssh_gateway ≡ true)
        × (create_nfs_export_plan (export_input workspace_id input)
            ≡ ok (export_plan workspace_id)))
unfolding native_nfs_decision create_nfs_export_plan
native_nfs_decision_iff input workspace_id valid =
    (λ offered. (ground arith, ground arith, ground arith, ground arith), λ h. ground arith)
