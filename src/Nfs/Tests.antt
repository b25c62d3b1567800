-- ===== src/Nfs/Tests.antt =====
-- Decisions on NFS.
use bloom_workspaces.Base.{◌≡◌, ◌↔◌, refl, true, false, codes, Text, ok}
use bloom_workspaces.Ssh.Contracts.{is_workspace_id}
use bloom_workspaces.Ssh.ClientPlan.{linux}
use bloom_workspaces.Nfs.Export.{qemu, export_plan, create_nfs_export_plan}
use bloom_workspaces.Nfs.Decision.{
  DecisionInput, is_fallback, native_nfs_decision, nfs_platform_capability, export_input,
  native_nfs_decision_iff,
}

abbrev workspace : Text
workspace = codes "0f8fad5b-d9cb-469f-a165-70867728950e"

abbrev on_qemu : DecisionInput
on_qemu = record {
  runtime = qemu;
  persistent_workspace = true;
  ssh_gateway = true;
  nfsd_built_in = true;
  platform = linux;
}

on_qemu_runs : (native_nfs_decision on_qemu).has_transport ≡ true
unfolding native_nfs_decision nfs_platform_capability
on_qemu_runs = refl

native_nfs_decision_iff_example : ((native_nfs_decision on_qemu).has_transport ≡ true) ↔ (
    (is_fallback (native_nfs_decision on_qemu).capability.status ≡ false)
    × ((native_nfs_decision on_qemu).capability ≡ nfs_platform_capability linux)
    × (true ≡ true)
    × (create_nfs_export_plan (export_input workspace on_qemu) ≡ ok (export_plan workspace)))
unfolding is_workspace_id
native_nfs_decision_iff_example = native_nfs_decision_iff on_qemu workspace refl
