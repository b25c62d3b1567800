-- ===== src/Capability/Tests.antt =====
-- Runs of src/capabilities.ts, and the theorems at concrete inputs.
use bloom_workspaces.Base.{◌≡◌, ◌≢◌, ◌↔◌, ◌⊎◌, refl, true, false}
use bloom_workspaces.Capability.{
  RuntimeCapabilityInputs, qemu, available, disabled, unsupported, runtime_capabilities,
}
use bloom_workspaces.Capability.Negotiation.{
  HasGuest, Advertises, IsReachable, capabilities_sound, disabled_by_operator,
}

abbrev full : RuntimeCapabilityInputs
full = record {
  runtime = qemu;
  guest_control = true;
  persistent_data_disk = true;
  egress_proxy = false;
  ssh_gateway = true;
  nfs_gateway = true;
}

full_runs :
    ((runtime_capabilities full).nfs.status ≡ available)
    × ((runtime_capabilities full).controlled_egress.status ≡ disabled)
unfolding runtime_capabilities
full_runs = (refl, refl)

capabilities_sound_example :
    let set = runtime_capabilities full in
    Advertises set.terminal
    × (Advertises set.files ↔ HasGuest full)
    × (Advertises set.persistence ↔ (true ≡ true))
    × (Advertises set.jobs ↔ (true ≡ true))
    × (Advertises set.bloom ↔ (true ≡ true))
    × (Advertises set.controlled_egress ↔ (false ≡ true))
    × (Advertises set.ssh ↔ ((true ≡ true) × HasGuest full))
    × (Advertises set.nfs ↔ ((true ≡ true) × (true ≡ true) × (true ≡ true) × HasGuest full))
    × IsReachable set.terminal
    × IsReachable set.files
    × IsReachable set.persistence
    × IsReachable set.jobs
    × IsReachable set.bloom
    × IsReachable set.controlled_egress
    × IsReachable set.ssh
    × IsReachable set.nfs
capabilities_sound_example = capabilities_sound full

disabled_by_operator_example :
    let set = runtime_capabilities full in
    ((set.controlled_egress.status ≡ disabled) ↔ (false ≡ false))
    × ((set.ssh.status ≡ disabled) ↔ (true ≡ false))
    × ((set.nfs.status ≡ disabled) ↔ (true ≡ false))
    × ((set.ssh.status ≡ unsupported) ↔ ((true ≡ true) × (¬ HasGuest full)))
    × ((set.nfs.status ≡ unsupported)
        ↔ ((true ≡ true) × ((true ≡ false) ⊎ (¬ (set.ssh.status ≡ available)))))
    × (set.controlled_egress.status ≢ unsupported)
    × (set.terminal.status ≢ disabled)
    × (set.files.status ≢ disabled)
    × (set.persistence.status ≢ disabled)
    × (set.jobs.status ≢ disabled)
    × (set.bloom.status ≢ disabled)
disabled_by_operator_example = disabled_by_operator full
