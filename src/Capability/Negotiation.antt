-- ===== src/Capability/Negotiation.antt =====
-- What an advertised capability says about the runtime (src/capabilities.ts).
use bloom_workspaces.Base.{is_some, ◌≢◌, ◌≡◌, ◌↔◌, ◌⊎◌, true, false, arith}
use bloom_workspaces.Capability.{
  available, disabled, unsupported, Capability, process, RuntimeCapabilityInputs,
  runtime_capabilities,
}

-- Guest control, or the development runtime, which needs none.
abbrev pub HasGuest : RuntimeCapabilityInputs → Type 0
HasGuest input = (input.guest_control ≡ true) ⊎ (input.runtime ≡ process)

abbrev pub Advertises : Capability → Type 0
Advertises c = c.status ≡ available

-- A transport is named exactly where the capability is advertised.
abbrev pub IsReachable : Capability → Type 0
IsReachable c = (is_some c.transport ≡ true) ↔ Advertises c

-- The terminal is always advertised, and each other capability exactly when all the parts that
-- enforce its boundary are present; NFS needs its gateway, the data disk, the SSH gateway and a
-- guest. Each of the eight names a transport exactly where it is advertised.
pub capabilities_sound :
    (input : RuntimeCapabilityInputs)
    → let set = runtime_capabilities input in
      Advertises set.terminal
      × (Advertises set.files ↔ HasGuest input)
      × (Advertises set.persistence ↔ (input.persistent_data_disk ≡ true))
      × (Advertises set.jobs ↔ (input.guest_control ≡ true))
      × (Advertises set.bloom ↔ (input.guest_control ≡ true))
      × (Advertises set.controlled_egress ↔ (input.egress_proxy ≡ true))
      × (Advertises set.ssh ↔ ((input.ssh_gateway ≡ true) × HasGuest input))
      × (Advertises set.nfs ↔ (
          (input.nfs_gateway ≡ true)
          × (input.persistent_data_disk ≡ true)
          × (input.ssh_gateway ≡ true)
          × HasGuest input))
      × IsReachable set.terminal
      × IsReachable set.files
      × IsReachable set.persistence
      × IsReachable set.jobs
      × IsReachable set.bloom
      × IsReachable set.controlled_egress
      × IsReachable set.ssh
      × IsReachable set.nfs
unfolding runtime_capabilities
capabilities_sound input = ground arith

-- Controlled egress, SSH and NFS read as disabled exactly when the operator has switched them off,
-- and no other capability ever does. SSH that is switched on reads as unsupported exactly without
-- a guest, and NFS exactly without the data disk or SSH; controlled egress never does.
pub disabled_by_operator :
    (input : RuntimeCapabilityInputs)
    → let set = runtime_capabilities input in
      ((set.controlled_egress.status ≡ disabled) ↔ (input.egress_proxy ≡ false))
      × ((set.ssh.status ≡ disabled) ↔ (input.ssh_gateway ≡ false))
      × ((set.nfs.status ≡ disabled) ↔ (input.nfs_gateway ≡ false))
      × ((set.ssh.status ≡ unsupported) ↔ ((input.ssh_gateway ≡ true) × (¬ HasGuest input)))
      × ((set.nfs.status ≡ unsupported) ↔ (
          (input.nfs_gateway ≡ true)
          × ((input.persistent_data_disk ≡ false) ⊎ (¬ (set.ssh.status ≡ available)))))
      × (set.controlled_egress.status ≢ unsupported)
      × (set.terminal.status ≢ disabled)
      × (set.files.status ≢ disabled)
      × (set.persistence.status ≢ disabled)
      × (set.jobs.status ≢ disabled)
      × (set.bloom.status ≢ disabled)
unfolding runtime_capabilities
disabled_by_operator input = ground arith
