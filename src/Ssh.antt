-- ===== src/Ssh.antt =====
-- SSH access to a workspace: src/ssh/contracts.ts and src/ssh/lease-manager.ts.
pub mod Contracts
pub mod ClientPlan
pub mod PublicKey
pub mod Leases
mod Tests
