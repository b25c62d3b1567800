-- ===== src/Ssh/Leases.antt =====
-- `SshLeaseManager` of src/ssh/lease-manager.ts. The map of leases is a list in insertion order.
-- Time is an argument of each call. Streams are numbers, and `destroyed` lists those that a
-- revocation destroyed. An operation that waits is split where it waits: other calls may come
-- between `begin_tunnel` and `finish_tunnel`. A lease id is never used twice, so a lease that is
-- found again under its id is the same object.
-- Parameters: the digest `sha256`, Node's `path.isAbsolute` and `path.resolve`, and the signer.
pub mod Defs
pub mod Tunnels
pub mod Grants
pub mod Steps
pub mod Bounds
pub mod Invariant
pub mod Preservation
pub mod Histories
pub mod Revocation
pub mod Soundness
pub mod Admission
pub mod Issuing
