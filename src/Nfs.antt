-- ===== src/Nfs.antt =====
-- src/nfs: whether a workspace is offered over NFS, and how its guest exports it.
pub mod Export
pub mod Decision
mod Tests
