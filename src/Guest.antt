-- ===== src/Guest.antt =====
-- src/guest-protocol.ts and src/agent/guest-channel.ts: what the agent and a guest say to one another.
pub mod Base64
pub mod Schema
pub mod Frames
pub mod Streams
pub mod Paths
pub mod Channel
mod Tests
