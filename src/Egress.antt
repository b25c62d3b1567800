-- ===== src/Egress.antt =====
-- src/agent/egress-policy.ts: which destinations a workspace may reach; src/agent/egress-tls.ts:
-- what a TLS connection to one of them must begin with.
pub mod Errors
pub mod Ipv4
pub mod Ipv6
pub mod Hostname
pub mod Policy
pub mod Authority
pub mod Tls
pub mod Tunnels
mod Tests
