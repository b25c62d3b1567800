-- ===== src/Lib.antt =====
-- Bloom workspaces: rented development workspaces behind a control plane and node agents. The
-- development models the parts of the TypeScript code that decide who may do what: which addresses
-- a workspace reaches, which workspaces exist and in which state, which SSH leases and tunnels
-- exist, which configurations start, which features a runtime advertises, and how a job moves
-- through its states.
--
-- Parts, and the code that they model:
--   Base               the names that all modules share: Boolean tests, lists, texts as lists of
--                      character codes, and `Result`, in which a thrown error is a value
--   Egress             src/agent/egress-policy.ts. Egress.Ipv4 and Egress.Ipv6 read addresses and
--                      test reserved ranges; Egress.Hostname normalises names and matches patterns;
--                      Egress.Policy approves destinations; Egress.Authority reads the host and port
--                      of a proxy request. Egress.Tls is `validateClientHello` of
--                      src/agent/egress-tls.ts, Egress.Tls.Records `inspectTlsClientHello`;
--                      Egress.Tls.Acceptance and Egress.Tls.Inspections say what these accept.
--                      Egress.Tunnels is `handleConnect` and `receiveTlsClientHello` of
--                      src/agent/egress-proxy.ts, which use all of these
--   Ssh.Contracts      src/ssh/contracts.ts: identifiers, principals, access modes, ports
--   Ssh.PublicKey      src/ssh-public-key.ts: the Ed25519 keys that are accepted
--   Ssh.ClientPlan     src/ssh/client-plan.ts and src/ssh/platform.ts: the command line of OpenSSH
--   Ssh.Leases         src/ssh/lease-manager.ts. Leases.Defs has the map of leases and revocation,
--                      Leases.Grants the constructor and `issue`, Leases.Tunnels `authorize` and
--                      `openTunnel`, Leases.Steps the interleavings of all calls
--   Workspace          src/control/workspaces.ts over the tables of src/db.ts. Workspace.Rows has the
--                      tables and their statements, Workspace.Creation `create`, Workspace.Access
--                      the queries, the operations on a running workspace and
--                      `destroyPersistentVolume`, Workspace.Lifecycle stopping and
--                      `runReconciliation`, Workspace.Steps the interleavings of all calls
--   Nfs                src/nfs/export-plan.ts and src/nfs/capability.ts, with the platforms of
--                      src/nfs/client-plan.ts
--   Control            Control.Terminals is src/control/terminal-admission.ts. Control.SignIn is
--                      src/control/auth.ts with the sessions of src/control/session.ts, and
--                      Control.SignIn.Steps the interleavings of its calls
--   Configuration      src/config.ts: `assertSafeConfiguration`
--   Guest              src/guest-protocol.ts and src/agent/guest-channel.ts. Guest.Schema has the
--                      requests and responses and what they must be, Guest.Frames the lines that
--                      carry them, Guest.Channel one request over a socket, as the handlers of the
--                      socket's events
--   Capability         src/capabilities.ts: `runtimeCapabilities`
--   Job                src/jobs/model.ts: states of a job, its status record, and what a job may be;
--                      src/jobs/client.ts: the requests to the guest
--
-- How state and errors are modelled. An operation that throws returns `Result`; one that changes
-- state before it throws returns the new state and a `Result`. The clock is an argument. Random ids
-- and tokens are arguments. `openTunnel` waits for a connector: it is `begin_tunnel` and
-- `finish_tunnel`, with any other calls between them, and the tickets of `System.opening` are the
-- tunnels that wait. `runReconciliation` waits for the node agent; `Phase` says where, and each reply
-- of the agent is a call of its own. An operation on a workspace is `owned_running`, a call of
-- the agent, and what follows its reply. The call is an argument: it is given the id and the tables,
-- and gives the reply with the clock and the tables as they are then, changed by other calls or not.
-- A transaction that throws gives no new tables.
-- `verifyChallenge` waits for `verifyMessage`: it is `begin_verify` and `finish_verify`. A socket, its
-- timers and a Promise are a state with one definition per handler, and a run is a list of events; a
-- destroyed socket brings no data.
--
-- Parameters. Node's `domainToASCII`, `isIP`, `path.isAbsolute`, `path.resolve`, `Buffer.byteLength`, `trim`,
-- SHA-256, base64, the DNS lookup, the certificate signer,
-- the URL parser, `parseSiweMessage` and
-- `getAddress` are arguments of the definitions that use
-- them, with no assumption on them, but where a result names one: `JSON.stringify`
-- and `JSON.parse` undo one another on one line, and `posix.normalize` leaves `..` only at the
-- beginning of a path and keeps plain paths. That `randomUUID` draws an id that no lease has had is a premise of the step
-- that issues a lease. The primary keys of the tables are checked where a row is inserted.
--
-- Numbers and texts. Times, ports and sizes are natural numbers, so tests for integers hold of each.
-- Texts that are folded to lower case are ASCII, by the tests made on them. The fuel of `to_hex` is
-- the number of hexadecimal digits, and four suffice below 2^16. The loop over the extensions of a
-- ClientHello runs on the number of bytes that are left, and each round consumes four or more;
-- the loop over the records runs on one more than the length of the input, and consumes six or more.
--
-- Not modelled: sockets, processes, virtual machines, the file system, HTTP routing, rendering of
-- configuration files and the web client.
pub mod Base
pub mod Capability
pub mod Configuration
pub mod Control
pub mod Egress
pub mod Guest
pub mod Job
pub mod Nfs
pub mod Ssh
pub mod Workspace
