-- ===== src/Workspace.antt =====
-- The control plane's workspaces: src/control/workspaces.ts over the tables of src/db.ts.
-- A table is the list of its rows in the order of insertion; a statement of SQL is a function on
-- it. Wallet addresses are ASCII, so `toLowerCase` is taken on ASCII. An operation that waits for
-- the node agent is split where it waits, with the agent's reply an argument of the second part, or
-- takes the call of the agent as an argument.
pub mod Rows
pub mod Creation
pub mod Access
pub mod Lifecycle
pub mod Counting
pub mod Steps
pub mod Limits
pub mod Bounded
pub mod Histories
pub mod Admission
pub mod Guarding
pub mod Invariant
mod Tests
