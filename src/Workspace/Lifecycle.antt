-- ===== src/Workspace/Lifecycle.antt =====
-- Stopping and reconciliation in src/control/workspaces.ts. `Phase` is where the one run of
-- `runReconciliation` waits; `stops` are the entries of `stopOperations`.
use bloom_workspaces.Base.{
  ℕ, zero, suc, ◌-◌, Bool, true, false, ◌&&◌, ◌||◌, not, Option, none, some, List, [], ◌∷◌, map,
  leb, ltb, ◌==◌, if◌then◌else◌, Text, text_eq, lower, count, any, filter_by, Result, ok, err,
}
use bloom_workspaces.Workspace.Rows.{
  WorkspaceState, provisioning, running, stopping, stopped, failed, WorkspaceRow, Database,
  AgentFailure, RuntimeState, runtime_running, agent_status_failed, agent_stop_failed,
  start_uncertain, now_running, lost, now_stopped, audit, is_queued, is_provisioning, is_stopping,
  is_occupied, is_stoppable, is_active, update_rows,
}
use bloom_workspaces.Workspace.Creation.{Config}
use Prim.Native.String.{String}

pub record StopOperation : Type 0 where
  pub row : WorkspaceRow
  pub reason : String

-- `idle`: `this.reconciliation` is undefined. `stopping_rows`: the first row's stop operation is
-- awaited. `checking_rows`: the status of the first row is awaited. `launching`: the agent
-- creates the row, and `capacity` more may follow.
pub data Phase : Type 0 where
  idle : Phase
  stopping_rows checking_rows : WorkspaceRow → List WorkspaceRow → Phase
  launching : WorkspaceRow → ℕ → Phase

pub record Service : Type 0 where
  pub db : Database
  pub phase : Phase
  pub stops : List StopOperation
  pub destroying : List Text

abbrev pub to_state : WorkspaceState → WorkspaceRow → WorkspaceRow
to_state state row = record row { state = state }

abbrev pub has_id : Text → WorkspaceRow → Bool
has_id id row = text_eq row.id id

-- `stopWorkspace`: one operation for each workspace.
unfoldable pub begin_stop : Service → WorkspaceRow → String → Service
begin_stop s row reason =
    let operation : StopOperation = record { row = row; reason = reason } in
    if any (λ op. text_eq op.row.id row.id) s.stops
    then s
    else record s { stops = operation ∷ s.stops }

-- `UPDATE … SET state = 'stopped' … WHERE id = ? AND state = 'stopping'`, which changes a row or none.
abbrev pub stoppable_row : Text → WorkspaceRow → Bool
stoppable_row id row = has_id id row && is_stopping row.state

abbrev pub mark_stopped : ℕ → WorkspaceRow → WorkspaceRow
mark_stopped now row = record row { state = stopped; stopped_at = some now }

-- The rest of the operation, with the agent's reply.
unfoldable pub finish_stop : Service → ℕ → StopOperation → Result AgentFailure (Unit {0}) → Service
finish_stop s now op (err failure) = record s {
  db = audit s.db now (agent_stop_failed failure) op.row.wallet (some op.row.id);
  stops = filter_by (λ o. not (text_eq o.row.id op.row.id)) s.stops;
}
finish_stop s now op (ok done) =
    let changed = count (stoppable_row op.row.id) s.db.workspaces in
    let db = update_rows (stoppable_row op.row.id) (mark_stopped now) s.db in
    record s {
      db =
          (if changed == 1
            then audit db now (now_stopped op.reason) op.row.wallet (some op.row.id)
            else db);
      stops = filter_by (λ o. not (text_eq o.row.id op.row.id)) s.stops;
    }

-- The row that an `ORDER BY` puts first; a later row takes its place where `before` holds.
abbrev pub first_row :
    (WorkspaceRow → WorkspaceRow → Bool)
    → Option WorkspaceRow
    → List WorkspaceRow
    → Option WorkspaceRow
first_row before best [] = best
first_row before none (row ∷ rows) = first_row before (some row) rows
first_row before (some best) (row ∷ rows) =
    first_row before (some (if before row best then row else best)) rows

-- `ORDER BY created_at DESC LIMIT 1`, and `ORDER BY created_at LIMIT 1`.
abbrev pub newest : List WorkspaceRow → Option WorkspaceRow
newest = first_row (λ row best. ltb best.created_at row.created_at) none

abbrev pub oldest : List WorkspaceRow → Option WorkspaceRow
oldest = first_row (λ row best. ltb row.created_at best.created_at) none

abbrev pub active_of : Text → WorkspaceRow → Bool
active_of wallet row = text_eq row.wallet wallet && is_active row.state

-- `stopCurrent` up to its wait for the operation.
unfoldable pub stop_current : Service → Text → Service
stop_current s wallet = elim (newest (filter_by (active_of (map lower wallet)) s.db.workspaces)) [
  | none ↦ s
  | some row ↦
      begin_stop
        (record s {
          db = update_rows (λ r. has_id row.id r && is_stoppable r.state) (to_state stopping) s.db;
        })
        row "owner"
]

-- `UPDATE … WHERE state IN ('queued','provisioning','running') AND lease_expires_at <= ?`.
unfoldable pub expire : Database → ℕ → Database
expire db now =
    update_rows (λ row. is_stoppable row.state && leb row.lease_expires_at now) (to_state stopping)
      db

-- The loop `while (capacity-- > 0)` up to its wait for the agent. A claim that changes no single
-- row goes on to the next round.
unfoldable pub launch : Service → ℕ → ℕ → Service
launch s now zero = record s { phase = idle }
launch s now (suc capacity) =
    elim (oldest
      (filter_by (λ row. is_queued row.state && ltb now row.lease_expires_at) s.db.workspaces)) [
        | none ↦ record s { phase = idle }
        | some row ↦
            let claim : WorkspaceRow → Bool = λ r. has_id row.id r && is_queued r.state in
            let claimed = record s { db = update_rows claim (to_state provisioning) s.db } in
            let again = launch claimed now capacity in
            if count claim s.db.workspaces == 1
            then record claimed { phase = launching row capacity }
            else again
      ]

-- `this.config.maxRunning - COUNT(*)`; the loop runs not at all where that is negative.
unfoldable pub start_launching : Config → Service → ℕ → Service
start_launching config s now = launch s now (
    config.max_running
    - count (λ row. is_occupied row.state || is_stopping row.state) s.db.workspaces)

unfoldable pub check_next : Config → Service → ℕ → List WorkspaceRow → Service
check_next config s now [] = start_launching config s now
check_next config s now (row ∷ rows) = record s { phase = checking_rows row rows }

unfoldable pub stop_next : Config → Service → ℕ → List WorkspaceRow → Service
stop_next config s now [] =
    check_next config s now (filter_by (λ row. is_occupied row.state) s.db.workspaces)
stop_next config s now (row ∷ rows) =
    record (begin_stop s row (if leb row.lease_expires_at now then "lease_expired" else "retry")) {
      phase = stopping_rows row rows;
    }

-- `reconcile`: a run that is under way is joined.
unfoldable pub reconcile_at : Config → Service → ℕ → Phase → Service
reconcile_at config s now idle =
    let s' = record s { db = expire s.db now } in
    stop_next config s' now (filter_by (λ row. is_stopping row.state) s'.db.workspaces)
reconcile_at config s now _ = s

unfoldable pub reconcile : Config → Service → ℕ → Service
reconcile config s now = reconcile_at config s now s.phase

-- The stop operation that the run awaits has ended.
unfoldable pub stop_awaited_at : Config → Service → ℕ → Phase → Service
stop_awaited_at config s now (stopping_rows row rows) = stop_next config s now rows
stop_awaited_at config s now _ = s

unfoldable pub stop_awaited : Config → Service → ℕ → Service
stop_awaited config s now = stop_awaited_at config s now s.phase

abbrev pub lost_failure : String
lost_failure = "The workspace process ended unexpectedly; please retry"

abbrev pub mark_failed : ℕ → WorkspaceRow → WorkspaceRow
mark_failed now row = record row {
  state = failed;
  stopped_at = some now;
  failure = some lost_failure;
}

-- What the status of a row, as it was selected, does to the tables.
unfoldable pub status_result :
    Database → ℕ → WorkspaceRow → Result AgentFailure RuntimeState → Database
status_result db now row (err failure) =
    audit db now (agent_status_failed failure) row.wallet (some row.id)
status_result db now row (ok runtime_running) =
    if is_provisioning row.state
    then audit (update_rows (λ r. has_id row.id r && is_provisioning r.state) (to_state running) db)
        now (now_running true) row.wallet (some row.id)
    else db
status_result db now row (ok state) =
    audit (update_rows (λ r. has_id row.id r && is_occupied r.state) (mark_failed now) db) now
      (lost state) row.wallet (some row.id)

-- The status that the run awaits has come.
unfoldable pub status_given_at :
    Config → Service → ℕ → Result AgentFailure RuntimeState → Phase → Service
status_given_at config s now reply (checking_rows row rows) =
    check_next config (record s { db = status_result s.db now row reply }) now rows
status_given_at config s now reply _ = s

unfoldable pub status_given : Config → Service → ℕ → Result AgentFailure RuntimeState → Service
status_given config s now reply = status_given_at config s now reply s.phase

unfoldable pub create_result :
    Database → ℕ → WorkspaceRow → Result AgentFailure (Unit {0}) → Database
create_result db now row (err failure) =
    audit db now (start_uncertain failure) row.wallet (some row.id)
create_result db now row (ok done) =
    audit (update_rows (λ r. has_id row.id r && is_provisioning r.state) (to_state running) db) now
      (now_running false) row.wallet (some row.id)

-- The agent has created the claimed workspace, or failed to.
unfoldable pub create_given_at : Service → ℕ → Result AgentFailure (Unit {0}) → Phase → Service
create_given_at s now reply (launching row capacity) =
    launch (record s { db = create_result s.db now row reply }) now capacity
create_given_at s now reply _ = s

unfoldable pub create_given : Service → ℕ → Result AgentFailure (Unit {0}) → Service
create_given s now reply = create_given_at s now reply s.phase
