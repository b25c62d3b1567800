-- ===== src/Workspace/Access.antt =====
-- The queries and data operations of src/control/workspaces.ts. Each operation on a workspace is
-- first `owned_running`, then a call of the agent, which is a parameter, then what follows its reply.
use bloom_workspaces.Base.{
  ℕ, ◌+◌, ◌-◌, Bool, false, ◌&&◌, ◌||◌, not, Option, none, some, List, ◌∷◌, map, leb, ltb, ◌==◌,
  if◌then◌else◌, Text, text_eq, lower, count, find, any, is_some, filter_by, Result, ok, err,
}
use bloom_workspaces.Workspace.Rows.{
  WorkspaceState, StorageMode, WorkspaceRow, PersistentVolumeRow, Database, AgentFailure,
  client_error, other_error, AuditKind, file_listed, file_downloaded, file_uploaded, file_deleted,
  file_failed, file_denied, job_started, job_cancelled, ceremony_approved, ssh_revoked,
  ceremony_polled, ssh_issued, volume_destroyed, ServiceError, workspace_error, audit, is_queued,
  is_running, is_active, is_live_volume,
}
use bloom_workspaces.Workspace.Creation.{is_persistent}
use bloom_workspaces.Workspace.Lifecycle.{Service, newest, active_of}
use bloom_workspaces.Ssh.Contracts.{SshAccessMode}
use Prim.Native.String.{String}

abbrev pub owned_row : Text → Text → WorkspaceRow → Bool
owned_row id wallet row = text_eq row.id id && text_eq row.wallet wallet

unfoldable pub owns_running : Database → ℕ → Text → Text → Bool
owns_running db now wallet id =
    any
      (λ row.
        owned_row id (map lower wallet) row && is_running row.state && ltb now row.lease_expires_at)
      db.workspaces

-- `ownedRunning`: a refusal is audited, with its reason.
unfoldable pub owned_running :
    Database → ℕ → Text → Text → String → Database × Result ServiceError WorkspaceRow
owned_running db now wallet id operation =
    let owner = map lower wallet in
    elim (find (owned_row id owner) db.workspaces) [
      | none ↦ (
        audit db now (file_denied operation "not_owner") owner (some id),
        err (workspace_error "Workspace not found" 404),
      )
      | some row ↦
          if not (is_running row.state) || leb row.lease_expires_at now
          then (
            audit db now (file_denied operation "not_running") owner (some id),
            err (workspace_error "Workspace is not running" 409),
          )
          else (db, ok row)
    ]

abbrev pub passes_on : ℕ → Bool
passes_on status =
    status == 400
    || status == 403
    || status == 404
    || status == 409
    || status == 413
    || status == 501

unfoldable pub agent_workspace_error : AgentFailure → ServiceError
agent_workspace_error (client_error message status) =
    workspace_error message (if passes_on status then status else 503)
agent_workspace_error (other_error message) = workspace_error "Workspace node is unavailable" 503

module _ {ℓ} {A : Type ℓ} where
  -- `dataOperation`: a success is audited by the operation, a failure here.
  unfoldable pub data_operation :
      Database
      → ℕ
      → WorkspaceRow
      → String
      → Text
      → (A → AuditKind)
      → Result AgentFailure A
      → Database × Result ServiceError A
  data_operation db now row operation path done (ok result) =
      (audit db now (done result) row.wallet (some row.id), ok result)
  data_operation db now row operation path done (err failure) = (
    audit db now (file_failed operation path failure) row.wallet (some row.id),
    err (agent_workspace_error failure),
  )

  -- The other operations: a success is audited where `done` gives an event.
  unfoldable pub agent_operation :
      Database
      → ℕ
      → WorkspaceRow
      → (A → Option AuditKind)
      → Result AgentFailure A
      → Database × Result ServiceError A
  agent_operation db now row done (err failure) = (db, err (agent_workspace_error failure))
  agent_operation db now row done (ok result) = elim (done result) [
    | none ↦ (db, ok result)
    | some kind ↦ (audit db now kind row.wallet (some row.id), ok result)
  ]

-- What an operation finds once the agent has answered: other calls may have changed the tables
-- while it waited, and the clock has gone on.
pub record Awaited (A : Type 0) : Type 0 where
  pub db : Database
  pub now : ℕ
  pub reply : Result AgentFailure A

-- The call of the agent, for the id of a workspace and the tables as the operation left them.
abbrev pub AgentCall : Type 0 → Type 0
AgentCall A = Text → Database → Awaited A

-- The rest of an operation after `ownedRunning`.
unfoldable pub while_owned :
    {A : Type 0}
    → Database × Result ServiceError WorkspaceRow
    → (WorkspaceRow → Awaited A → Database × Result ServiceError A)
    → AgentCall A
    → Database × Result ServiceError A
while_owned (db, err e) finish agent = (db, err e)
while_owned (db, ok row) finish agent = finish row (agent row.id db)

module _ (db : Database) (now : ℕ) (wallet id : Text) where
  -- The file operations, with the numbers of the agent's reply that are audited.
  unfoldable pub list_files : (path : Text) → AgentCall ℕ → Database × Result ServiceError ℕ
  list_files path =
      while_owned (owned_running db now wallet id "list")
        (λ row w. data_operation w.db w.now row "list" path (file_listed path) w.reply)

  unfoldable pub read_file : (path : Text) → AgentCall ℕ → Database × Result ServiceError ℕ
  read_file path =
      while_owned (owned_running db now wallet id "download")
        (λ row w. data_operation w.db w.now row "download" path (file_downloaded path) w.reply)

  unfoldable pub write_file :
      (path : Text) (bytes : ℕ) → AgentCall ℕ → Database × Result ServiceError ℕ
  write_file path bytes =
      while_owned (owned_running db now wallet id "upload")
        (λ row w. data_operation w.db w.now row "upload" path (file_uploaded path bytes) w.reply)

  unfoldable pub delete_file : (path : Text) → AgentCall ℕ → Database × Result ServiceError ℕ
  delete_file path =
      while_owned (owned_running db now wallet id "delete")
        (λ row w. data_operation w.db w.now row "delete" path (file_deleted path) w.reply)

  -- The other operations. The agent's answer of a job has its id and its timeout, that of an SSH
  -- lease its id and its end; other answers are passed on as they are.
  unfoldable pub start_job :
      (argv_count : ℕ) → AgentCall (Text × ℕ) → Database × Result ServiceError (Text × ℕ)
  start_job argv_count = while_owned (owned_running db now wallet id "job_start") (λ row w.
      agent_operation w.db w.now row (λ job. some (job_started job.0 job.1 argv_count)) w.reply)

  unfoldable pub cancel_job : (job_id : Text) → AgentCall Text → Database × Result ServiceError Text
  cancel_job job_id =
      while_owned (owned_running db now wallet id "job_cancel")
        (λ row w. agent_operation w.db w.now row (λ _. some (job_cancelled job_id)) w.reply)

  unfoldable pub ceremony_pending : AgentCall ℕ → Database × Result ServiceError ℕ
  ceremony_pending =
      while_owned (owned_running db now wallet id "ceremony_pending")
        (λ row w. agent_operation w.db w.now row (λ number. some (ceremony_polled number)) w.reply)

  unfoldable pub ceremony_approve :
      (tx_id : Text) → AgentCall Text → Database × Result ServiceError Text
  ceremony_approve tx_id =
      while_owned (owned_running db now wallet id "ceremony_approve")
        (λ row w. agent_operation w.db w.now row (λ _. some (ceremony_approved tx_id)) w.reply)

  unfoldable pub issue_ssh :
      (mode : SshAccessMode) → AgentCall (Text × ℕ) → Database × Result ServiceError (Text × ℕ)
  issue_ssh mode = while_owned (owned_running db now wallet id "ssh_issue") (λ row w.
      agent_operation w.db w.now row (λ lease. some (ssh_issued lease.0 mode lease.1)) w.reply)

  unfoldable pub revoke_ssh :
      (lease_id : Text) → AgentCall (Unit {0}) → Database × Result ServiceError (Unit {0})
  revoke_ssh lease_id =
      while_owned (owned_running db now wallet id "ssh_revoke")
        (λ row w. agent_operation w.db w.now row (λ _. some (ssh_revoked lease_id)) w.reply)

  -- `jobStatus`, `bloomStatus` and `connections`, which audit no success.
  unfoldable pub job_status : AgentCall Text → Database × Result ServiceError Text
  job_status =
      while_owned (owned_running db now wallet id "job_status")
        (λ row w. agent_operation w.db w.now row (λ _. none) w.reply)

  unfoldable pub bloom_status : AgentCall Text → Database × Result ServiceError Text
  bloom_status =
      while_owned (owned_running db now wallet id "bloom_status")
        (λ row w. agent_operation w.db w.now row (λ _. none) w.reply)

  unfoldable pub connections : AgentCall Text → Database × Result ServiceError Text
  connections =
      while_owned (owned_running db now wallet id "connections")
        (λ row w. agent_operation w.db w.now row (λ _. none) w.reply)

-- `current`, and what a client sees of a row. The five minutes are taken from the clock, which
-- stands past them.
pub record PublicWorkspace : Type 0 where
  pub id : Text
  pub state : WorkspaceState
  pub created_at : ℕ
  pub lease_expires_at : ℕ
  pub storage_mode : StorageMode
  pub quota_bytes : ℕ
  pub retained_after_stop : Bool
  pub queue_position : Option ℕ
  pub failure : Option String

unfoldable pub public_workspace : Database → WorkspaceRow → PublicWorkspace
public_workspace db row = record {
  id = row.id;
  state = row.state;
  created_at = row.created_at;
  lease_expires_at = row.lease_expires_at;
  storage_mode = row.storage_mode;
  quota_bytes = row.storage_quota_bytes;
  retained_after_stop = is_persistent row.storage_mode;
  queue_position =
      (if is_queued row.state
        then some
            (1 + count (λ r. is_queued r.state && ltb r.created_at row.created_at) db.workspaces)
        else none);
  failure = row.failure;
}

-- The newest active row, or else the newest row.
abbrev pub current_row : List WorkspaceRow → Text → Option WorkspaceRow
current_row rows wallet = elim (newest (filter_by (active_of wallet) rows)) [
  | some row ↦ some row
  | none ↦ newest (filter_by (λ row. text_eq row.wallet wallet) rows)
]

unfoldable pub current : Database → ℕ → Text → Option PublicWorkspace
current db now wallet = elim (current_row db.workspaces (map lower wallet)) [
  | none ↦ none
  | some row ↦
      if not (is_active row.state) && ltb row.created_at (now - 300_000)
      then none
      else some (public_workspace db row)
]

-- `volume_id = ?`, which no row without a volume meets.
abbrev pub attached_to : Text → Option Text → Bool
attached_to id none = false
attached_to id (some volume_id) = text_eq volume_id id

abbrev pub mark_destroyed : ℕ → Text → PersistentVolumeRow → PersistentVolumeRow
mark_destroyed now id volume =
    if text_eq volume.id id && not (is_some volume.destroyed_at)
    then record volume { destroyed_at = some now }
    else volume

-- `destroyPersistentVolume` up to its wait for the agent; the volume to destroy.
unfoldable pub begin_destroy : Service → Text → Result ServiceError (Service × PersistentVolumeRow)
begin_destroy s wallet =
    let owner = map lower wallet in
    elim (find (is_live_volume owner) s.db.volumes) [
      | none ↦ err (workspace_error "No persistent workspace volume exists" 404)
      | some volume ↦
          if any (λ row. attached_to volume.id row.volume_id && is_active row.state) s.db.workspaces
          then err
              (workspace_error "Stop the workspace before destroying its persistent volume" 409)
          else if any (λ w. text_eq w owner) s.destroying
          then err
              (workspace_error "The persistent workspace volume is already being destroyed" 409)
          else ok (record s { destroying = owner ∷ s.destroying }, volume)
    ]

-- The rest, with the agent's reply; the wallet leaves `destroyingVolumes` in either case.
unfoldable pub finish_destroy :
    Service
    → ℕ
    → PersistentVolumeRow
    → Result AgentFailure (Unit {0})
    → Service × Result ServiceError (Unit {0})
finish_destroy s now volume (err failure) = (
  record s { destroying = filter_by (λ w. not (text_eq w volume.wallet)) s.destroying },
  err (agent_workspace_error failure),
)
finish_destroy s now volume (ok done) =
    let db = record s.db { volumes = map (mark_destroyed now volume.id) s.db.volumes } in
    (
      record s {
        db = audit db now (volume_destroyed volume.quota_bytes) volume.wallet none;
        destroying = filter_by (λ w. not (text_eq w volume.wallet)) s.destroying;
      },
      ok tt,
    )
