-- ===== src/Workspace/Rows.antt =====
-- The tables of src/db.ts, and the statements that src/control/workspaces.ts runs on them.
use bloom_workspaces.Base.{
  ℕ, Bool, true, false, ◌&&◌, ◌||◌, Option, List, [], ◌∷◌, ◌++◌, map, if◌then◌else◌, Text, text_eq,
  any, leb, is_some, not, Result, ok, ◌>>◌, throw_if,
}
use bloom_workspaces.Ssh.Contracts.{SshAccessMode}
use Prim.Native.String.{String}

pub data WorkspaceState : Type 0 where
  queued provisioning running stopping stopped failed : WorkspaceState

pub data StorageMode : Type 0 where
  disposable persistent : StorageMode

pub record WorkspaceRow : Type 0 where
  pub id : Text
  pub wallet : Text
  pub ip_hash : Text
  pub state : WorkspaceState
  pub runtime : Text
  pub created_at : ℕ
  pub lease_expires_at : ℕ
  pub stopped_at : Option ℕ
  pub failure : Option String
  pub storage_mode : StorageMode
  pub volume_id : Option Text
  pub storage_quota_bytes : ℕ

pub record PersistentVolumeRow : Type 0 where
  pub id : Text
  pub wallet : Text
  pub quota_bytes : ℕ
  pub created_at : ℕ
  pub last_attached_at : ℕ
  pub destroyed_at : Option ℕ

-- What the node agent's client throws: `AgentClientError` has a status, any other error has none.
pub data AgentFailure : Type 0 where
  client_error : String → ℕ → AgentFailure
  other_error : String → AgentFailure

-- What `status` answers.
pub data RuntimeState : Type 0 where
  runtime_running runtime_stopped runtime_failed runtime_missing : RuntimeState

-- The kind of an audit event with its detail.
pub data AuditKind : Type 0 where
  requested : Text → StorageMode → ℕ → AuditKind
  volume_created volume_destroyed : ℕ → AuditKind
  file_listed file_downloaded : Text → ℕ → AuditKind
  file_uploaded : Text → ℕ → ℕ → AuditKind
  file_deleted : Text → ℕ → AuditKind
  file_failed : String → Text → AgentFailure → AuditKind
  file_denied : String → String → AuditKind
  job_started : Text → ℕ → ℕ → AuditKind
  job_cancelled ceremony_approved ssh_revoked : Text → AuditKind
  ceremony_polled : ℕ → AuditKind
  ssh_issued : Text → SshAccessMode → ℕ → AuditKind
  agent_status_failed agent_stop_failed start_uncertain : AgentFailure → AuditKind
  now_running : Bool → AuditKind
  lost : RuntimeState → AuditKind
  now_stopped : String → AuditKind

pub record AuditEvent : Type 0 where
  pub occurred_at : ℕ
  pub kind : AuditKind
  pub actor : Text
  pub workspace_id : Option Text

pub record Database : Type 0 where
  pub workspaces : List WorkspaceRow
  pub volumes : List PersistentVolumeRow
  pub events : List AuditEvent

-- `WorkspaceError` with its message and status, or an error of the database.
pub data ServiceError : Type 0 where
  workspace_error : String → ℕ → ServiceError
  constraint_failed : ServiceError

unfoldable pub audit : Database → ℕ → AuditKind → Text → Option Text → Database
audit db now kind actor workspace_id =
    let event : AuditEvent = record {
      occurred_at = now;
      kind = kind;
      actor = actor;
      workspace_id = workspace_id;
    } in
    record db { events = db.events ++ event ∷ [] }

abbrev pub is_queued : WorkspaceState → Bool
is_queued queued = true
is_queued _ = false

abbrev pub is_provisioning : WorkspaceState → Bool
is_provisioning provisioning = true
is_provisioning _ = false

abbrev pub is_running : WorkspaceState → Bool
is_running running = true
is_running _ = false

abbrev pub is_stopping : WorkspaceState → Bool
is_stopping stopping = true
is_stopping _ = false

-- `state IN ('running','provisioning')`.
abbrev pub is_occupied : WorkspaceState → Bool
is_occupied state = is_running state || is_provisioning state

-- `state IN ('queued','provisioning','running')`.
abbrev pub is_stoppable : WorkspaceState → Bool
is_stoppable state = is_queued state || is_occupied state

-- `state IN (${ACTIVE})`.
abbrev pub is_active : WorkspaceState → Bool
is_active state = is_stoppable state || is_stopping state

-- `UPDATE … SET … WHERE …`.
abbrev pub update_row :
    (WorkspaceRow → Bool) → (WorkspaceRow → WorkspaceRow) → WorkspaceRow → WorkspaceRow
update_row test f row = if test row then f row else row

unfoldable pub update_rows :
    (WorkspaceRow → Bool) → (WorkspaceRow → WorkspaceRow) → Database → Database
update_rows test f db = record db { workspaces = map (update_row test f) db.workspaces }

-- `INSERT INTO workspaces`: the primary key and the check of the quota.
unfoldable pub insert_workspace : WorkspaceRow → Database → Result ServiceError Database
insert_workspace row db = do
  throw_if (any (λ other. text_eq other.id row.id) db.workspaces) constraint_failed
  throw_if (leb row.storage_quota_bytes 0) constraint_failed
  ok (record db { workspaces = db.workspaces ++ row ∷ [] })

abbrev pub is_live_volume : Text → PersistentVolumeRow → Bool
is_live_volume wallet volume = text_eq volume.wallet wallet && not (is_some volume.destroyed_at)

-- `INSERT INTO persistent_volumes`: the primary key, the check of the quota, and the index that
-- allows one volume of a wallet that is not destroyed.
unfoldable pub insert_volume : PersistentVolumeRow → Database → Result ServiceError Database
insert_volume volume db = do
  throw_if (any (λ other. text_eq other.id volume.id) db.volumes) constraint_failed
  throw_if (leb volume.quota_bytes 0) constraint_failed
  throw_if (any (is_live_volume volume.wallet) db.volumes) constraint_failed
  ok (record db { volumes = db.volumes ++ volume ∷ [] })
