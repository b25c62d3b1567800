-- ===== src/Workspace/Steps.antt =====
-- Every interleaving of the calls of src/control/workspaces.ts that change a workspace's row.
use bloom_workspaces.Base.{ℕ, ◌≡◌, Option, [], Text, Result, ok}
use bloom_workspaces.Workspace.Rows.{
  StorageMode, WorkspaceRow, PersistentVolumeRow, Database, AgentFailure, RuntimeState,
  ServiceError,
}
use bloom_workspaces.Workspace.Creation.{Config, WorkspaceDataCapabilities, create}
use bloom_workspaces.Workspace.Lifecycle.{
  StopOperation, idle, Service, finish_stop, stop_current, reconcile, stop_awaited, status_given,
  create_given,
}
use bloom_workspaces.Workspace.Access.{begin_destroy, finish_destroy}

module _ (config : Config) (capabilities : Option WorkspaceDataCapabilities) where
  pub data Step (s : Service) : Service → Type 0 where
    created :
        (now : ℕ) (id volume_id wallet ip_hash : Text) (storage : Option StorageMode)
        (db : Database) (row : WorkspaceRow)
        → create config capabilities s.db s.destroying now id volume_id wallet ip_hash storage
          ≡ ok (db, row)
        → Step s (record s { db = db })
    stop_asked : (wallet : Text) → Step s (stop_current s wallet)
    stop_done :
        (now : ℕ) (op : StopOperation) (reply : Result AgentFailure (Unit {0}))
        → Step s (finish_stop s now op reply)
    reconciled : (now : ℕ) → Step s (reconcile config s now)
    went_on : (now : ℕ) → Step s (stop_awaited config s now)
    status_came :
        (now : ℕ) (reply : Result AgentFailure RuntimeState)
        → Step s (status_given config s now reply)
    create_came :
        (now : ℕ) (reply : Result AgentFailure (Unit {0})) → Step s (create_given s now reply)
    destroy_begun :
        (wallet : Text) (t : Service) (volume : PersistentVolumeRow)
        → begin_destroy s wallet ≡ ok (t, volume)
        → Step s t
    destroy_done :
        (now : ℕ) (volume : PersistentVolumeRow) (reply : Result AgentFailure (Unit {0}))
        (t : Service) (r : Result ServiceError (Unit {0}))
        → finish_destroy s now volume reply ≡ (t, r)
        → Step s t

  pub data Reach (s : Service) : Service → Type 0 where
    here : Reach s s
    next : {t u : Service} → Reach s t → Step t u → Reach s u

-- The service over empty tables.
abbrev pub initial : Service
initial = record {
  db = record { workspaces = []; volumes = []; events = [] };
  phase = idle;
  stops = [];
  destroying = [];
}
