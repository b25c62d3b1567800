-- ===== src/Workspace/Creation.antt =====
-- `create` and `getOrCreatePersistentVolume` of src/control/workspaces.ts. All that follows
-- `BEGIN IMMEDIATE` is one transaction: an error leaves the tables as they were (`ROLLBACK`).
-- `since` is a day before the clock, which stands past the first day of 1970. What
-- `scheduleReconciliation` starts is a step of its own.
use bloom_workspaces.Base.{
  ℕ, ◌+◌, ◌-◌, Bool, true, false, ◌&&◌, Option, none, some, List, map, leb, if◌then◌else◌, Text,
  text_eq, lower, count, find, any, get_or_else, Result, ok, err, ◌>>=◌, ◌>>◌, throw_if,
}
use bloom_workspaces.Workspace.Rows.{
  queued, StorageMode, disposable, persistent, WorkspaceRow, PersistentVolumeRow, Database,
  ServiceError, workspace_error, requested, volume_created, audit, is_active, is_queued,
  insert_workspace, insert_volume, is_live_volume,
}
use Prim.Native.String.{String}

pub record Config : Type 0 where
  pub max_active_per_wallet : ℕ
  pub max_active_per_ip : ℕ
  pub daily_per_wallet : ℕ
  pub daily_per_ip : ℕ
  pub max_queue : ℕ
  pub max_running : ℕ
  pub lease_ms : ℕ
  pub storage_quota_bytes : ℕ
  pub runtime : Text

pub record WorkspaceDataCapabilities : Type 0 where
  pub persistence : Bool
  pub persistence_reason : Option String

abbrev pub is_persistent : StorageMode → Bool
is_persistent persistent = true
is_persistent disposable = false

-- `this.runtimeDataCapabilities?.persistence === false`, with the reason to give.
abbrev pub unsupported_reason : Option WorkspaceDataCapabilities → Option String
unsupported_reason none = none
unsupported_reason (some capabilities) =
    if capabilities.persistence
    then none
    else some (
        get_or_else capabilities.persistence_reason
          "Persistent storage is unavailable for this runtime")

abbrev pub throw_reason : Option String → ℕ → Result ServiceError (Unit {0})
throw_reason none status = ok tt
throw_reason (some reason) status = err (workspace_error reason status)

abbrev pub active_wallet : Text → WorkspaceRow → Bool
active_wallet wallet row = text_eq row.wallet wallet && is_active row.state

abbrev pub active_ip : Text → WorkspaceRow → Bool
active_ip ip_hash row = text_eq row.ip_hash ip_hash && is_active row.state

abbrev pub daily_wallet : Text → ℕ → WorkspaceRow → Bool
daily_wallet wallet since row = text_eq row.wallet wallet && leb since row.created_at

abbrev pub daily_ip : Text → ℕ → WorkspaceRow → Bool
daily_ip ip_hash since row = text_eq row.ip_hash ip_hash && leb since row.created_at

abbrev pub queued_row : WorkspaceRow → Bool
queued_row row = is_queued row.state

-- `24 * 60 * 60_000` before the clock.
abbrev pub since_of : ℕ → ℕ
since_of now = now - 86_400_000

unfoldable pub check_limits :
    Config → List WorkspaceRow → ℕ → Text → Text → Result ServiceError (Unit {0})
check_limits config rows now wallet ip_hash = do
  throw_if (leb config.max_active_per_wallet (count (active_wallet wallet) rows))
      (workspace_error "This wallet already has an active workspace" 409)
  throw_if (leb config.max_active_per_ip (count (active_ip ip_hash) rows))
      (workspace_error "This network has reached its active workspace limit" 429)
  throw_if (leb config.daily_per_wallet (count (daily_wallet wallet (since_of now)) rows))
      (workspace_error "This wallet has reached its 24-hour creation limit" 429)
  throw_if (leb config.daily_per_ip (count (daily_ip ip_hash (since_of now)) rows))
      (workspace_error "This network has reached its 24-hour creation limit" 429)
  throw_if (leb config.max_queue (count queued_row rows))
      (workspace_error "All workspace capacity and queue slots are currently in use" 503)

unfoldable pub get_or_create_persistent_volume :
    Config → Database → ℕ → Text → Text → Result ServiceError (Database × PersistentVolumeRow)
get_or_create_persistent_volume config db now volume_id wallet =
    let touch : PersistentVolumeRow → PersistentVolumeRow =
      λ volume. record volume { last_attached_at = now } in
    elim (find (is_live_volume wallet) db.volumes) [
      | some existing ↦ ok (
        record db {
          volumes =
              map (λ volume. if text_eq volume.id existing.id then touch volume else volume)
                db.volumes;
        },
        touch existing,
      )
      | none ↦ do
        let volume : PersistentVolumeRow = record {
          id = volume_id;
          wallet = wallet;
          quota_bytes = config.storage_quota_bytes;
          created_at = now;
          last_attached_at = now;
          destroyed_at = none;
        }
        stored ← insert_volume volume db
        ok (audit stored now (volume_created volume.quota_bytes) wallet none, volume)
    ]

-- The volume of a request: none for disposable storage.
unfoldable pub volume_for :
    Config
    → Database
    → ℕ
    → Text
    → Text
    → StorageMode
    → Result ServiceError (Database × Option PersistentVolumeRow)
volume_for config db now volume_id wallet disposable = ok (db, none)
volume_for config db now volume_id wallet persistent = do
  (stored, volume) ← get_or_create_persistent_volume config db now volume_id wallet
  ok (stored, some volume)

-- `volume?.id ?? null`, and `volume?.quota_bytes ?? this.config.storageQuotaBytes`.
abbrev pub volume_key : Option PersistentVolumeRow → Option Text
volume_key none = none
volume_key (some volume) = some volume.id

abbrev pub quota_of : Config → Option PersistentVolumeRow → ℕ
quota_of config none = config.storage_quota_bytes
quota_of config (some volume) = volume.quota_bytes

abbrev pub new_row :
    Config → ℕ → Text → Text → Text → StorageMode → Option PersistentVolumeRow → WorkspaceRow
new_row config now id wallet ip_hash mode volume = record {
  id = id;
  wallet = wallet;
  ip_hash = ip_hash;
  state = queued;
  runtime = config.runtime;
  created_at = now;
  lease_expires_at = now + config.lease_ms;
  stopped_at = none;
  failure = none;
  storage_mode = mode;
  volume_id = volume_key volume;
  storage_quota_bytes = quota_of config volume;
}

-- From `BEGIN IMMEDIATE` to `COMMIT`, for the wallet in lower case.
unfoldable pub transaction :
    Config
    → Database
    → ℕ
    → (id volume_id wallet ip_hash : Text) → StorageMode
    → Result ServiceError (Database × WorkspaceRow)
transaction config db now id volume_id wallet ip_hash mode = do
  check_limits config db.workspaces now wallet ip_hash
  (prepared, volume) ← volume_for config db now volume_id wallet mode
  let row = new_row config now id wallet ip_hash mode volume
  stored ← insert_workspace row prepared
  ok (
    audit stored now (requested row.runtime row.storage_mode row.storage_quota_bytes) wallet
        (some row.id),
    row,
  )

-- `create`, with the wallets whose volumes are being destroyed. `id` and `volume_id` are what
-- `randomUUID` draws.
unfoldable pub create :
    Config
    → Option WorkspaceDataCapabilities
    → Database
    → List Text
    → ℕ
    → (id volume_id wallet ip_hash : Text) → Option StorageMode
    → Result ServiceError (Database × WorkspaceRow)
create config capabilities db destroying now id volume_id wallet ip_hash storage = do
  let owner = map lower wallet
  let mode = get_or_else storage disposable
  throw_reason (if is_persistent mode then unsupported_reason capabilities else none) 501
  throw_if (is_persistent mode && any (λ w. text_eq w owner) destroying)
      (workspace_error "The persistent workspace volume is being destroyed" 409)
  transaction config db now id volume_id owner ip_hash mode
