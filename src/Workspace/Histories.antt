-- ===== src/Workspace/Histories.antt =====
-- Creation, reconciliation, and every history of calls of src/control/workspaces.ts.
use bloom_workspaces.Base.{
  ℕ, ◌≤◌, ◌≡◌, false, ◌&&◌, Option, [], ◌∷◌, ◌++◌, Text, leb, any, arith, Bool-cases, Option-cases,
  inl, inr, filter_by, Result, ok, err, >>=-eq-ok, find,
}
use bloom_workspaces.Workspace.Rows.{
  WorkspaceRow, PersistentVolumeRow, Database, update_rows, audit, AgentFailure, RuntimeState,
  runtime_running, runtime_stopped, runtime_failed, runtime_missing, StorageMode, disposable,
  persistent, insert_workspace, insert_volume, is_live_volume, is_stoppable, is_stopping,
  is_provisioning, is_occupied,
}
use bloom_workspaces.Workspace.Creation.{
  Config, check_limits, get_or_create_persistent_volume, volume_for, new_row, transaction,
}
use bloom_workspaces.Workspace.Lifecycle.{
  has_id, Service, Phase, idle, stopping_rows, checking_rows, launching, mark_failed, expire,
  reconcile_at, stop_awaited_at, status_result, status_given_at, create_result, create_given_at,
}
use bloom_workspaces.Workspace.Limits.{
  IsBounded, IsBounded-spare, quiet-IsBounded, failed-IsSettling,
}
use bloom_workspaces.Workspace.Bounded.{
  IsWithin, spare, to_stopping-IsBounded, to_running-IsBounded, launch-IsWithin,
  check_next-IsWithin, stop_next-IsWithin,
}

module _ (config : Config) where
  pub reconcile-IsWithin :
      (s : Service) (now : ℕ) (p : Phase)
      → IsWithin config s
      → IsWithin config (reconcile_at config s now p)
  unfolding reconcile_at expire
  reconcile-IsWithin s now idle v =
      stop_next-IsWithin config (record s { db = expire s.db now }) now
        (filter_by (λ row. is_stopping row.state) (expire s.db now).workspaces)
        (to_stopping-IsBounded config
          (λ row. is_stoppable row.state && leb row.lease_expires_at now) s.db 0
          (λ r h. ground arith)
          (IsBounded-spare config s.db.workspaces (spare s.phase) 0 (omega arith) v))
  reconcile-IsWithin s now (stopping_rows row rows) v = v
  reconcile-IsWithin s now (checking_rows row rows) v = v
  reconcile-IsWithin s now (launching row n) v = v

  pub stop_awaited-IsWithin :
      (s : Service) (now : ℕ) (p : Phase)
      → IsWithin config s
      → IsWithin config (stop_awaited_at config s now p)
  unfolding stop_awaited_at
  stop_awaited-IsWithin s now (stopping_rows row rows) v =
      stop_next-IsWithin config s now rows
        (IsBounded-spare config s.db.workspaces (spare s.phase) 0 (omega arith) v)
  stop_awaited-IsWithin s now idle v = v
  stop_awaited-IsWithin s now (checking_rows row rows) v = v
  stop_awaited-IsWithin s now (launching row n) v = v

  lost-IsBounded :
      (id : Text) (now : ℕ) (db : Database)
      → IsBounded config db.workspaces 0
      → IsBounded config
          (update_rows (λ r. has_id id r && is_occupied r.state) (mark_failed now) db).workspaces
          0
  unfolding update_rows
  lost-IsBounded id now db v =
      quiet-IsBounded config (λ r. has_id id r && is_occupied r.state) (mark_failed now)
        db.workspaces (failed-IsSettling now id) 0 (λ r e h. ground arith) v

  status_result-IsBounded :
      (db : Database) (now : ℕ) (row : WorkspaceRow) (reply : Result AgentFailure RuntimeState)
      → IsBounded config db.workspaces 0
      → IsBounded config (status_result db now row reply).workspaces 0
  unfolding status_result audit
  status_result-IsBounded db now row (err failure) v = v
  status_result-IsBounded db now row (ok runtime_running) v =
      elim (Bool-cases (is_provisioning row.state)) [
        | inl e ↦ rw (e, status_result) (to_running-IsBounded config row.id db 0 v)
        | inr e ↦ rw (e, status_result) v
      ]
  status_result-IsBounded db now row (ok runtime_stopped) v = lost-IsBounded row.id now db v
  status_result-IsBounded db now row (ok runtime_failed) v = lost-IsBounded row.id now db v
  status_result-IsBounded db now row (ok runtime_missing) v = lost-IsBounded row.id now db v

  pub status_given-IsWithin :
      (s : Service) (now : ℕ) (reply : Result AgentFailure RuntimeState) (p : Phase)
      → IsWithin config s
      → IsWithin config (status_given_at config s now reply p)
  unfolding status_given_at
  status_given-IsWithin s now reply (checking_rows row rows) v =
      check_next-IsWithin config (record s { db = status_result s.db now row reply }) now rows
        (status_result-IsBounded s.db now row reply
          (IsBounded-spare config s.db.workspaces (spare s.phase) 0 (omega arith) v))
  status_given-IsWithin s now reply idle v = v
  status_given-IsWithin s now reply (stopping_rows row rows) v = v
  status_given-IsWithin s now reply (launching row n) v = v

  create_result-IsBounded :
      (db : Database) (now : ℕ) (row : WorkspaceRow) (reply : Result AgentFailure (Unit {0}))
      (n : ℕ)
      → IsBounded config db.workspaces n
      → IsBounded config (create_result db now row reply).workspaces n
  unfolding create_result audit
  create_result-IsBounded db now row (err failure) n v = v
  create_result-IsBounded db now row (ok done) n v = to_running-IsBounded config row.id db n v

  pub create_given-IsWithin :
      (s : Service) (now : ℕ) (reply : Result AgentFailure (Unit {0})) (p : Phase)
      → spare p ≤ spare s.phase
      → IsWithin config s
      → IsWithin config (create_given_at s now reply p)
  unfolding create_given_at
  create_given-IsWithin s now reply (launching row n) h v =
      launch-IsWithin config (record s { db = create_result s.db now row reply }) now n
        (create_result-IsBounded s.db now row reply n
          (IsBounded-spare config s.db.workspaces (spare s.phase) n h v))
  create_given-IsWithin s now reply idle h v = v
  create_given-IsWithin s now reply (stopping_rows row rows) h v = v
  create_given-IsWithin s now reply (checking_rows row rows) h v = v

-- The rows after a creation: the old ones and, last, the new one.
get_or_create_persistent_volume-rows :
    (config : Config) (db db' : Database) (now : ℕ) (volume_id wallet : Text)
    (volume : PersistentVolumeRow)
    → get_or_create_persistent_volume config db now volume_id wallet ≡ ok (db', volume)
    → db'.workspaces ≡ db.workspaces
unfolding get_or_create_persistent_volume insert_volume audit
get_or_create_persistent_volume-rows config db db' now volume_id wallet volume e =
    elim (Option-cases (find (is_live_volume wallet) db.volumes)) [
      | inr (existing, found) ↦ ground arith
      | inl absent ↦ ground arith
    ]

volume_for-rows :
    (config : Config) (db db' : Database) (now : ℕ) (volume_id wallet : Text) (mode : StorageMode)
    (volume : Option PersistentVolumeRow)
    → volume_for config db now volume_id wallet mode ≡ ok (db', volume)
    → db'.workspaces ≡ db.workspaces
unfolding volume_for
volume_for-rows config db db' now volume_id wallet disposable volume e = ground arith
volume_for-rows config db db' now volume_id wallet persistent volume e =
    let ((stored, v), given, rest) =
      >>=-eq-ok (get_or_create_persistent_volume config db now volume_id wallet) _ e in
    let same = get_or_create_persistent_volume-rows config db stored now volume_id wallet v given in
    ground arith

pub transaction-rows :
    (config : Config) (db db' : Database) (now : ℕ) (id volume_id wallet ip_hash : Text)
    (mode : StorageMode) (row : WorkspaceRow)
    → transaction config db now id volume_id wallet ip_hash mode ≡ ok (db', row)
    → (check_limits config db.workspaces now wallet ip_hash ≡ ok tt)
      × (any (has_id id) db.workspaces ≡ false)
      × (db'.workspaces ≡ db.workspaces ++ row ∷ [])
      × (volume : Option PersistentVolumeRow) × (row
          ≡ new_row config now id wallet ip_hash mode volume)
unfolding transaction insert_workspace audit
transaction-rows config db db' now id volume_id wallet ip_hash mode row e =
    let (u, within, after) = >>=-eq-ok (check_limits config db.workspaces now wallet ip_hash) _ e in
    let ((prepared, volume), kept, rest) =
      >>=-eq-ok (volume_for config db now volume_id wallet mode) _ after in
    let same = volume_for-rows config db prepared now volume_id wallet mode volume kept in
    (within, ground arith, ground arith, volume, ground arith)
