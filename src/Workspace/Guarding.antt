-- ===== src/Workspace/Guarding.antt =====
-- The operations on a workspace are its owner's (src/control/workspaces.ts).
use bloom_workspaces.Base.{
  ℕ, ◌<◌, ◌≡◌, refl, sym, ap, ◌∙◌, subst, true, false, ◌||◌, not, Option, none, some, map, Text,
  text_eq_iff, lower, leb, arith, Option-cases, Bool-cases, inl, inr, ◌⊎◌, Result, ok, err, find,
  find-true,
}
use bloom_workspaces.Ssh.Contracts.{SshAccessMode}
use bloom_workspaces.Workspace.Rows.{
  running, WorkspaceRow, Database, is_running, AgentFailure, AuditKind, ServiceError,
  workspace_error, audit, file_denied,
}
use bloom_workspaces.Workspace.Access.{
  owned_row, owned_running, agent_workspace_error, data_operation, agent_operation, Awaited,
  AgentCall, while_owned, list_files, read_file, write_file, delete_file, start_job, cancel_job,
  ceremony_pending, ceremony_approve, issue_ssh, revoke_ssh, job_status, bloom_status, connections,
}
use Prim.Native.String.{String}

-- The row of the workspace, which is the wallet's, runs, and has a lease that has not ended.
pub record IsOwned (db : Database) (now : ℕ) (wallet id : Text) (row : WorkspaceRow) : Type 0 where
  pub found : find (owned_row id (map lower wallet)) db.workspaces ≡ some row
  pub same_id : row.id ≡ id
  pub same_wallet : row.wallet ≡ map lower wallet
  pub runs : row.state ≡ running
  pub live : now < row.lease_expires_at

-- A row that was found passes the test of `ownedRunning` exactly when it is owned.
tested-IsOwned :
    (db : Database) (now : ℕ) (wallet id : Text) (row : WorkspaceRow)
    → find (owned_row id (map lower wallet)) db.workspaces ≡ some row
    → (not (is_running row.state) || leb row.lease_expires_at now) ≡ false
    → IsOwned db now wallet id row
tested-IsOwned db now wallet id row found tested =
    let owned = find-true (owned_row id (map lower wallet)) db.workspaces found in
    record {
      found = found;
      same_id = (text_eq_iff row.id id).0 (ground arith);
      same_wallet = (text_eq_iff row.wallet (map lower wallet)).0 (ground arith);
      runs = ground arith;
      live = ground arith;
    }

not-IsOwned :
    (db : Database) (now : ℕ) (wallet id : Text) (row other : WorkspaceRow)
    → find (owned_row id (map lower wallet)) db.workspaces ≡ some row
    → (not (is_running row.state) || leb row.lease_expires_at now) ≡ true
    → ¬ IsOwned db now wallet id other
not-IsOwned db now wallet id row other found tested v =
    let same : row ≡ other = some_injective (sym found ∙ v.found) in
    let again : (not (is_running other.state) || leb other.lease_expires_at now) ≡ true =
      subst (λ r. (not (is_running r.state) || leb r.lease_expires_at now) ≡ true) same tested in
    let runs = v.runs in let live = v.live in ground arith
  where
    some_injective : {a b : WorkspaceRow} → some a ≡ some b → a ≡ b
    some_injective h = cc

-- What a client gets of the agent's reply.
abbrev pub answer_of : {A : Type 0} → Result AgentFailure A → Result ServiceError A
answer_of (ok value) = ok value
answer_of (err failure) = err (agent_workspace_error failure)

-- An operation `run`: there is a row that it may work on, and its answer is the reply of the agent that
-- was called for this row with the tables as they were; or there is none, and whatever the agent
-- would do, it fails with 404 or 409, and audits the denial.
abbrev pub IsGuarded :
    {A : Type 0}
    → Database
    → ℕ
    → Text
    → Text
    → String
    → (AgentCall A → Database × Result ServiceError A)
    → Type 0
IsGuarded {A} db now wallet id operation run =
    ((row : WorkspaceRow) × IsOwned db now wallet id row
      × ((agent : AgentCall A) → (run agent).1 ≡ answer_of (agent id db).reply))
    ⊎ (((row : WorkspaceRow) → ¬ IsOwned db now wallet id row)
        × (reason : String) × (message : String) × (status : ℕ) × (((status ≡ 404)
              × (find (owned_row id (map lower wallet)) db.workspaces ≡ none))
            ⊎ ((status ≡ 409)
                × (row : WorkspaceRow) × (find (owned_row id (map lower wallet)) db.workspaces
                    ≡ some row)))
        × ((agent : AgentCall A)
            → run agent ≡ (
              audit db now (file_denied operation reason) (map lower wallet) (some id),
              err (workspace_error message status),
            )))

data_operation-reply :
    {A : Type 0} (db : Database) (now : ℕ) (row : WorkspaceRow) (operation : String) (path : Text)
    (done : A → AuditKind) (reply : Result AgentFailure A)
    → (data_operation db now row operation path done reply).1 ≡ answer_of reply
unfolding data_operation
data_operation-reply db now row operation path done (ok value) = refl
data_operation-reply db now row operation path done (err failure) = refl

agent_operation-reply :
    {A : Type 0} (db : Database) (now : ℕ) (row : WorkspaceRow) (done : A → Option AuditKind)
    (reply : Result AgentFailure A)
    → (agent_operation db now row done reply).1 ≡ answer_of reply
unfolding agent_operation
agent_operation-reply db now row done (err failure) = refl
agent_operation-reply db now row done (ok value) = elim (Option-cases (done value)) [
  | inl quiet ↦ rw (quiet, agent_operation) refl
  | inr (kind, audited) ↦ rw (audited, agent_operation) refl
]

owned_running-none :
    (db : Database) (now : ℕ) (wallet id : Text) (operation : String)
    → find (owned_row id (map lower wallet)) db.workspaces ≡ none
    → owned_running db now wallet id operation ≡ (
      audit db now (file_denied operation "not_owner") (map lower wallet) (some id),
      err (workspace_error "Workspace not found" 404),
    )
unfolding owned_running
owned_running-none db now wallet id operation absent = rw (absent, owned_running) refl

owned_running-refused :
    (db : Database) (now : ℕ) (wallet id : Text) (operation : String) (row : WorkspaceRow)
    → find (owned_row id (map lower wallet)) db.workspaces ≡ some row
    → (not (is_running row.state) || leb row.lease_expires_at now) ≡ true
    → owned_running db now wallet id operation ≡ (
      audit db now (file_denied operation "not_running") (map lower wallet) (some id),
      err (workspace_error "Workspace is not running" 409),
    )
unfolding owned_running
owned_running-refused db now wallet id operation row found bad =
    rw (found, owned_running) (rw bad refl)

owned_running-given :
    (db : Database) (now : ℕ) (wallet id : Text) (operation : String) (row : WorkspaceRow)
    → find (owned_row id (map lower wallet)) db.workspaces ≡ some row
    → (not (is_running row.state) || leb row.lease_expires_at now) ≡ false
    → owned_running db now wallet id operation ≡ (db, ok row)
unfolding owned_running
owned_running-given db now wallet id operation row found good =
    rw (found, owned_running) (rw good refl)

guarded :
    {A : Type 0} (db : Database) (now : ℕ) (wallet id : Text) (operation : String)
    (finish : WorkspaceRow → Awaited A → Database × Result ServiceError A)
    → ((row : WorkspaceRow) (w : Awaited A) → (finish row w).1 ≡ answer_of w.reply)
    → IsGuarded db now wallet id operation
        (while_owned (owned_running db now wallet id operation) finish)
unfolding while_owned
guarded db now wallet id operation finish h =
    elim (Option-cases (find (owned_row id (map lower wallet)) db.workspaces)) [
      | inl absent ↦ inr (
        λ row v. cc (sym absent ∙ v.found),
        "not_owner",
        "Workspace not found",
        404,
        inl (refl, absent),
        λ agent.
            ap (λ o. while_owned o finish agent)
              (owned_running-none db now wallet id operation absent),
      )
      | inr (row, found) ↦
          elim (Bool-cases (not (is_running row.state) || leb row.lease_expires_at now)) [
            | inl bad ↦ inr (
              λ other. not-IsOwned db now wallet id row other found bad,
              "not_running",
              "Workspace is not running",
              409,
              inr (refl, row, found),
              λ agent.
                  ap (λ o. while_owned o finish agent)
                    (owned_running-refused db now wallet id operation row found bad),
            )
            | inr good ↦
                let v = tested-IsOwned db now wallet id row found good in
                inl (
                  row,
                  v,
                  λ agent.
                      subst
                        (λ x.
                          (while_owned (owned_running db now wallet id operation) finish agent).1
                          ≡ answer_of (agent x db).reply)
                        v.same_id
                        (ap (λ o. (while_owned o finish agent).1)
                            (owned_running-given db now wallet id operation row found good)
                          ∙ h row (agent row.id db)),
                )
          ]
    ]

-- Each operation on a workspace: either the workspace is a row of the table that has the id, belongs
-- to the wallet in lower case and runs, and whose lease has not ended, and then the operation
-- answers what the agent replies to the call for this id, a failure translated; or there is no such
-- row, and then, whatever the agent would do, it answers 404 or 409 and only adds the denial to the
-- events.
pub operations-IsGuarded :
    (db : Database) (now : ℕ) (wallet id path job_id tx_id lease_id : Text) (bytes argv_count : ℕ)
    (mode : SshAccessMode)
    → IsGuarded db now wallet id "list" (list_files db now wallet id path)
      × IsGuarded db now wallet id "download" (read_file db now wallet id path)
      × IsGuarded db now wallet id "upload" (write_file db now wallet id path bytes)
      × IsGuarded db now wallet id "delete" (delete_file db now wallet id path)
      × IsGuarded db now wallet id "job_start" (start_job db now wallet id argv_count)
      × IsGuarded db now wallet id "job_cancel" (cancel_job db now wallet id job_id)
      × IsGuarded db now wallet id "ceremony_pending" (ceremony_pending db now wallet id)
      × IsGuarded db now wallet id "ceremony_approve" (ceremony_approve db now wallet id tx_id)
      × IsGuarded db now wallet id "ssh_issue" (issue_ssh db now wallet id mode)
      × IsGuarded db now wallet id "ssh_revoke" (revoke_ssh db now wallet id lease_id)
      × IsGuarded db now wallet id "job_status" (job_status db now wallet id)
      × IsGuarded db now wallet id "bloom_status" (bloom_status db now wallet id)
      × IsGuarded db now wallet id "connections" (connections db now wallet id)
unfolding list_files read_file write_file delete_file start_job cancel_job ceremony_pending
    ceremony_approve issue_ssh revoke_ssh job_status bloom_status connections
operations-IsGuarded db now wallet id path job_id tx_id lease_id bytes argv_count mode = (
  guarded db now wallet id "list" _
      (λ row w. data_operation-reply w.db w.now row "list" path _ w.reply),
  guarded db now wallet id "download" _
      (λ row w. data_operation-reply w.db w.now row "download" path _ w.reply),
  guarded db now wallet id "upload" _
      (λ row w. data_operation-reply w.db w.now row "upload" path _ w.reply),
  guarded db now wallet id "delete" _
      (λ row w. data_operation-reply w.db w.now row "delete" path _ w.reply),
  guarded db now wallet id "job_start" _ (λ row w. agent_operation-reply w.db w.now row _ w.reply),
  guarded db now wallet id "job_cancel" _ (λ row w. agent_operation-reply w.db w.now row _ w.reply),
  guarded db now wallet id "ceremony_pending" _
      (λ row w. agent_operation-reply w.db w.now row _ w.reply),
  guarded db now wallet id "ceremony_approve" _
      (λ row w. agent_operation-reply w.db w.now row _ w.reply),
  guarded db now wallet id "ssh_issue" _ (λ row w. agent_operation-reply w.db w.now row _ w.reply),
  guarded db now wallet id "ssh_revoke" _ (λ row w. agent_operation-reply w.db w.now row _ w.reply),
  guarded db now wallet id "job_status" _ (λ row w. agent_operation-reply w.db w.now row _ w.reply),
  guarded db now wallet id "bloom_status" _
      (λ row w. agent_operation-reply w.db w.now row _ w.reply),
  guarded db now wallet id "connections" _
      (λ row w. agent_operation-reply w.db w.now row _ w.reply),
)
