-- ===== src/Workspace/Tests.antt =====
-- The theorems on workspaces at concrete inputs (src/control/workspaces.ts).
use bloom_workspaces.Base.{
  length, err, ◌+◌, ◌≤◌, ◌≡◌, refl, none, some, [], ◌∷◌, ◌++◌, map, lower, Text, codes, ok, count,
}
use bloom_workspaces.Workspace.Rows.{
  queued, running, disposable, WorkspaceRow, Database, workspace_error, requested, audit,
  insert_workspace, update_rows,
}
use bloom_workspaces.Workspace.Creation.{
  Config, create, transaction, check_limits, volume_for, active_wallet, active_ip, daily_wallet,
  daily_ip, since_of, queued_row,
}
use bloom_workspaces.Workspace.Lifecycle.{
  Service, reconcile, reconcile_at, stop_next, check_next, start_launching, launch, expire,
  create_given, create_given_at, create_result,
}
use bloom_workspaces.Workspace.Access.{
  owned_running, while_owned, data_operation, list_files, read_file, write_file, delete_file,
  start_job, cancel_job, ceremony_pending, ceremony_approve, issue_ssh, revoke_ssh, job_status,
  bloom_status, connections,
}
use bloom_workspaces.Workspace.Guarding.{IsGuarded, operations-IsGuarded}
use bloom_workspaces.Ssh.Contracts.{shell}
use bloom_workspaces.Workspace.Bounded.{IsWithin}
use bloom_workspaces.Workspace.Admission.{create-IsAdmitted}
use bloom_workspaces.Workspace.Steps.{here, next, created, reconciled, create_came, initial}
use bloom_workspaces.Workspace.Invariant.{Reach-IsWithin}

abbrev config : Config
config = record {
  max_active_per_wallet = 1;
  max_active_per_ip = 2;
  daily_per_wallet = 3;
  daily_per_ip = 4;
  max_queue = 5;
  max_running = 1;
  lease_ms = 1_000;
  storage_quota_bytes = 512;
  runtime = codes "qemu";
}

abbrev owner : Text
owner = codes "0xAB"

abbrev row : WorkspaceRow
row = record {
  id = codes "a";
  wallet = codes "0xab";
  ip_hash = codes "net";
  state = queued;
  runtime = codes "qemu";
  created_at = 100;
  lease_expires_at = 1_100;
  stopped_at = none;
  failure = none;
  storage_mode = disposable;
  volume_id = none;
  storage_quota_bytes = 512;
}

abbrev one_queued : Database
one_queued =
    audit (record { workspaces = row ∷ []; volumes = []; events = [] }) 100
      (requested (codes "qemu") disposable 512) (codes "0xab") (some (codes "a"))

create_run :
    create config none initial.db [] 100 (codes "a") (codes "v") owner (codes "net") none
    ≡ ok (one_queued, row)
unfolding create transaction check_limits volume_for insert_workspace
create_run = refl

create-IsAdmitted_example :
    (one_queued.workspaces ≡ [] ++ row ∷ [])
    × (row.state ≡ queued)
    × (row.wallet ≡ map lower owner)
    × (row.lease_expires_at ≡ 100 + 1_000)
    × (count (active_wallet (map lower owner)) one_queued.workspaces ≤ 1)
    × (count (active_ip (codes "net")) one_queued.workspaces ≤ 2)
    × (count (daily_wallet (map lower owner) (since_of 100)) one_queued.workspaces ≤ 3)
    × (count (daily_ip (codes "net") (since_of 100)) one_queued.workspaces ≤ 4)
    × (count queued_row one_queued.workspaces ≤ 5)
create-IsAdmitted_example =
    create-IsAdmitted config none initial.db one_queued [] 100 (codes "a") (codes "v") owner
      (codes "net") none row create_run

abbrev requested_once : Service
requested_once = record initial { db = one_queued }

abbrev after_launch : Service
after_launch = create_given (reconcile config requested_once 200) 300 (ok tt)

launch_run : map (λ r. r.state) after_launch.db.workspaces ≡ running ∷ []
unfolding audit update_rows reconcile reconcile_at stop_next check_next start_launching launch
    expire create_given create_given_at create_result
launch_run = refl

Reach-IsWithin_example : IsWithin config after_launch
Reach-IsWithin_example = Reach-IsWithin config none after_launch (
    next
      (next
        (next here
          (created 100 (codes "a") (codes "v") owner (codes "net") none one_queued row create_run))
        (reconciled 200))
      (create_came 300 (ok tt)))

abbrev one_running : Database
one_running = record { workspaces = record row { state = running } ∷ []; volumes = []; events = [] }

operations-IsGuarded_example :
    IsGuarded one_running 200 owner
      (codes "a")
      "list"
      (list_files one_running 200 owner (codes "a") (codes "notes"))
    × IsGuarded one_running 200 owner
        (codes "a")
        "download"
        (read_file one_running 200 owner (codes "a") (codes "notes"))
    × IsGuarded one_running 200 owner
        (codes "a")
        "upload"
        (write_file one_running 200 owner (codes "a") (codes "notes") 5)
    × IsGuarded one_running 200 owner
        (codes "a")
        "delete"
        (delete_file one_running 200 owner (codes "a") (codes "notes"))
    × IsGuarded one_running 200 owner
        (codes "a")
        "job_start"
        (start_job one_running 200 owner (codes "a") 2)
    × IsGuarded one_running 200 owner
        (codes "a")
        "job_cancel"
        (cancel_job one_running 200 owner (codes "a") (codes "j"))
    × IsGuarded one_running 200 owner
        (codes "a")
        "ceremony_pending"
        (ceremony_pending one_running 200 owner (codes "a"))
    × IsGuarded one_running 200 owner
        (codes "a")
        "ceremony_approve"
        (ceremony_approve one_running 200 owner (codes "a") (codes "t"))
    × IsGuarded one_running 200 owner
        (codes "a")
        "ssh_issue"
        (issue_ssh one_running 200 owner (codes "a") shell)
    × IsGuarded one_running 200 owner
        (codes "a")
        "ssh_revoke"
        (revoke_ssh one_running 200 owner (codes "a") (codes "l"))
    × IsGuarded one_running 200 owner
        (codes "a")
        "job_status"
        (job_status one_running 200 owner (codes "a"))
    × IsGuarded one_running 200 owner
        (codes "a")
        "bloom_status"
        (bloom_status one_running 200 owner (codes "a"))
    × IsGuarded one_running 200 owner
        (codes "a")
        "connections"
        (connections one_running 200 owner (codes "a"))
operations-IsGuarded_example =
    operations-IsGuarded one_running 200 owner (codes "a") (codes "notes") (codes "j") (codes "t")
      (codes "l") 5 2 shell

-- The owner's workspace runs: the agent is asked for `a`; another wallet is refused without asking.
list_files_runs :
    ((list_files one_running 200 owner
        (codes "a")
        (codes "notes")
        (λ asked db. record { db = db; now = 210; reply = ok (length asked) })).1
      ≡ ok 1)
    × ((list_files one_running 200
          (codes "0xCD")
          (codes "a")
          (codes "notes")
          (λ asked db. record { db = db; now = 210; reply = ok (length asked) })).1
        ≡ err (workspace_error "Workspace not found" 404))
unfolding list_files while_owned owned_running data_operation
list_files_runs = (refl, refl)
