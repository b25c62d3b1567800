-- ===== src/Workspace/Bounded.antt =====
-- The limits hold after every history of calls of src/control/workspaces.ts.
use bloom_workspaces.Base.{
  ℕ, zero, suc, ◌-◌, ◌≡◌, Bool, true, ◌&&◌, ◌||◌, List, [], ◌∷◌, map, Text, text_eq, lower, ltb,
  ◌==◌, count, any, arith, Bool-cases, Option-cases, inl, inr, filter_by, Result, ok, err,
}
use bloom_workspaces.Workspace.Rows.{
  provisioning, running, stopping, WorkspaceRow, Database, update_row, update_rows, is_queued,
  is_provisioning, is_stopping, is_occupied, is_stoppable, audit, AgentFailure,
}
use bloom_workspaces.Workspace.Creation.{Config}
use bloom_workspaces.Workspace.Lifecycle.{
  has_id, to_state, mark_stopped, stoppable_row, Service, Phase, idle, stopping_rows, checking_rows,
  launching, StopOperation, begin_stop, finish_stop, stop_current, launch, start_launching,
  check_next, stop_next, newest, oldest, active_of,
}
use bloom_workspaces.Workspace.Counting.{count_mono, count-claim}
use bloom_workspaces.Workspace.Limits.{
  occupied_row, IsBounded, IsBounded-spare, settle-IsBounded, quiet-IsBounded, stopping-IsSettling,
  running-IsSettling, claim-IsSettling, stopped-IsSettling,
}
use Prim.Native.String.{String}

-- How many workspaces the reconciliation may still claim.
abbrev pub spare : Phase → ℕ
spare idle = 0
spare (stopping_rows row rows) = 0
spare (checking_rows row rows) = 0
spare (launching row capacity) = capacity

abbrev pub IsWithin : Config → Service → Type 0
IsWithin config s = IsBounded config s.db.workspaces (spare s.phase)

module _ (config : Config) where
  pub to_stopping-IsBounded :
      (q : WorkspaceRow → Bool) (db : Database) (n : ℕ)
      → ((r : WorkspaceRow) → q r ≡ true → is_stoppable r.state ≡ true)
      → IsBounded config db.workspaces n
      → IsBounded config (update_rows q (to_state stopping) db).workspaces n
  unfolding update_rows
  to_stopping-IsBounded q db n only v =
      quiet-IsBounded config q (to_state stopping) db.workspaces (stopping-IsSettling q only) n
        (λ r e h. ground arith) v

  pub to_running-IsBounded :
      (id : Text) (db : Database) (n : ℕ)
      → IsBounded config db.workspaces n
      → IsBounded config
          (update_rows
            (λ r. has_id id r && is_provisioning r.state)
            (to_state running)
            db).workspaces
          n
  unfolding update_rows
  to_running-IsBounded id db n v =
      quiet-IsBounded config (λ r. has_id id r && is_provisioning r.state) (to_state running)
        db.workspaces (running-IsSettling id) n (λ r e h. ground arith) v

  begin_stop-IsWithin :
      (s : Service) (row : WorkspaceRow) (reason : String)
      → IsWithin config s
      → IsWithin config (begin_stop s row reason)
  unfolding begin_stop
  begin_stop-IsWithin s row reason v =
      elim (Bool-cases (any (λ op. text_eq op.row.id row.id) s.stops)) [
        | inl e ↦ rw (e, begin_stop) v
        | inr e ↦ rw (e, begin_stop) v
      ]

  pub finish_stop-IsWithin :
      (s : Service) (now : ℕ) (op : StopOperation) (reply : Result AgentFailure (Unit {0}))
      → IsWithin config s
      → IsWithin config (finish_stop s now op reply)
  unfolding finish_stop audit update_rows
  finish_stop-IsWithin s now op (err failure) v = v
  finish_stop-IsWithin s now op (ok done) v =
      let after =
        quiet-IsBounded config (stoppable_row op.row.id) (mark_stopped now) s.db.workspaces
          (stopped-IsSettling now op.row.id) (spare s.phase) (λ r e h. ground arith) v in
      elim (Bool-cases (count (stoppable_row op.row.id) s.db.workspaces == 1)) [
        | inl e ↦ rw (e, finish_stop) after
        | inr e ↦ rw (e, finish_stop) after
      ]

  pub stop_current-IsWithin :
      (s : Service) (wallet : Text) → IsWithin config s → IsWithin config (stop_current s wallet)
  unfolding stop_current
  stop_current-IsWithin s wallet v =
      elim (Option-cases (newest (filter_by (active_of (map lower wallet)) s.db.workspaces))) [
        | inl e ↦ rw (e, stop_current) v
        | inr (row, e) ↦
            rw (e, stop_current)
              (begin_stop-IsWithin _ row "owner" (
                to_stopping-IsBounded (λ r. has_id row.id r && is_stoppable r.state) s.db
                  (spare s.phase) (λ r h. ground arith) v))
      ]

  -- A claim of one row takes one of the spare places.
  claim-IsBounded :
      (id : Text) (rows : List WorkspaceRow) (n : ℕ)
      → IsBounded config rows (suc n)
      → IsBounded config
          (map (update_row (λ r. has_id id r && is_queued r.state) (to_state provisioning)) rows)
          n
  claim-IsBounded id rows n v =
      let claim : WorkspaceRow → Bool = λ r. has_id id r && is_queued r.state in
      settle-IsBounded config claim (to_state provisioning) rows (claim-IsSettling id) (suc n) n v (
        omega (
          arith,
          v.occupied,
          v.ids id,
          count_mono claim (has_id id) rows (λ r h. ground arith),
          count-claim occupied_row claim (to_state provisioning) rows,
        ))

  pub launch-IsWithin :
      (s : Service) (now capacity : ℕ)
      → IsBounded config s.db.workspaces capacity
      → IsWithin config (launch s now capacity)
  unfolding launch update_rows
  launch-IsWithin s now zero v = v
  launch-IsWithin s now (suc n) v =
      elim (Option-cases (
        oldest (
          filter_by (λ row. is_queued row.state && ltb now row.lease_expires_at)
            s.db.workspaces))) [
              | inl e ↦
                  rw (e, launch) (IsBounded-spare config s.db.workspaces (suc n) 0 (omega arith) v)
              | inr (row, e) ↦
                  let claim : WorkspaceRow → Bool = λ r. has_id row.id r && is_queued r.state in
                  let claimed = claim-IsBounded row.id s.db.workspaces n v in
                  elim (Bool-cases (count claim s.db.workspaces == 1)) [
                    | inl one ↦ rw (e, launch) (rw one claimed)
                    | inr other ↦
                        rw (e, launch)
                          (rw other (
                            launch-IsWithin
                              (record s { db = update_rows claim (to_state provisioning) s.db }) now
                              n claimed))
                  ]
            ]

  start_launching-IsWithin :
      (s : Service) (now : ℕ)
      → IsBounded config s.db.workspaces 0
      → IsWithin config (start_launching config s now)
  unfolding start_launching
  start_launching-IsWithin s now v =
      let taken : WorkspaceRow → Bool = λ row. is_occupied row.state || is_stopping row.state in
      launch-IsWithin s now (config.max_running - count taken s.db.workspaces) (record {
        ids = v.ids;
        wallets = v.wallets;
        networks = v.networks;
        queue = v.queue;
        occupied = omega (
          arith,
          v.occupied,
          count_mono occupied_row taken s.db.workspaces (λ r h. ground arith),
        );
      })

  pub check_next-IsWithin :
      (s : Service) (now : ℕ) (rows : List WorkspaceRow)
      → IsBounded config s.db.workspaces 0
      → IsWithin config (check_next config s now rows)
  unfolding check_next
  check_next-IsWithin s now [] v = start_launching-IsWithin s now v
  check_next-IsWithin s now (row ∷ rows) v = v

  pub stop_next-IsWithin :
      (s : Service) (now : ℕ) (rows : List WorkspaceRow)
      → IsBounded config s.db.workspaces 0
      → IsWithin config (stop_next config s now rows)
  unfolding stop_next begin_stop
  stop_next-IsWithin s now [] v =
      check_next-IsWithin s now (filter_by (λ row. is_occupied row.state) s.db.workspaces) v
  stop_next-IsWithin s now (row ∷ rows) v =
      elim (Bool-cases (any (λ op. text_eq op.row.id row.id) s.stops)) [
        | inl e ↦ rw (e, begin_stop) v
        | inr e ↦ rw (e, begin_stop) v
      ]
