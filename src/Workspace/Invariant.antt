-- ===== src/Workspace/Invariant.antt =====
-- The limits of src/control/workspaces.ts after every history of its calls.
use bloom_workspaces.Base.{
  ℕ, ◌≡◌, subst, Option, Text, arith, ok, err, Result, map, lower, find, inl, inr, Option-cases,
}
use bloom_workspaces.Workspace.Rows.{PersistentVolumeRow, AgentFailure, audit, is_live_volume}
use bloom_workspaces.Workspace.Creation.{Config, WorkspaceDataCapabilities}
use bloom_workspaces.Workspace.Lifecycle.{
  Service, reconcile, stop_awaited, status_given, create_given,
}
use bloom_workspaces.Workspace.Access.{begin_destroy, finish_destroy}
use bloom_workspaces.Workspace.Limits.{IsBounded}
use bloom_workspaces.Workspace.Bounded.{
  IsWithin, spare, finish_stop-IsWithin, stop_current-IsWithin,
}
use bloom_workspaces.Workspace.Histories.{
  reconcile-IsWithin, stop_awaited-IsWithin, status_given-IsWithin, create_given-IsWithin,
}
use bloom_workspaces.Workspace.Admission.{create-IsBounded}
use bloom_workspaces.Workspace.Steps.{
  Step, created, stop_asked, stop_done, reconciled, went_on, status_came, create_came,
  destroy_begun, destroy_done, Reach, here, next, initial,
}

-- Volumes are destroyed without a change to the rows or to the phase.
begin_destroy-IsWithin :
    (config : Config) (s t : Service) (wallet : Text) (volume : PersistentVolumeRow)
    → begin_destroy s wallet ≡ ok (t, volume)
    → IsWithin config s
    → IsWithin config t
unfolding begin_destroy
begin_destroy-IsWithin config s t wallet volume e v =
    elim (Option-cases (find (is_live_volume (map lower wallet)) s.db.volumes)) [
      | inl absent ↦ absurd (ground arith)
      | inr (u, found) ↦
          let rows : s.db.workspaces ≡ t.db.workspaces = ground arith in
          let phase : s.phase ≡ t.phase = ground arith in
          subst (λ x. IsBounded config t.db.workspaces (spare x)) phase
            (subst (λ x. IsBounded config x (spare s.phase)) rows v)
    ]

finish_destroy-IsWithin :
    (config : Config) (s : Service) (now : ℕ) (volume : PersistentVolumeRow)
    (reply : Result AgentFailure (Unit {0}))
    → IsWithin config s
    → IsWithin config (finish_destroy s now volume reply).0
unfolding finish_destroy audit
finish_destroy-IsWithin config s now volume (err failure) v = v
finish_destroy-IsWithin config s now volume (ok done) v = v

module _ (config : Config) (capabilities : Option WorkspaceDataCapabilities) where
  Step-IsWithin :
      (s t : Service) → Step config capabilities s t → IsWithin config s → IsWithin config t
  unfolding reconcile stop_awaited status_given create_given
  Step-IsWithin s t (created now id volume_id wallet ip_hash storage db row e) v =
      create-IsBounded config capabilities s.db db s.destroying now id volume_id wallet ip_hash
        storage row (spare s.phase) e v
  Step-IsWithin s t (stop_asked wallet) v = stop_current-IsWithin config s wallet v
  Step-IsWithin s t (stop_done now op reply) v = finish_stop-IsWithin config s now op reply v
  Step-IsWithin s t (reconciled now) v = reconcile-IsWithin config s now s.phase v
  Step-IsWithin s t (went_on now) v = stop_awaited-IsWithin config s now s.phase v
  Step-IsWithin s t (status_came now reply) v = status_given-IsWithin config s now reply s.phase v
  Step-IsWithin s t (create_came now reply) v =
      create_given-IsWithin config s now reply s.phase (omega arith) v
  Step-IsWithin s t (destroy_begun wallet u volume e) v =
      begin_destroy-IsWithin config s t wallet volume e v
  Step-IsWithin s t (destroy_done now volume reply u r e) v =
      subst (λ p. IsWithin config p.0) e (finish_destroy-IsWithin config s now volume reply v)

  -- After every interleaving of creations, stops, reconciliation and destroyed volumes over empty
  -- tables: the ids differ, no wallet and no network has more active workspaces than its limit,
  -- the queue is within its length, and the workspaces that run or start are within the capacity.
  pub Reach-IsWithin : (s : Service) → Reach config capabilities initial s → IsWithin config s
  Reach-IsWithin s here = record {
    ids = λ id. omega arith;
    wallets = λ w. omega arith;
    networks = λ ip. omega arith;
    queue = omega arith;
    occupied = omega arith;
  }
  Reach-IsWithin s (next {t} before step) = Step-IsWithin t s step (Reach-IsWithin t before)
