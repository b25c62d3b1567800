-- ===== src/Workspace/Limits.antt =====
-- The limits of src/control/workspaces.ts on the rows of the table, and the statements that keep them.
use bloom_workspaces.Base.{
  ℕ, ◌+◌, ◌≤◌, ◌≡◌, refl, ap, Bool, true, false, ◌&&◌, List, map, Text, text_eq, count, arith,
}
use bloom_workspaces.Workspace.Rows.{
  provisioning, running, stopping, WorkspaceRow, update_row, is_queued, is_provisioning,
  is_occupied, is_stoppable, is_active,
}
use bloom_workspaces.Workspace.Creation.{Config, active_wallet, active_ip, queued_row}
use bloom_workspaces.Workspace.Lifecycle.{
  has_id, to_state, mark_stopped, mark_failed, stoppable_row,
}
use bloom_workspaces.Workspace.Counting.{count-update}

abbrev pub occupied_row : WorkspaceRow → Bool
occupied_row row = is_occupied row.state

-- Ids differ; no wallet and no network has more active workspaces than its limit; the queue is
-- within its length; and the workspaces that run or start, with `spare` more, within the capacity.
pub record IsBounded (config : Config) (rows : List WorkspaceRow) (spare : ℕ) : Type 0 where
  pub ids : (id : Text) → count (has_id id) rows ≤ 1
  pub wallets : (w : Text) → count (active_wallet w) rows ≤ config.max_active_per_wallet
  pub networks : (ip : Text) → count (active_ip ip) rows ≤ config.max_active_per_ip
  pub queue : count queued_row rows ≤ config.max_queue
  pub occupied : count occupied_row rows + spare ≤ config.max_running

pub IsBounded-spare :
    (config : Config) (rows : List WorkspaceRow) (spare less : ℕ)
    → less ≤ spare
    → IsBounded config rows spare
    → IsBounded config rows less
IsBounded-spare config rows spare less h v = record {
  ids = v.ids;
  wallets = v.wallets;
  networks = v.networks;
  queue = v.queue;
  occupied = omega (arith, v.occupied);
}

-- An update that leaves a row's owner alone, activates no row and queues none.
pub record IsSettling (q : WorkspaceRow → Bool) (f : WorkspaceRow → WorkspaceRow) : Type 0 where
  pub same_id : (r : WorkspaceRow) → (f r).id ≡ r.id
  pub same_wallet : (r : WorkspaceRow) → (f r).wallet ≡ r.wallet
  pub same_ip : (r : WorkspaceRow) → (f r).ip_hash ≡ r.ip_hash
  pub active :
      (r : WorkspaceRow) → q r ≡ true → is_active (f r).state ≡ true → is_active r.state ≡ true
  pub unqueued : (r : WorkspaceRow) → is_queued (f r).state ≡ false

module _ (config : Config) (q : WorkspaceRow → Bool) (f : WorkspaceRow → WorkspaceRow)
    (rows : List WorkspaceRow) (settling : IsSettling q f) where
  -- Such an update keeps the limits, if it keeps that on the occupied rows.
  pub settle-IsBounded :
      (spare less : ℕ)
      → IsBounded config rows spare
      → count occupied_row (map (update_row q f) rows) + less ≤ config.max_running
      → IsBounded config (map (update_row q f) rows) less
  settle-IsBounded spare less v room = record {
    ids = λ id. omega (
      arith,
      v.ids id,
      count-update (has_id id) q f rows
          (λ r _ h. ground (arith, ap (λ x. text_eq x id) (settling.same_id r))),
    );
    wallets = λ w. omega (
      arith,
      v.wallets w,
      count-update (active_wallet w) q f rows (λ r e h.
          ground (arith, ap (λ x. text_eq x w) (settling.same_wallet r), settling.active r e)),
    );
    networks = λ ip. omega (
      arith,
      v.networks ip,
      count-update (active_ip ip) q f rows (λ r e h.
          ground (arith, ap (λ x. text_eq x ip) (settling.same_ip r), settling.active r e)),
    );
    queue = omega (
      arith,
      v.queue,
      count-update queued_row q f rows (λ r _ h. ground (arith, settling.unqueued r)),
    );
    occupied = room;
  }

  -- An update that occupies no row keeps all limits.
  pub quiet-IsBounded :
      (spare : ℕ)
      → ((r : WorkspaceRow)
          → q r ≡ true
          → is_occupied (f r).state ≡ true
          → is_occupied r.state ≡ true)
      → IsBounded config rows spare
      → IsBounded config (map (update_row q f) rows) spare
  quiet-IsBounded spare quiet v =
      settle-IsBounded spare spare v
        (omega (arith, v.occupied, count-update occupied_row q f rows quiet))

-- The statements of the source.
pub stopping-IsSettling :
    (q : WorkspaceRow → Bool)
    → ((r : WorkspaceRow) → q r ≡ true → is_stoppable r.state ≡ true)
    → IsSettling q (to_state stopping)
stopping-IsSettling q only = record {
  same_id = λ r. refl;
  same_wallet = λ r. refl;
  same_ip = λ r. refl;
  active = λ r e h. ground (arith, only r e);
  unqueued = λ r. refl;
}

pub running-IsSettling :
    (id : Text) → IsSettling (λ r. has_id id r && is_provisioning r.state) (to_state running)
running-IsSettling id = record {
  same_id = λ r. refl;
  same_wallet = λ r. refl;
  same_ip = λ r. refl;
  active = λ r e h. ground arith;
  unqueued = λ r. refl;
}

pub claim-IsSettling :
    (id : Text) → IsSettling (λ r. has_id id r && is_queued r.state) (to_state provisioning)
claim-IsSettling id = record {
  same_id = λ r. refl;
  same_wallet = λ r. refl;
  same_ip = λ r. refl;
  active = λ r e h. ground arith;
  unqueued = λ r. refl;
}

pub stopped-IsSettling : (now : ℕ) (id : Text) → IsSettling (stoppable_row id) (mark_stopped now)
stopped-IsSettling now id = record {
  same_id = λ r. refl;
  same_wallet = λ r. refl;
  same_ip = λ r. refl;
  active = λ r e h. ground arith;
  unqueued = λ r. refl;
}

pub failed-IsSettling :
    (now : ℕ) (id : Text) → IsSettling (λ r. has_id id r && is_occupied r.state) (mark_failed now)
failed-IsSettling now id = record {
  same_id = λ r. refl;
  same_wallet = λ r. refl;
  same_ip = λ r. refl;
  active = λ r e h. ground arith;
  unqueued = λ r. refl;
}
