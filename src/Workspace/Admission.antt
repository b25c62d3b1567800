-- ===== src/Workspace/Admission.antt =====
-- What a creation and an operation on a workspace establish (src/control/workspaces.ts).
use bloom_workspaces.Base.{
  ℕ, ◌+◌, ◌≤◌, ◌<◌, ◌≡◌, sym, ap, ◌∙◌, subst, Bool, true, Option, List, [], ◌∷◌, ◌++◌, map, Text,
  text_eq_iff, lower, count, arith, ok, get_or_else,
}
use bloom_workspaces.Workspace.Rows.{queued, WorkspaceRow, Database, StorageMode, disposable}
use bloom_workspaces.Workspace.Creation.{
  Config, WorkspaceDataCapabilities, check_limits, new_row, transaction, create, active_wallet,
  active_ip, daily_wallet, daily_ip, since_of, queued_row,
}
use bloom_workspaces.Workspace.Lifecycle.{has_id}
use bloom_workspaces.Workspace.Counting.{count-append, any-count}
use bloom_workspaces.Workspace.Limits.{IsBounded, occupied_row}
use bloom_workspaces.Workspace.Histories.{transaction-rows}

check_limits-ok :
    (config : Config) (rows : List WorkspaceRow) (now : ℕ) (wallet ip_hash : Text)
    → check_limits config rows now wallet ip_hash ≡ ok tt
    → (count (active_wallet wallet) rows < config.max_active_per_wallet)
      × (count (active_ip ip_hash) rows < config.max_active_per_ip)
      × (count (daily_wallet wallet (since_of now)) rows < config.daily_per_wallet)
      × (count (daily_ip ip_hash (since_of now)) rows < config.daily_per_ip)
      × (count queued_row rows < config.max_queue)
unfolding check_limits
check_limits-ok config rows now wallet ip_hash e =
    (ground arith, ground arith, ground arith, ground arith, ground arith)

-- A count over the old rows and the new one.
room :
    (p : WorkspaceRow → Bool) (rows rows' : List WorkspaceRow) (row : WorkspaceRow) {limit : ℕ}
    → rows' ≡ rows ++ row ∷ []
    → count p rows < limit
    → count p rows' ≤ limit
room p rows rows' row {limit} e h =
    subst (λ x. count p x ≤ limit) (sym e) (ground (arith, count-append p rows (row ∷ [])))

with_row :
    (p : WorkspaceRow → Bool) (rows rows' : List WorkspaceRow) (row : WorkspaceRow)
    → rows' ≡ rows ++ row ∷ []
    → (limit : ℕ) → count p rows ≤ limit
    → (p row ≡ true → count p rows < limit)
    → count p rows' ≤ limit
with_row p rows rows' row e limit h room_for =
    subst (λ x. count p x ≤ limit) (sym e)
      (ground (arith, count-append p rows (row ∷ []), room_for))

unoccupied :
    (rows rows' : List WorkspaceRow) (row : WorkspaceRow)
    → rows' ≡ rows ++ row ∷ []
    → row.state ≡ queued
    → count occupied_row rows' ≡ count occupied_row rows
unoccupied rows rows' row e q =
    ap (count occupied_row) e ∙ ground (arith, count-append occupied_row rows (row ∷ []))

module _ (config : Config) (capabilities : Option WorkspaceDataCapabilities) where
  pub create-transaction :
      (db db' : Database) (destroying : List Text) (now : ℕ) (id volume_id wallet ip_hash : Text)
      (storage : Option StorageMode) (row : WorkspaceRow)
      → create config capabilities db destroying now id volume_id wallet ip_hash storage
        ≡ ok (db', row)
      → transaction config db now id volume_id
          (map lower wallet)
          ip_hash
          (get_or_else storage disposable)
        ≡ ok (db', row)
  unfolding create
  create-transaction db db' destroying now id volume_id wallet ip_hash storage row e = ground arith

  -- A creation adds one row, the last, to the table and changes no other. The row is queued for
  -- the wallet in lower case, until the clock plus the length of a lease. With it, the wallet and
  -- the network are within their limits of active workspaces and of workspaces created within a
  -- day, and the queue within its length.
  pub create-IsAdmitted :
      (db db' : Database) (destroying : List Text) (now : ℕ) (id volume_id wallet ip_hash : Text)
      (storage : Option StorageMode) (row : WorkspaceRow)
      → create config capabilities db destroying now id volume_id wallet ip_hash storage
        ≡ ok (db', row)
      → (db'.workspaces ≡ db.workspaces ++ row ∷ [])
        × (row.state ≡ queued)
        × (row.wallet ≡ map lower wallet)
        × (row.lease_expires_at ≡ now + config.lease_ms)
        × (count (active_wallet (map lower wallet)) db'.workspaces ≤ config.max_active_per_wallet)
        × (count (active_ip ip_hash) db'.workspaces ≤ config.max_active_per_ip)
        × (count (daily_wallet (map lower wallet) (since_of now)) db'.workspaces
            ≤ config.daily_per_wallet)
        × (count (daily_ip ip_hash (since_of now)) db'.workspaces ≤ config.daily_per_ip)
        × (count queued_row db'.workspaces ≤ config.max_queue)
  create-IsAdmitted db db' destroying now id volume_id wallet ip_hash storage row e =
      let (limits, fresh, rows, volume, shape) =
        transaction-rows config db db' now id volume_id (map lower wallet) ip_hash
          (get_or_else storage disposable) row
          (create-transaction db db' destroying now id volume_id wallet ip_hash storage row e) in
      let (a, b, c, d, q) =
        check_limits-ok config db.workspaces now (map lower wallet) ip_hash limits in
      (
        rows,
        ap (λ r. r.state) shape,
        ap (λ r. r.wallet) shape,
        ap (λ r. r.lease_expires_at) shape,
        room (active_wallet (map lower wallet)) db.workspaces db'.workspaces row rows a,
        room (active_ip ip_hash) db.workspaces db'.workspaces row rows b,
        room (daily_wallet (map lower wallet) (since_of now)) db.workspaces db'.workspaces row rows
            c,
        room (daily_ip ip_hash (since_of now)) db.workspaces db'.workspaces row rows d,
        room queued_row db.workspaces db'.workspaces row rows q,
      )

  -- A new row keeps the limits of the whole table.
  pub create-IsBounded :
      (db db' : Database) (destroying : List Text) (now : ℕ) (id volume_id wallet ip_hash : Text)
      (storage : Option StorageMode) (row : WorkspaceRow) (spare : ℕ)
      → create config capabilities db destroying now id volume_id wallet ip_hash storage
        ≡ ok (db', row)
      → IsBounded config db.workspaces spare
      → IsBounded config db'.workspaces spare
  create-IsBounded db db' destroying now id volume_id wallet ip_hash storage row spare e v =
      let (limits, fresh, rows, volume, shape) =
        transaction-rows config db db' now id volume_id (map lower wallet) ip_hash
          (get_or_else storage disposable) row
          (create-transaction db db' destroying now id volume_id wallet ip_hash storage row e) in
      let (a, b, c, d, q) =
        check_limits-ok config db.workspaces now (map lower wallet) ip_hash limits in
      let absent = any-count (has_id id) db.workspaces fresh in
      record {
        ids = λ i. with_row (has_id i) db.workspaces db'.workspaces row rows 1 (v.ids i) (λ h.
            let same : id ≡ i = (text_eq_iff id i).0 (subst (λ r. has_id i r ≡ true) shape h) in
            subst (λ x. count (has_id x) db.workspaces < 1) same (omega (arith, absent)));
        wallets = λ w.
            with_row (active_wallet w) db.workspaces db'.workspaces row rows
              config.max_active_per_wallet (v.wallets w)
              (λ h.
                let g : active_wallet w (
                      new_row config now id (map lower wallet) ip_hash
                        (get_or_else storage disposable) volume)
                    ≡ true =
                  subst (λ r. active_wallet w r ≡ true) shape h in
                let same : map lower wallet ≡ w =
                  ground (arith, text_eq_iff (map lower wallet) w) in
                subst (λ x. count (active_wallet x) db.workspaces < config.max_active_per_wallet)
                  same a);
        networks = λ ip.
            with_row (active_ip ip) db.workspaces db'.workspaces row rows config.max_active_per_ip
              (v.networks ip)
              (λ h.
                let g : active_ip ip (
                      new_row config now id (map lower wallet) ip_hash
                        (get_or_else storage disposable) volume)
                    ≡ true =
                  subst (λ r. active_ip ip r ≡ true) shape h in
                let same : ip_hash ≡ ip = ground (arith, text_eq_iff ip_hash ip) in
                subst (λ x. count (active_ip x) db.workspaces < config.max_active_per_ip) same b);
        queue =
            with_row queued_row db.workspaces db'.workspaces row rows config.max_queue v.queue
              (λ h. q);
        occupied =
            subst (λ n. n + spare ≤ config.max_running)
              (sym (unoccupied db.workspaces db'.workspaces row rows (ap (λ r. r.state) shape)))
              v.occupied;
      }
