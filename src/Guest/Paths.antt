-- ===== src/Guest/Paths.antt =====
-- src/guest-protocol.ts: the paths of a request stay inside the workspace.
use bloom_workspaces.Base.{
  ℕ, zero, suc, ◌≡◌, ◌≢◌, refl, sym, ap, ◌∙◌, subst, true, false, List, [], ◌∷◌, Text, codes, split,
  join, All, arith, text_eq, text_eq_sound, starts_with, inl, inr, Bool-cases,
}
use bloom_workspaces.Base.Split.{join-split}
use bloom_workspaces.Guest.Schema.{
  Library, is_safe_workspace_path, is_relative_path, is_workspace_directory, is_operation,
  is_guest_request, GuestRequest, GuestOperation, fs_list, fs_read, fs_write, fs_delete, job_start,
  hello, bloom_status, ceremony_pending, job_status, job_cancel, connections_configure,
  ceremony_approve,
}

abbrev pub parent : Text
parent = codes ".."

abbrev pub parents : ℕ → List Text → List Text
parents zero parts = parts
parents (suc n) parts = parent ∷ parents n parts

-- `posix.normalize` leaves `..` only at the beginning of a path.
abbrev pub ParentsFirst : (Text → Text) → Type 0
ParentsFirst normalize =
    (path : Text)
    → (n : ℕ) × (parts : List Text) × (split b'/' (normalize path) ≡ parents n parts)
      × All (λ part. part ≢ parent) parts

-- The path does not begin at the root, and no part of it leads up.
abbrev pub IsInside : Text → Type 0
IsInside path =
    (starts_with (codes "/") path ≡ false) × All (λ part. part ≢ parent) (split b'/' path)

-- The paths that an operation names.
abbrev pub paths_of : GuestOperation → List Text
paths_of (fs_list path) = path ∷ []
paths_of (fs_read path offset max_bytes) = path ∷ []
paths_of (fs_write path offset payload truncate) = path ∷ []
paths_of (fs_delete path recursive) = path ∷ []
paths_of (job_start job_id argv cwd environment timeout_ms) = cwd ∷ []
paths_of _ = []

leads_up :
    (path : Text) (rest : List Text)
    → starts_with (codes "../") path ≡ false
    → text_eq path parent ≡ false
    → join b'/' (parent ∷ rest) ≡ path
    → ⊥
leads_up path [] h k e = ground arith
leads_up path (part ∷ rest) h k e = ground arith

no_parents :
    (path : Text) (n : ℕ) (parts : List Text)
    → starts_with (codes "../") path ≡ false
    → text_eq path parent ≡ false
    → join b'/' (parents n parts) ≡ path
    → n ≡ 0
no_parents path zero parts h k e = refl
no_parents path (suc n) parts h k e = absurd (leads_up path (parents n parts) h k e)

is_safe_workspace_path-eq-true :
    (lib : Library) (value : Text)
    → is_safe_workspace_path lib value ≡ true
    → (lib.normalize value ≡ value)
      × (starts_with (codes "/") value ≡ false)
      × (starts_with (codes "../") value ≡ false)
      × (text_eq value parent ≡ false)
unfolding is_safe_workspace_path
is_safe_workspace_path-eq-true lib value h =
    let same : lib.normalize value ≡ value =
      text_eq_sound (lib.normalize value) value (ground arith) in
    (
      same,
      ground arith,
      subst (λ x. starts_with (codes "../") x ≡ false) same (ground arith),
      subst (λ x. text_eq x parent ≡ false) same (ground arith),
    )

module _ (lib : Library) (first : ParentsFirst lib.normalize) where
  is_safe_workspace_path-IsInside :
      (value : Text) → is_safe_workspace_path lib value ≡ true → IsInside value
  is_safe_workspace_path-IsInside value h =
      let (same, rooted, up, not_parent) = is_safe_workspace_path-eq-true lib value h in
      let (n, parts, shape, inside) = first value in
      let cut : split b'/' value ≡ parents n parts = ap (λ x. split b'/' x) (sym same) ∙ shape in
      let joined : join b'/' (parents n parts) ≡ value =
        ap (λ x. join b'/' x) (sym cut) ∙ join-split b'/' value in
      (
        rooted,
        subst (λ x. All (λ part. part ≢ parent) x) (sym cut)
            (subst (λ m. All (λ part. part ≢ parent) (parents m parts))
              (sym (no_parents value n parts up not_parent joined)) inside),
      )

  is_relative_path-IsInside : (value : Text) → is_relative_path lib value ≡ true → IsInside value
  unfolding is_relative_path
  is_relative_path-IsInside value h = is_safe_workspace_path-IsInside value (ground arith)

  here-IsInside : IsInside (codes ".")
  here-IsInside = (refl, ((λ e. cc), tt))

  is_workspace_directory-IsInside :
      (value : Text) → is_workspace_directory lib value ≡ true → IsInside value
  unfolding is_workspace_directory
  is_workspace_directory-IsInside value h = elim (Bool-cases (text_eq value (codes "."))) [
    | inl e ↦ subst IsInside (sym (text_eq_sound value (codes ".") e)) here-IsInside
    | inr e ↦ is_relative_path-IsInside value (ground arith)
  ]

  is_operation-IsInside :
      (operation : GuestOperation)
      → is_operation lib operation ≡ true
      → All IsInside (paths_of operation)
  unfolding is_operation
  is_operation-IsInside (fs_list path) h = (is_workspace_directory-IsInside path h, tt)
  is_operation-IsInside (fs_read path offset max_bytes) h =
      (is_relative_path-IsInside path (ground arith), tt)
  is_operation-IsInside (fs_write path offset payload truncate) h =
      (is_relative_path-IsInside path (ground arith), tt)
  is_operation-IsInside (fs_delete path recursive) h =
      (is_relative_path-IsInside path (ground arith), tt)
  is_operation-IsInside (job_start job_id argv cwd environment timeout_ms) h =
      (is_workspace_directory-IsInside cwd (ground arith), tt)
  is_operation-IsInside hello h = tt
  is_operation-IsInside bloom_status h = tt
  is_operation-IsInside ceremony_pending h = tt
  is_operation-IsInside (job_status job_id log_offset max_bytes) h = tt
  is_operation-IsInside (job_cancel job_id) h = tt
  is_operation-IsInside (connections_configure workspace_id wallet ca_public_key nfs) h = tt
  is_operation-IsInside (ceremony_approve tx_id assertion) h = tt

  -- No path of a request that the schema accepts begins at the root or has a part `..`, when the
  -- normalisation of paths leaves `..` only at their beginning.
  pub is_guest_request-IsInside :
      (request : GuestRequest)
      → is_guest_request lib request ≡ true
      → All IsInside (paths_of request.operation)
  unfolding is_guest_request
  is_guest_request-IsInside request h = is_operation-IsInside request.operation (ground arith)
