-- ===== src/Control/Terminals.antt =====
-- src/control/terminal-admission.ts: how many terminals are open, in a workspace and in all.
pub mod Spec
mod Counting
mod Closing
pub mod Refinement
use bloom_workspaces.Base.{
  ℕ, zero, suc, ◌+◌, ◌-◌, Bool, true, false, ◌||◌, Option, none, some, List, [], ◌∷◌, ◌++◌, Text,
  leb, ◌==◌, length, get_or_else, if◌then◌else◌,
}
use bloom_workspaces.Control.Maps.{get, set, delete}

pub record TerminalLimits : Type 0 where
  pub per_workspace : ℕ
  pub in_all : ℕ

-- A `release` that was given out: the workspace it closes over, and its flag `released`.
pub record Release : Type 0 where
  pub workspace_id : Text
  pub released : Bool

pub record TerminalAdmission : Type 0 where
  pub active : ℕ
  pub by_workspace : List (Text × ℕ)
  pub releases : List Release

abbrev pub new_admission : TerminalAdmission
new_admission = record { active = 0; by_workspace = []; releases = [] }

-- The result is the place of the `release` in the list.
unfoldable pub acquire : TerminalLimits → TerminalAdmission → Text → TerminalAdmission × Option ℕ
acquire limits s workspace_id =
    let workspace_count = get_or_else (get workspace_id s.by_workspace) 0 in
    if leb limits.per_workspace workspace_count || leb limits.in_all s.active then (s, none) else (
      record {
        active = s.active + 1;
        by_workspace = set workspace_id (workspace_count + 1) s.by_workspace;
        releases = s.releases ++ record { workspace_id = workspace_id; released = false } ∷ [];
      },
      some (length s.releases),
    )

abbrev pub release_at : ℕ → List Release → Option Release
release_at n [] = none
release_at zero (r ∷ rs) = some r
release_at (suc n) (r ∷ rs) = release_at n rs

abbrev pub set_released : ℕ → List Release → List Release
set_released n [] = []
set_released zero (r ∷ rs) = record r { released = true } ∷ rs
set_released (suc n) (r ∷ rs) = r ∷ set_released n rs

-- The two subtractions stop at 0; a count that is subtracted from is positive.
abbrev pub remove_one : Text → List (Text × ℕ) → List (Text × ℕ)
remove_one workspace_id entries =
    let remaining = get_or_else (get workspace_id entries) 1 - 1 in
    if remaining == 0 then delete workspace_id entries else set workspace_id remaining entries

unfoldable pub call_release : ℕ → TerminalAdmission → Option Release → TerminalAdmission
call_release n s none = s
call_release n s (some r) = if r.released then s else (record {
  active = s.active - 1;
  by_workspace = remove_one r.workspace_id s.by_workspace;
  releases = set_released n s.releases;
})

unfoldable pub release : TerminalAdmission → ℕ → TerminalAdmission
release s n = call_release n s (release_at n s.releases)
