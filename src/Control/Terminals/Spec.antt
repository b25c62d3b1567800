-- ===== src/Control/Terminals/Spec.antt =====
-- src/control/terminal-admission.ts: terminals as a list of those that are open.
use bloom_workspaces.Base.{
  ℕ, zero, suc, ◌≤◌, ◌≡◌, Bool, true, false, ◌||◌, Option, none, some, List, [], ◌∷◌, ◌++◌, map,
  Text, text_eq, leb, length, count, if◌then◌else◌,
}
use bloom_workspaces.Control.Maps.{get}
use bloom_workspaces.Control.Terminals.{
  TerminalLimits, Release, TerminalAdmission, acquire, release,
}

-- A terminal that was opened: its workspace, or nothing once it is closed.
abbrev pub is_open : Option Text → Bool
is_open none = false
is_open (some workspace_id) = true

abbrev pub is_open_in : Text → Option Text → Bool
is_open_in w none = false
is_open_in w (some workspace_id) = text_eq workspace_id w

abbrev pub close : ℕ → List (Option Text) → List (Option Text)
close n [] = []
close zero (t ∷ ts) = none ∷ ts
close (suc n) (t ∷ ts) = t ∷ close n ts

-- The specification: a terminal opens when the open ones are below both limits.
abbrev pub spec_open : TerminalLimits → List (Option Text) → Text → List (Option Text) × Option ℕ
spec_open limits ts w =
    if leb limits.per_workspace (count (is_open_in w) ts) || leb limits.in_all (count is_open ts)
    then (ts, none)
    else (ts ++ some w ∷ [], some (length ts))

pub data Call : Type 0 where
  opens : (workspace_id : Text) → Call
  closes : (n : ℕ) → Call

abbrev pub spec_call : TerminalLimits → List (Option Text) → Call → List (Option Text) × Option ℕ
spec_call limits ts (opens w) = spec_open limits ts w
spec_call limits ts (closes n) = (close n ts, none)

abbrev pub code_call : TerminalLimits → TerminalAdmission → Call → TerminalAdmission × Option ℕ
code_call limits s (opens w) = acquire limits s w
code_call limits s (closes n) = (release s n, none)

-- The states and the replies of a sequence of calls.
abbrev pub run : {S : Type 0} → (S → Call → S × Option ℕ) → S → List Call → S × List (Option ℕ)
run step s [] = (s, [])
run step s (call ∷ calls) =
    let rest = run step (step s call).0 calls in (rest.0, (step s call).1 ∷ rest.1)

abbrev pub entry_of : ℕ → Option ℕ
entry_of zero = none
entry_of (suc n) = some (suc n)

abbrev pub terminal_of : Release → Option Text
terminal_of r = if r.released then none else some r.workspace_id

-- The counters count the open terminals.
pub record Represents (s : TerminalAdmission) (ts : List (Option Text)) : Type 0 where
  pub terminals : ts ≡ map terminal_of s.releases
  pub active : s.active ≡ count is_open ts
  pub by_workspace : (w : Text) → get w s.by_workspace ≡ entry_of (count (is_open_in w) ts)

pub record IsAdmissible (limits : TerminalLimits) (ts : List (Option Text)) : Type 0 where
  pub in_workspace : (w : Text) → count (is_open_in w) ts ≤ limits.per_workspace
  pub in_all : count is_open ts ≤ limits.in_all
