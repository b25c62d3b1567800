-- ===== src/Job/States/History.antt =====
-- What a client can observe of one job over time (src/jobs/model.ts, `isValidJobTransition`).
use bloom_workspaces.Base.{
  ℕ, ◌+◌, ◌≤◌, ◌≡◌, sym, subst, true, List, [], ◌∷◌, arith, if◌then◌else◌, All,
}
use bloom_workspaces.Job.States.{
  JobState, queued, running, state_eq, is_terminal_job_state, is_valid_job_transition,
}

-- Each observed state follows from the one before it by an accepted transition.
abbrev pub IsHistory : JobState → List JobState → Type 0
IsHistory s [] = Unit
IsHistory s (t ∷ ts) = (is_valid_job_transition s t ≡ true) × IsHistory t ts

-- How often the state changes.
abbrev pub changes : JobState → List JobState → ℕ
changes s [] = 0
changes s (t ∷ ts) = (if state_eq s t then 0 else 1) + changes t ts

transition-of_terminal :
    (s t : JobState) → is_terminal_job_state s ≡ true → is_valid_job_transition s t ≡ true → s ≡ t
unfolding is_terminal_job_state is_valid_job_transition
transition-of_terminal s t h e = ground arith

-- A terminal state is final: whatever follows it in an accepted history is that state.
pub terminal_is_final :
    (s : JobState) (ts : List JobState)
    → is_terminal_job_state s ≡ true
    → IsHistory s ts
    → All (λ t. t ≡ s) ts
terminal_is_final s [] h v = tt
terminal_is_final s (t ∷ ts) h (e, v) =
    let kept = transition-of_terminal s t h e in
    (
      sym kept,
      subst (λ x. All (λ u. u ≡ x) ts) (sym kept)
          (terminal_is_final t ts (subst (λ x. is_terminal_job_state x ≡ true) kept h) v),
    )

-- The most changes that can still come.
abbrev budget : JobState → ℕ
budget queued = 2
budget running = 1
budget _ = 0

transition-budget :
    (s t : JobState)
    → is_valid_job_transition s t ≡ true
    → (if state_eq s t then 0 else 1) + budget t ≤ budget s
unfolding is_valid_job_transition
transition-budget s t e = ground arith

changes-le-budget : (s : JobState) (ts : List JobState) → IsHistory s ts → changes s ts ≤ budget s
changes-le-budget s [] v = omega arith
changes-le-budget s (t ∷ ts) (e, v) =
    omega (arith, changes-le-budget t ts v, transition-budget s t e)

-- An accepted history, however long, changes state at most twice, and not at all once the job has
-- ended.
pub changes_bounded :
    (s : JobState) (ts : List JobState)
    → IsHistory s ts
    → (changes s ts ≤ 2) × (is_terminal_job_state s ≡ true → changes s ts ≡ 0)
unfolding is_terminal_job_state
changes_bounded s ts v = ground (arith, changes-le-budget s ts v)
