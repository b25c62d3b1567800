-- ===== src/Job/Tests.antt =====
-- The theorems on the states of a job (src/jobs/model.ts) and on its requests (src/jobs/client.ts) at concrete inputs.
use bloom_workspaces.Base.{codes, length, ok, arith, ◌≤◌, ◌≡◌, refl, true, [], ◌∷◌, All}
use bloom_workspaces.Guest.Schema.{Library, is_variable_name}
use bloom_workspaces.Job.Spec.{
  StructuredJobSpec, is_structured_job_spec, is_relative_job_path, is_job_environment,
}
use bloom_workspaces.Job.Client.{start, start_request}
use bloom_workspaces.Job.Requests.{start-eq-ok}
use bloom_workspaces.Job.States.{
  queued, running, succeeded, timed_out, is_terminal_job_state, is_valid_job_transition,
}
use bloom_workspaces.Job.States.History.{changes, terminal_is_final, changes_bounded}

terminal_is_final_example : All (λ t. t ≡ timed_out) (timed_out ∷ timed_out ∷ [])
unfolding is_terminal_job_state is_valid_job_transition
terminal_is_final_example =
    terminal_is_final timed_out (timed_out ∷ timed_out ∷ []) refl (refl, (refl, tt))

changes_bounded_example :
    (changes queued (queued ∷ running ∷ running ∷ succeeded ∷ []) ≤ 2)
    × (is_terminal_job_state queued ≡ true
        → changes queued (queued ∷ running ∷ running ∷ succeeded ∷ []) ≡ 0)
unfolding is_valid_job_transition
changes_bounded_example =
    changes_bounded queued (queued ∷ running ∷ running ∷ succeeded ∷ [])
      (refl, (refl, (refl, (refl, tt))))

-- The normalisation of the path below, and a UUID.
abbrev library : Library
library = record {
  normalize = λ path. path;
  is_uuid = λ value. true;
  from_base64 = λ value. [];
  to_base64 = λ bytes. [];
}

abbrev listing : StructuredJobSpec
listing = record {
  argv = codes "ls" ∷ codes "-l" ∷ [];
  cwd = codes "src/web";
  environment = (codes "CI", codes "1") ∷ [];
  timeout_ms = 60_000;
}

start-eq-ok_example :
    start library length (codes "9f-4e") (codes "j") listing
    ≡ ok (start_request (codes "9f-4e") (codes "j") listing)
unfolding is_structured_job_spec is_relative_job_path is_job_environment is_variable_name
start-eq-ok_example =
    start-eq-ok library (λ path plain. refl) length (codes "9f-4e") (codes "j") listing refl refl
      (omega arith, (refl, (refl, (refl, (refl, (refl, tt))))))
