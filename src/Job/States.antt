-- ===== src/Job/States.antt =====
-- The states of a job (src/jobs/model.ts) and its status record.
pub mod History
use bloom_workspaces.Base.{
  ℕ, ◌*◌, ◌-◌, Bool, true, false, ◌&&◌, ◌||◌, not, Option, none, some, List, [], ◌∷◌, ltb, leb,
  ◌==◌, is_some, same, any, Text, length,
}

pub data JobState : Type 0 where
  queued running succeeded failed cancelled timed_out : JobState

abbrev pub max_job_timeout_ms : ℕ
max_job_timeout_ms = 2 * 60 * 60_000

abbrev pub max_job_log_chunk_bytes : ℕ
max_job_log_chunk_bytes = 256 * 1024

abbrev pub state_eq : JobState → JobState → Bool
state_eq queued queued = true
state_eq running running = true
state_eq succeeded succeeded = true
state_eq failed failed = true
state_eq cancelled cancelled = true
state_eq timed_out timed_out = true
state_eq _ _ = false

unfoldable pub is_terminal_job_state : JobState → Bool
is_terminal_job_state state =
    state_eq state succeeded
    || state_eq state failed
    || state_eq state cancelled
    || state_eq state timed_out

unfoldable pub transitions : JobState → List JobState
transitions queued = running ∷ failed ∷ cancelled ∷ []
transitions running = succeeded ∷ failed ∷ cancelled ∷ timed_out ∷ []
transitions succeeded = []
transitions failed = []
transitions cancelled = []
transitions timed_out = []

unfoldable pub is_valid_job_transition : JobState → JobState → Bool
unfolding transitions
is_valid_job_transition source target =
    state_eq source target || any (state_eq target) (transitions source)

-- `JobLogChunk`. `payload` is `data`; Node's `Buffer.from(…, "base64")` and `toString("base64")` are
-- parameters.
pub record JobLogChunk : Type 0 where
  pub offset : ℕ
  pub next_offset : ℕ
  pub end_offset : ℕ
  pub truncated_before : Bool
  pub eof : Bool
  pub payload : Text

pub record JobStatus : Type 0 where
  pub job_id : Text
  pub state : JobState
  pub created_at : ℕ
  pub started_at : Option ℕ
  pub finished_at : Option ℕ
  pub exit_code : Option ℕ
  pub signal : Option ℕ
  pub timeout_ms : ℕ
  pub logs : JobLogChunk

module _ (decode : Text → List ℕ) (encode : List ℕ → Text) (text_same : Text → Text → Bool) where
  pub valid_log_chunk : JobLogChunk → Bool
  valid_log_chunk value =
      let decoded = decode value.payload in
      (leb value.offset value.next_offset && leb value.next_offset value.end_offset)
      && (text_same (encode decoded) value.payload
          && leb (length decoded) max_job_log_chunk_bytes
          && (length decoded == value.next_offset - value.offset))

-- `job.exitCode === 0`.
abbrev pub exit_is_zero : Option ℕ → Bool
exit_is_zero none = false
exit_is_zero (some code) = code == 0

-- The checks that `JobStatus` makes across its fields.
unfoldable pub consistent_status : JobStatus → Bool
unfolding is_terminal_job_state
consistent_status job =
    same (is_terminal_job_state job.state) (is_some job.finished_at)
    && same (state_eq job.state queued) (not (is_some job.started_at))
    && not (state_eq job.state succeeded && not (exit_is_zero job.exit_code))
