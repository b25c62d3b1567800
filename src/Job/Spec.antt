-- ===== src/Job/Spec.antt =====
-- What a job may be (src/jobs/model.ts, `StructuredJobSpec`). Node's `Buffer.byteLength` is a parameter.
use bloom_workspaces.Base.{
  ℕ, ◌+◌, ◌*◌, Bool, true, false, ◌&&◌, ◌||◌, not, List, [], ◌∷◌, Text, codes, text_eq, includes,
  starts_with, ends_with, split, leb, ◌==◌, length, all, any, if◌then◌else◌,
}
use bloom_workspaces.Guest.Schema.{is_sized, is_variable_name}
use bloom_workspaces.Job.States.{max_job_timeout_ms}

abbrev pub user_environment_names : List Text
user_environment_names =
    codes "CI"
    ∷ codes "DEBUG"
    ∷ codes "FORCE_COLOR"
    ∷ codes "LANG"
    ∷ codes "LC_ALL"
    ∷ codes "LOG_LEVEL"
    ∷ codes "NODE_ENV"
    ∷ codes "NO_COLOR"
    ∷ codes "PYTHONUNBUFFERED"
    ∷ codes "RUST_BACKTRACE"
    ∷ codes "RUST_LOG"
    ∷ codes "TERM"
    ∷ codes "TZ"
    ∷ []

abbrev pub user_environment_prefixes : List Text
user_environment_prefixes = codes "APP_" ∷ codes "JOB_" ∷ codes "TEST_" ∷ []

abbrev pub is_allowlisted : Text → Bool
is_allowlisted name =
    any (text_eq name) user_environment_names
    || any (λ prefix. starts_with prefix name) user_environment_prefixes

-- `parts.every(…)`.
abbrev pub is_plain_part : Text → Bool
is_plain_part part =
    not (length part == 0) && not (text_eq part (codes ".")) && not (text_eq part (codes ".."))

unfoldable pub is_relative_job_path : Text → Bool
is_relative_job_path path =
    is_sized 1 1024 path
    && (if text_eq path (codes ".")
        then true
        else if includes 0 path
            || includes b'\\' path
            || starts_with (codes "/") path
            || ends_with (codes "/") path
        then false
        else all is_plain_part (split b'/' path))

pub record StructuredJobSpec : Type 0 where
  pub argv : List Text
  pub cwd : Text
  pub environment : List (Text × Text)
  pub timeout_ms : ℕ

module _ (byte_length : Text → ℕ) where
  abbrev pub total_bytes : List Text → ℕ
  total_bytes [] = 0
  total_bytes (value ∷ values) = byte_length value + total_bytes values

  abbrev pub environment_bytes : List (Text × Text) → ℕ
  environment_bytes [] = 0
  environment_bytes (entry ∷ entries) =
      byte_length entry.0 + byte_length entry.1 + environment_bytes entries

  -- The names of an environment are different.
  unfoldable pub is_job_environment : List (Text × Text) → Bool
  is_job_environment environment =
      all
        (λ entry. is_variable_name entry.0 && leb (length entry.1) 8192 && not (includes 0 entry.1))
        environment
      && leb (length environment) 64
      && all (λ entry. is_allowlisted entry.0) environment
      && leb (environment_bytes environment) (32 * 1024)

  unfoldable pub is_structured_job_spec : StructuredJobSpec → Bool
  is_structured_job_spec spec =
      all (λ value. is_sized 1 4096 value && not (includes 0 value)) spec.argv
      && leb 1 (length spec.argv)
      && leb (length spec.argv) 64
      && leb (total_bytes spec.argv) (32 * 1024)
      && is_relative_job_path spec.cwd
      && is_job_environment spec.environment
      && leb 1000 spec.timeout_ms
      && leb spec.timeout_ms max_job_timeout_ms
