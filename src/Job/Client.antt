-- ===== src/Job/Client.antt =====
-- The requests of src/jobs/client.ts. The identifiers that `randomUUID` draws are arguments; the call
-- of the guest is what gives the reply.
use bloom_workspaces.Base.{ℕ, not, ◌++◌, Text, codes, ◌==◌, filter_by, Result, ok, ◌>>◌, throw_if}
use bloom_workspaces.Guest.Schema.{
  Library, GuestRequest, job_start, job_status, job_cancel, is_guest_request,
}
use bloom_workspaces.Job.Spec.{StructuredJobSpec, is_structured_job_spec}

pub data JobsError : Type 0 where
  invalid_spec invalid_request : JobsError

-- `requestId`.
unfoldable pub request_id : Text → Text
request_id uuid = codes "job_" ++ filter_by (λ c. not (c == b'-')) uuid

abbrev pub start_request : Text → Text → StructuredJobSpec → GuestRequest
start_request uuid job_id spec = record {
  version = 1;
  id = request_id uuid;
  operation = job_start job_id spec.argv spec.cwd spec.environment spec.timeout_ms;
}

module _ (lib : Library) (byte_length : Text → ℕ) where
  -- `GuestRequest.parse`.
  abbrev pub parse_request : GuestRequest → Result JobsError GuestRequest
  parse_request request =
      throw_if (not (is_guest_request lib request)) invalid_request >> ok request

  -- The request that `start` sends.
  unfoldable pub start : Text → Text → StructuredJobSpec → Result JobsError GuestRequest
  start uuid job_id spec = do
    throw_if (not (is_structured_job_spec byte_length spec)) invalid_spec
    parse_request (start_request uuid job_id spec)

  unfoldable pub status : Text → Text → ℕ → ℕ → Result JobsError GuestRequest
  status uuid job_id log_offset max_bytes = parse_request (record {
    version = 1;
    id = request_id uuid;
    operation = job_status job_id log_offset max_bytes;
  })

  unfoldable pub cancel : Text → Text → Result JobsError GuestRequest
  cancel uuid job_id =
      parse_request (record { version = 1; id = request_id uuid; operation = job_cancel job_id })
