-- ===== src/Job.antt =====
-- src/jobs/model.ts: the states of a job and its status record.
-- A schema of zod is a Boolean test of the parsed value. Numbers are natural: what zod's `int()`
-- and `nonnegative()` refuse is left out.
pub mod States
pub mod Spec
pub mod Client
pub mod Requests
mod Tests
