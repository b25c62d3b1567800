-- ===== src/Job/Requests.antt =====
-- src/jobs/client.ts: a job that the client accepts is one that the guest's protocol accepts.
use bloom_workspaces.Base.{
  ℕ, ◌≤◌, ◌≡◌, refl, subst, Bool, true, false, ◌&&◌, ◌||◌, not, List, [], ◌∷◌, ◌++◌, Text, codes,
  text_eq, text_eq_sound, text_eq_refl, split, leb, ◌==◌, length, all, filter_by, All, is_hex_lower,
  arith, Bool-cases, inl, inr, ok, includes, starts_with, length-filter_by,
}
use bloom_workspaces.Guest.Schema.{
  Library, is_guest_request, is_request_id, is_operation, is_workspace_directory, is_relative_path,
  is_safe_workspace_path, is_environment, is_variable_name, is_sized,
}
use bloom_workspaces.Guest.Base64.{is_alphanumeric}
use bloom_workspaces.Job.Spec.{
  StructuredJobSpec, is_structured_job_spec, is_relative_job_path, is_job_environment,
  is_plain_part,
}
use bloom_workspaces.Job.Client.{request_id, start_request, start}

-- `randomUUID`: at most 60 characters, digits of hexadecimal and dashes.
abbrev pub IsDrawn : Text → Type 0
IsDrawn uuid = (length uuid ≤ 60) × All (λ c. (is_hex_lower c || c == b'-') ≡ true) uuid

-- `posix.normalize` leaves a path alone whose parts are neither empty nor dots.
abbrev pub KeepsPlain : (Text → Text) → Type 0
KeepsPlain normalize =
    (path : Text) → all is_plain_part (split b'/' path) ≡ true → normalize path ≡ path

request_id-characters :
    (uuid : Text)
    → All (λ c. (is_hex_lower c || c == b'-') ≡ true) uuid
    → all (λ c. is_alphanumeric c || c == b'_' || c == b'-') (filter_by (λ c. not (c == b'-')) uuid)
      ≡ true
request_id-characters [] h = refl
request_id-characters (c ∷ uuid) h = ground (arith, request_id-characters uuid h.1)

request_id-IsRequestId : (uuid : Text) → IsDrawn uuid → is_request_id (request_id uuid) ≡ true
unfolding request_id is_request_id
request_id-IsRequestId uuid (short, drawn) =
    ground (arith, request_id-characters uuid drawn, length-filter_by (λ c. not (c == b'-')) uuid)

all_weaker :
    {A : Type 0} (p q : A → Bool) (xs : List A)
    → ((x : A) → p x ≡ true → q x ≡ true)
    → all p xs ≡ true
    → all q xs ≡ true
all_weaker p q [] f h = refl
all_weaker p q (x ∷ xs) f h = ground (arith, f x, all_weaker p q xs f)

starts_with-append : (p s : Text) → starts_with p s ≡ true → (rest : Text) × (s ≡ p ++ rest)
starts_with-append [] s h = (s, refl)
starts_with-append (c ∷ p) [] h = cc
starts_with-append (c ∷ p) (x ∷ s) h =
    let (rest, same) = starts_with-append p s (ground arith) in (rest, ground arith)

leads_up : Text → Bool
leads_up path = starts_with (codes "../") path || text_eq path (codes "..")

plain_stays : (path : Text) → all is_plain_part (split b'/' path) ≡ true → leads_up path ≡ false
unfolding leads_up
plain_stays path h = elim (Bool-cases (starts_with (codes "../") path)) [
  | inl up ↦
      let (rest, same) = starts_with-append (codes "../") path up in
      let plain : all is_plain_part (split b'/' (codes "../" ++ rest)) ≡ true =
        subst (λ x. all is_plain_part (split b'/' x) ≡ true) same h in
      cc
  | inr stays ↦ elim (Bool-cases (text_eq path (codes ".."))) [
    | inl parent ↦
        let plain : all is_plain_part (split b'/' (codes "..")) ≡ true =
          subst (λ x. all is_plain_part (split b'/' x) ≡ true)
            (text_eq_sound path (codes "..") parent) h in
        cc
    | inr other ↦ ground arith
  ]
]

module _ (lib : Library) (keeps : KeepsPlain lib.normalize) where
  job_path-IsDirectory :
      (path : Text) → is_relative_job_path path ≡ true → is_workspace_directory lib path ≡ true
  unfolding is_relative_job_path is_workspace_directory is_relative_path is_safe_workspace_path
      leads_up
  job_path-IsDirectory path h = elim (Bool-cases (text_eq path (codes "."))) [
    | inl here ↦ ground arith
    | inr other ↦
        let plain : all is_plain_part (split b'/' path) ≡ true = ground arith in
        let kept = keeps path plain in
        let stays : leads_up path ≡ false = plain_stays path plain in
        rw (kept) (ground (arith, text_eq_refl path))
  ]

  environment-IsEnvironment :
      (byte_length : Text → ℕ) (environment : List (Text × Text))
      → is_job_environment byte_length environment ≡ true
      → is_environment environment ≡ true
  unfolding is_job_environment is_environment
  environment-IsEnvironment byte_length environment h = ground (
    arith,
    all_weaker
        (λ entry. is_variable_name entry.0 && leb (length entry.1) 8192 && not (includes 0 entry.1))
        (λ (entry : Text × Text). is_variable_name entry.0 && leb (length entry.1) 8192) environment
        (λ entry e. ground arith),
  )

  -- What `start` asks of a job is enough for the guest's protocol: when the job is valid, the
  -- identifier of the job is a UUID, the one drawn for the request is made of hexadecimal digits and
  -- dashes, and `posix.normalize` keeps paths without empty parts and dots, the request is not refused.
  pub start-eq-ok :
      (byte_length : Text → ℕ) (uuid job_id : Text) (spec : StructuredJobSpec)
      → is_structured_job_spec byte_length spec ≡ true
      → lib.is_uuid job_id ≡ true
      → IsDrawn uuid
      → start lib byte_length uuid job_id spec ≡ ok (start_request uuid job_id spec)
  unfolding start is_guest_request is_operation is_structured_job_spec
  start-eq-ok byte_length uuid job_id spec valid named drawn = ground (
    arith,
    request_id-IsRequestId uuid drawn,
    job_path-IsDirectory spec.cwd,
    environment-IsEnvironment byte_length spec.environment,
    all_weaker (λ value. is_sized 1 4096 value && not (includes 0 value)) (is_sized 1 4096)
        spec.argv (λ value e. ground arith),
  )
