-- ===== src/Guest/Schema.antt =====
-- src/guest-protocol.ts: the requests of the guest protocol and what they must be.
use bloom_workspaces.Base.{
  ℕ, ◌*◌, ◌/◌, ◌+◌, Bool, true, false, ◌&&◌, ◌||◌, not, List, [], ◌∷◌, Text, codes, leb, ◌==◌,
  text_eq, includes, starts_with, ends_with, length, all, is_digit, is_hex_lower, if◌then◌else◌,
  zero, suc, drop,
}
use bloom_workspaces.Guest.Base64.{is_alphanumeric, is_base64_digit, is_base64}

abbrev pub max_guest_frame_bytes : ℕ
max_guest_frame_bytes = 384 * 1024

abbrev pub max_file_chunk_bytes : ℕ
max_file_chunk_bytes = 256 * 1024

abbrev pub max_log_chunk_bytes : ℕ
max_log_chunk_bytes = 256 * 1024

-- What the schemas use of Node and zod: `posix.normalize`, the test of a UUID, and base64.
pub record Library : Type 0 where
  pub normalize : Text → Text
  pub is_uuid : Text → Bool
  pub from_base64 : Text → List ℕ
  pub to_base64 : List ℕ → Text

-- `z.string().min(least).max(most)`.
abbrev pub is_sized : ℕ → ℕ → Text → Bool
is_sized least most value = leb least (length value) && leb (length value) most

unfoldable pub is_request_id : Text → Bool
is_request_id value =
    is_sized 1 64 value && all (λ c. is_alphanumeric c || c == b'_' || c == b'-') value

unfoldable pub is_safe_workspace_path : Library → Text → Bool
is_safe_workspace_path lib value =
    let normalized = lib.normalize value in
    if includes 0 value
      || includes b'\\' value
      || starts_with (codes "/") value
      || ends_with (codes "/") value
    then false
    else text_eq normalized value
      && not (text_eq normalized (codes "."))
      && not (starts_with (codes "../") normalized)
      && not (text_eq normalized (codes ".."))

unfoldable pub is_canonical_base64 : Library → Text → Bool
is_canonical_base64 lib value =
    is_base64 value && text_eq (lib.to_base64 (lib.from_base64 value)) value

unfoldable pub is_relative_path : Library → Text → Bool
is_relative_path lib value = is_sized 1 1024 value && is_safe_workspace_path lib value

unfoldable pub is_workspace_directory : Library → Text → Bool
is_workspace_directory lib value = text_eq value (codes ".") || is_relative_path lib value

unfoldable pub is_base64_chunk : Library → Text → Bool
is_base64_chunk lib value =
    leb (length value) ((max_file_chunk_bytes + 2) / 3 * 4 + 4)
    && is_canonical_base64 lib value
    && leb (length (lib.from_base64 value)) max_file_chunk_bytes

-- `/^[A-Za-z_][A-Za-z0-9_]{0,63}$/`.
unfoldable pub is_variable_name : Text → Bool
is_variable_name [] = false
is_variable_name (c ∷ cs) =
    (is_alphanumeric c || c == b'_')
    && not (is_digit c)
    && leb (length cs) 63
    && all (λ d. is_alphanumeric d || d == b'_') cs

-- An environment as its list of names and values, the names being different.
unfoldable pub is_environment : List (Text × Text) → Bool
is_environment environment =
    all (λ entry. is_variable_name entry.0 && leb (length entry.1) 8192) environment
    && leb (length environment) 64

pub record CeremonyAssertion : Type 0 where
  pub credential_id : Text
  pub authenticator_data : Text
  pub client_data_json : Text
  pub signature : Text

unfoldable pub is_assertion : Library → CeremonyAssertion → Bool
is_assertion lib a =
    all (λ value. leb (length value) 8192 && is_canonical_base64 lib value)
      (a.credential_id ∷ a.authenticator_data ∷ a.client_data_json ∷ a.signature ∷ [])

pub data GuestOperation : Type 0 where
  hello bloom_status ceremony_pending : GuestOperation
  fs_list : (path : Text) → GuestOperation
  fs_read : (path : Text) (offset max_bytes : ℕ) → GuestOperation
  fs_write : (path : Text) (offset : ℕ) (payload : Text) (truncate : Bool) → GuestOperation
  fs_delete : (path : Text) (recursive : Bool) → GuestOperation
  job_start :
      (job_id : Text) (argv : List Text) (cwd : Text) (environment : List (Text × Text))
      (timeout_ms : ℕ)
      → GuestOperation
  job_status : (job_id : Text) (log_offset max_bytes : ℕ) → GuestOperation
  job_cancel : (job_id : Text) → GuestOperation
  connections_configure : (workspace_id wallet ca_public_key : Text) (nfs : Bool) → GuestOperation
  ceremony_approve : (tx_id : Text) (assertion : CeremonyAssertion) → GuestOperation

pub record GuestRequest : Type 0 where
  pub version : ℕ
  pub id : Text
  pub operation : GuestOperation

abbrev is_owner : Text → Bool
is_owner (z ∷ x ∷ digits) = z == b'0' && x == b'x' && length digits == 40 && all is_hex_lower digits
is_owner _ = false

-- `={0,2}`, and `[A-Za-z0-9+/]*={0,2}`.
abbrev is_padding : ℕ → Text → Bool
is_padding n [] = true
is_padding zero (c ∷ cs) = false
is_padding (suc n) (c ∷ cs) = c == b'=' && is_padding n cs

abbrev is_padded : Text → Bool
is_padded [] = true
is_padded (c ∷ cs) = is_base64_digit c && is_padded cs || is_padding 2 (c ∷ cs)

abbrev is_encoded : Text → Bool
is_encoded [] = false
is_encoded (c ∷ cs) = is_base64_digit c && is_padded cs

unfoldable pub is_ca_public_key : Text → Bool
is_ca_public_key value =
    is_sized 32 1024 value && starts_with (codes "ssh-ed25519 ") value && is_encoded (drop 12 value)

abbrev pub is_chunk_size : ℕ → ℕ → Bool
is_chunk_size most n = leb 1 n && leb n most

-- What `GuestRequest` asks of each operation.
unfoldable pub is_operation : Library → GuestOperation → Bool
is_operation lib hello = true
is_operation lib bloom_status = true
is_operation lib ceremony_pending = true
is_operation lib (fs_list path) = is_workspace_directory lib path
is_operation lib (fs_read path offset max_bytes) =
    is_relative_path lib path && is_chunk_size max_file_chunk_bytes max_bytes
is_operation lib (fs_write path offset payload truncate) =
    is_relative_path lib path && is_base64_chunk lib payload
is_operation lib (fs_delete path recursive) = is_relative_path lib path && not recursive
is_operation lib (job_start job_id argv cwd environment timeout_ms) =
    lib.is_uuid job_id
    && all (is_sized 1 4096) argv
    && leb 1 (length argv)
    && leb (length argv) 64
    && is_workspace_directory lib cwd
    && is_environment environment
    && leb 1_000 timeout_ms
    && leb timeout_ms (2 * 60 * 60_000)
is_operation lib (job_status job_id log_offset max_bytes) =
    lib.is_uuid job_id && is_chunk_size max_log_chunk_bytes max_bytes
is_operation lib (job_cancel job_id) = lib.is_uuid job_id
is_operation lib (connections_configure workspace_id wallet ca_public_key nfs) =
    lib.is_uuid workspace_id && is_owner wallet && is_ca_public_key ca_public_key
is_operation lib (ceremony_approve tx_id assertion) =
    is_request_id tx_id && is_assertion lib assertion

unfoldable pub is_guest_request : Library → GuestRequest → Bool
is_guest_request lib r = r.version == 1 && is_request_id r.id && is_operation lib r.operation

pub data GuestErrorCode : Type 0 where
  invalid_request not_found conflict limit_exceeded : GuestErrorCode
  permission_denied unavailable internal : GuestErrorCode

-- `GuestResponse`, over the values of JSON.
pub data GuestReply (J : Type 0) : Type 0 where
  done : (result : J) → GuestReply J
  failed : (code : GuestErrorCode) (message : Text) → GuestReply J

pub record GuestResponse (J : Type 0) : Type 0 where
  pub version : ℕ
  pub id : Text
  pub reply : GuestReply J

unfoldable pub is_guest_reply : {J : Type 0} → GuestReply J → Bool
is_guest_reply (done result) = true
is_guest_reply (failed code message) = is_sized 1 1024 message

unfoldable pub is_guest_response : {J : Type 0} → GuestResponse J → Bool
is_guest_response r = r.version == 1 && is_request_id r.id && is_guest_reply r.reply
