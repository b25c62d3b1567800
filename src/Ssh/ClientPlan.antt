-- ===== src/Ssh/ClientPlan.antt =====
-- src/ssh/client-plan.ts and src/ssh/platform.ts: the command line of OpenSSH for a workspace. The URL
-- parser is a parameter, which gives nothing where `new URL` throws.
pub mod Quoting
use bloom_workspaces.Base.{
  ℕ, zero, suc, Bool, true, false, ◌&&◌, ◌||◌, not, Option, none, some, List, [], ◌∷◌, ◌++◌, map,
  Text, codes, text_eq, includes, starts_with, ltb, leb, ◌==◌, length, drop, all, lower, is_digit,
  is_lower, Result, err, ok, ◌>>=◌, ◌>>◌, throw_if, or_throw, if◌then◌else◌,
}
use bloom_workspaces.Guest.Base64.{is_alphanumeric}
use bloom_workspaces.Egress.Authority.{is_port_text}
use bloom_workspaces.Configuration.{includes_text}
use bloom_workspaces.Ssh.Contracts.{
  SshError, SshAccessMode, mode_text, workspace_id_slots, matches, normalize_workspace_id,
}

pub data ClientPlatform : Type 0 where
  linux macos windows android ios unknown : ClientPlatform

pub data PlatformStatus : Type 0 where
  supported conditional fallback : PlatformStatus

unfoldable pub ssh_platform_capability : ClientPlatform → PlatformStatus
ssh_platform_capability linux = supported
ssh_platform_capability macos = supported
ssh_platform_capability windows = conditional
ssh_platform_capability android = fallback
ssh_platform_capability ios = fallback
ssh_platform_capability unknown = fallback

pub record SshClientPlanInput : Type 0 where
  pub gateway_origin : Text
  pub workspace_id : Text
  pub lease_id : Text
  pub mode : SshAccessMode
  pub proxy_helper_path : Text
  pub token_file_path : Text
  pub private_key_path : Text
  pub certificate_path : Text
  pub known_hosts_path : Text

pub data PlanError : Type 0 where
  invalid_lease_id invalid_origin origin_not_https unsafe_proxy_path invalid_path : PlanError
  contract_error : SshError → PlanError

-- What the plan reads of a URL.
pub record Url : Type 0 where
  pub protocol : Text
  pub username : Text
  pub password : Text
  pub pathname : Text
  pub search : Text
  pub hash : Text
  pub origin : Text

-- `[A-Za-z0-9._/-]`.
abbrev pub is_path_character : ℕ → Bool
is_path_character c = is_alphanumeric c || c == b'.' || c == b'_' || c == b'/' || c == b'-'

abbrev pub is_letter : ℕ → Bool
is_letter c = is_lower (lower c)

-- `SAFE_POSIX_PROXY_PATH` and `SAFE_WINDOWS_PROXY_PATH`.
unfoldable pub is_posix_proxy_path : Text → Bool
is_posix_proxy_path (slash ∷ c ∷ cs) = slash == b'/' && all is_path_character (c ∷ cs)
is_posix_proxy_path _ = false

unfoldable pub is_windows_proxy_path : Text → Bool
is_windows_proxy_path (drive ∷ colon ∷ slash ∷ c ∷ cs) =
    is_letter drive && colon == b':' && slash == b'/' && all is_path_character (c ∷ cs)
is_windows_proxy_path _ = false

unfoldable pub safe_proxy_path : Text → Result PlanError Text
safe_proxy_path value = do
  throw_if
      (not (is_posix_proxy_path value) && not (is_windows_proxy_path value)
        || includes_text (codes "..") value)
      unsafe_proxy_path
  ok value

unfoldable pub local_path : Text → Result PlanError Text
local_path value = do
  throw_if
      (length value == 0
        || ltb 4096 (length value)
        || includes 0 value
        || includes b'\n' value
        || includes b'\r' value)
      invalid_path
  ok value

-- `[a-z0-9.-]+(?::[0-9]{1,5})?`, after the first character.
abbrev pub is_host_character : ℕ → Bool
is_host_character c = is_lower c || is_digit c || c == b'.' || c == b'-'

abbrev pub is_host_rest : Text → Bool
is_host_rest [] = true
is_host_rest (c ∷ cs) = is_host_character c && is_host_rest cs || c == b':' && is_port_text cs

abbrev pub is_host_port : Text → Bool
is_host_port [] = false
is_host_port (c ∷ cs) = is_host_character c && is_host_rest cs

unfoldable pub is_https_origin : Text → Bool
is_https_origin origin = starts_with (codes "https://") origin && is_host_port (drop 8 origin)

abbrev is_nonempty : Text → Bool
is_nonempty s = not (length s == 0)

unfoldable pub is_plain_url : Url → Bool
is_plain_url url =
    text_eq url.protocol (codes "https:")
    && not (is_nonempty url.username)
    && not (is_nonempty url.password)
    && text_eq url.pathname (codes "/")
    && not (is_nonempty url.search)
    && not (is_nonempty url.hash)

abbrev pub lift_contract : {A : Type 0} → Result SshError A → Result PlanError A
lift_contract (ok a) = ok a
lift_contract (err e) = err (contract_error e)

abbrev pub proxy_command_text : Text → Text → Text → Text → SshAccessMode → Text → Text
proxy_command_text helper origin id lease mode token_file =
    helper
    ++ (codes " --origin "
        ++ (origin
            ++ (codes " --workspace "
                ++ (id
                    ++ (codes " --lease "
                        ++ (map lower lease
                            ++ (codes " --mode "
                                ++ (mode_text mode ++ (codes " --token-file " ++ token_file)))))))))

-- The arguments before and after the ProxyCommand.
abbrev pub argv_text : Text → Text → Text → Text → Text → List Text
argv_text command key certificate known_hosts id =
    codes "ssh"
    ∷ codes "-o"
    ∷ (codes "ProxyCommand=" ++ command)
    ∷ codes "-o"
    ∷ codes "BatchMode=yes"
    ∷ codes "-o"
    ∷ codes "IdentitiesOnly=yes"
    ∷ codes "-o"
    ∷ codes "StrictHostKeyChecking=yes"
    ∷ codes "-o"
    ∷ (codes "UserKnownHostsFile=" ++ known_hosts)
    ∷ codes "-o"
    ∷ (codes "CertificateFile=" ++ certificate)
    ∷ codes "-o"
    ∷ (codes "HostKeyAlias=bloom-" ++ id)
    ∷ codes "-o"
    ∷ codes "ServerAliveInterval=20"
    ∷ codes "-o"
    ∷ codes "ServerAliveCountMax=2"
    ∷ codes "-i"
    ∷ key
    ∷ (codes "workspace@bloom-" ++ id)
    ∷ []

module _ (parse_url : Text → Option Url) where
  unfoldable pub normalize_https_origin : Text → Result PlanError Text
  normalize_https_origin value = do
    url ← or_throw (parse_url value) invalid_origin
    throw_if (not (is_plain_url url)) origin_not_https
    throw_if (not (is_https_origin (map lower url.origin))) invalid_origin
    ok (map lower url.origin)

  unfoldable pub create_ssh_client_argv : SshClientPlanInput → Result PlanError (List Text)
  create_ssh_client_argv input = do
    id ← lift_contract (normalize_workspace_id input.workspace_id)
    throw_if (not (matches workspace_id_slots input.lease_id)) invalid_lease_id
    origin ← normalize_https_origin input.gateway_origin
    helper ← safe_proxy_path input.proxy_helper_path
    token_file ← safe_proxy_path input.token_file_path
    key ← local_path input.private_key_path
    certificate ← local_path input.certificate_path
    known_hosts ← local_path input.known_hosts_path
    ok (
        argv_text (proxy_command_text helper origin id input.lease_id input.mode token_file) key
          certificate known_hosts id)
