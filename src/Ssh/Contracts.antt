-- ===== src/Ssh/Contracts.antt =====
-- src/ssh/contracts.ts: identifiers, access modes and principals. The hexadecimal SHA-256 digest of
-- Node's `crypto` is the parameter `sha256_hex`.
pub mod Principals
use bloom_workspaces.Base.{
  ◌≡◌, refl, ℕ, zero, suc, ◌*◌, Bool, true, false, ◌&&◌, ◌||◌, not, List, [], ◌∷◌, ◌++◌, map, ltb,
  leb, ◌==◌, Text, codes, lower, is_hex_lower, take, Result, ok, err, ◌>>=◌, ◌>>◌, throw_if,
}

pub data SshError : Type 0 where
  invalid_workspace_id invalid_wallet invalid_port : SshError
  endpoint_not_private invalid_socket_path socket_escapes : SshError
  workspace_lease_expired invalid_requested_lease lease_too_close : SshError
  signer_failed wrong_scope : SshError
  lease_expired_or_revoked scope_mismatch invalid_token connection_limit : SshError
  connection_failed lease_expired lease_not_found : SshError
  root_not_absolute invalid_maximum_lease invalid_connection_limit : SshError

abbrev pub max_ssh_lease_ms : ℕ
max_ssh_lease_ms = 2 * 60 * 60_000

abbrev pub default_ssh_lease_ms : ℕ
default_ssh_lease_ms = 15 * 60_000

pub data SshAccessMode : Type 0 where
  shell nfs : SshAccessMode

-- What a regular expression asks of one character.
pub data Slot : Type 0 where
  hex dash version variant : Slot

abbrev pub fits : Slot → ℕ → Bool
fits hex c = is_hex_lower (lower c)
fits dash c = c == b'-'
fits version c = c == b'4'
fits variant c = lower c == b'8' || lower c == b'9' || lower c == b'a' || lower c == b'b'

abbrev pub matches : List Slot → Text → Bool
matches [] [] = true
matches [] (c ∷ cs) = false
matches (slot ∷ slots) [] = false
matches (slot ∷ slots) (c ∷ cs) = fits slot c && matches slots cs

abbrev pub repeat : ℕ → Slot → List Slot → List Slot
repeat zero slot rest = rest
repeat (suc n) slot rest = slot ∷ repeat n slot rest

-- `WORKSPACE_ID`, with its `i` flag.
abbrev pub workspace_id_slots : List Slot
workspace_id_slots = repeat 8 hex (
    dash
    ∷ repeat 4 hex
        (dash ∷ version ∷ repeat 3 hex (dash ∷ variant ∷ repeat 3 hex (dash ∷ repeat 12 hex []))))

-- `WALLET`, with its `i` flag.
unfoldable pub is_wallet : Text → Bool
is_wallet (z ∷ x ∷ digits) = z == b'0' && lower x == b'x' && matches (repeat 40 hex []) digits
is_wallet _ = false

unfoldable pub is_workspace_id : Text → Bool
is_workspace_id value = matches workspace_id_slots value

unfoldable pub normalize_workspace_id : Text → Result SshError Text
normalize_workspace_id value = do
  throw_if (not (is_workspace_id value)) invalid_workspace_id
  ok (map lower value)

unfoldable pub normalize_wallet : Text → Result SshError Text
normalize_wallet value = do throw_if (not (is_wallet value)) invalid_wallet; ok (map lower value)

abbrev pub mode_text : SshAccessMode → Text
mode_text shell = codes "shell"
mode_text nfs = codes "nfs"

abbrev pub mode_eq : SshAccessMode → SshAccessMode → Bool
mode_eq shell shell = true
mode_eq shell nfs = false
mode_eq nfs shell = false
mode_eq nfs nfs = true

pub mode_eq_refl : (mode : SshAccessMode) → mode_eq mode mode ≡ true
mode_eq_refl shell = refl
mode_eq_refl nfs = refl

unfoldable pub assert_port : ℕ → Result SshError ℕ
assert_port value = do throw_if (ltb value 1 || ltb 65535 value) invalid_port; ok value

-- The template of `workspacePrincipal`, for a normalised id and wallet.
unfoldable pub principal_text : (Text → Text) → Text → Text → SshAccessMode → Text
principal_text sha256_hex id owner mode =
    codes "bloom-"
    ++ (mode_text mode ++ (codes "-" ++ (id ++ (codes "-w-" ++ take 32 (sha256_hex owner)))))

unfoldable pub workspace_principal :
    (Text → Text) → Text → Text → SshAccessMode → Result SshError Text
unfolding principal_text
workspace_principal sha256_hex workspace_id wallet mode = do
  id ← normalize_workspace_id workspace_id
  owner ← normalize_wallet wallet
  ok (principal_text sha256_hex id owner mode)
