-- ===== src/Configuration.antt =====
-- `assertSafeConfiguration` of src/config.ts: which configurations a process starts with. The
-- messages that the source joins are kept as a list. `Buffer.byteLength` is a parameter.
pub mod Safety
mod Tests
use bloom_workspaces.Base.{
  ℕ, Bool, true, false, ◌&&◌, ◌||◌, not, Option, none, some, List, [], ◌∷◌, ltb, if◌then◌else◌,
  Text, codes, starts_with, Result, ok, err, ◌>>=◌, ◌>>◌,
}
use bloom_workspaces.Capability.{Runtime, process, qemu, firecracker}
use Prim.Native.String.{String}

pub data Role : Type 0 where
  all_roles control agent : Role

pub data VmEgress : Type 0 where
  no_egress controlled internet : VmEgress

pub data VmAccel : Type 0 where
  kvm tcg : VmAccel

pub record SafetyConfig : Type 0 where
  pub origin : Text
  pub runtime : Runtime
  pub dev_auth : Bool
  pub dev_mock_ceremony : Bool
  pub dev_real_bloom : Bool
  pub public_mode : Bool
  pub turnstile_site_key : Option Text
  pub turnstile_secret : Option Text
  pub session_secret : Text
  pub agent_token : Text
  pub vm_egress : VmEgress
  pub vm_accel : VmAccel
  pub firecracker_jailed : Bool
  pub ssh_enabled : Bool
  pub ssh_ca_key_path : Option Text
  pub nfs_enabled : Bool
  pub nfs_kernel_config : Option Text

pub data ConfigurationError : Type 0 where
  unsafe_capabilities unsafe_public : List String → ConfigurationError

-- `role !== "control"`, and `role !== "agent"`.
abbrev pub serves_agent : Role → Bool
serves_agent control = false
serves_agent _ = true

abbrev pub serves_control : Role → Bool
serves_control agent = false
serves_control _ = true

abbrev pub is_qemu : Runtime → Bool
is_qemu qemu = true
is_qemu _ = false

abbrev pub is_development : Runtime → Bool
is_development process = true
is_development _ = false

abbrev pub is_firecracker : Runtime → Bool
is_firecracker firecracker = true
is_firecracker _ = false

abbrev pub is_internet : VmEgress → Bool
is_internet internet = true
is_internet _ = false

abbrev pub is_tcg : VmAccel → Bool
is_tcg tcg = true
is_tcg kvm = false

-- A value that is neither undefined nor the empty text.
abbrev pub is_given : Option Text → Bool
is_given none = false
is_given (some []) = false
is_given (some (c ∷ cs)) = true

-- `text.includes(part)`.
abbrev pub includes_text : Text → Text → Bool
includes_text part [] = starts_with part []
includes_text part (c ∷ cs) = starts_with part (c ∷ cs) || includes_text part cs

-- Each test with the message that is pushed where it holds.
abbrev pub messages : List (Bool × String) → List String
messages [] = []
messages ((test, message) ∷ tests) = if test then message ∷ messages tests else messages tests

abbrev pub throw_messages :
    List String → (List String → ConfigurationError) → Result ConfigurationError (Unit {0})
throw_messages [] error = ok tt
throw_messages (m ∷ ms) error = err (error (m ∷ ms))

abbrev pub capability_tests : SafetyConfig → Role → List (Bool × String)
capability_tests config role =
    (
      config.ssh_enabled && not (is_qemu config.runtime),
      "SSH is available only on the QEMU reference runtime",
    )
    ∷ (
      serves_agent role && (config.ssh_enabled && not (is_given config.ssh_ca_key_path)),
      "BLOOM_SSH_CA_KEY is required when SSH is enabled",
    )
    ∷ (config.nfs_enabled && not config.ssh_enabled, "native NFS requires the SSH gateway")
    ∷ (
      config.nfs_enabled && not (is_qemu config.runtime),
      "native NFS is available only on the QEMU reference runtime",
    )
    ∷ (
      serves_agent role && (config.nfs_enabled && not (is_given config.nfs_kernel_config)),
      "BLOOM_NFS_KERNEL_CONFIG is required to verify the custom NFSD kernel",
    )
    ∷ []

module _ (byte_length : Text → ℕ) where
  -- A secret that is a default one or shorter than 32 bytes.
  abbrev pub is_weak : Text → Bool
  is_weak secret = includes_text (codes "change-me") secret || ltb (byte_length secret) 32

  abbrev pub public_tests : SafetyConfig → Role → List (Bool × String)
  public_tests config role =
      (
        serves_control role && not (starts_with (codes "https://") config.origin),
        "BLOOM_ORIGIN must use HTTPS",
      )
      ∷ (serves_control role && config.dev_auth, "BLOOM_DEV_AUTH must be disabled")
      ∷ (config.dev_mock_ceremony, "BLOOM_DEV_MOCK_CEREMONY is forbidden in public mode")
      ∷ (config.dev_real_bloom, "BLOOM_DEV_REAL_BLOOM is forbidden in public mode")
      ∷ (is_development config.runtime, "the process runtime is forbidden")
      ∷ (
        serves_control role
            && (not (is_given config.turnstile_site_key) || not (is_given config.turnstile_secret)),
        "Turnstile keys are required",
      )
      ∷ (
        serves_control role && is_weak config.session_secret,
        "BLOOM_SESSION_SECRET must be at least 32 random bytes",
      )
      ∷ (is_weak config.agent_token, "BLOOM_AGENT_TOKEN must be at least 32 random bytes")
      ∷ (
        is_internet config.vm_egress,
        "unfiltered QEMU user-mode egress is forbidden; deploy an audited egress proxy first",
      )
      ∷ (
        is_firecracker config.runtime && not config.firecracker_jailed,
        "Firecracker must run through the jailer",
      )
      ∷ (is_tcg config.vm_accel, "software emulation (TCG) is forbidden in public mode; use KVM")
      ∷ []

  unfoldable pub assert_safe_configuration :
      SafetyConfig → Role → Result ConfigurationError (Unit {0})
  assert_safe_configuration config role = do
    throw_messages (messages (capability_tests config role)) unsafe_capabilities
    (if config.public_mode
        then throw_messages (messages (public_tests config role)) unsafe_public
        else ok tt)
