-- ===== src/Configuration/Safety.antt =====
-- What a configuration that starts guarantees (src/config.ts, `assertSafeConfiguration`).
use bloom_workspaces.Base.{
  ap, not, ◌&&◌, ◌↔◌, Bool-cases, inl, inr, ℕ, ◌≤◌, ◌≡◌, ◌≢◌, refl, Bool, true, false, List, [],
  ◌∷◌, if◌then◌else◌, Text, codes, starts_with, All, arith, Result, ok, >>=-eq-ok,
}
use bloom_workspaces.Capability.{Runtime, process, qemu, firecracker}
use bloom_workspaces.Configuration.{
  Role, all_roles, control, agent, internet, tcg, SafetyConfig, ConfigurationError, serves_control,
  serves_agent, is_qemu, is_development, is_firecracker, is_internet, is_tcg, is_weak, VmEgress,
  VmAccel, no_egress, controlled, kvm, is_given, includes_text, messages, throw_messages,
  capability_tests, public_tests, assert_safe_configuration, unsafe_capabilities, unsafe_public,
}
use Prim.Native.String.{String}

messages-nil : (tests : List (Bool × String)) → messages tests ≡ [] → All (λ t. t.0 ≡ false) tests
messages-nil [] h = tt
messages-nil ((true, m) ∷ tests) h = cc
messages-nil ((false, m) ∷ tests) h = (refl, messages-nil tests h)

throw_messages-ok :
    (ms : List String) (error : List String → ConfigurationError)
    → throw_messages ms error ≡ ok tt
    → ms ≡ []
throw_messages-ok [] error h = refl
throw_messages-ok (m ∷ ms) error h = cc

-- SSH and NFS where they can run, with what they need.
pub record IsCapable (config : SafetyConfig) (role : Role) : Type 0 where
  pub ssh_runtime : config.ssh_enabled ≡ true → config.runtime ≡ qemu
  pub ssh_key : role ≢ control → config.ssh_enabled ≡ true → is_given config.ssh_ca_key_path ≡ true
  pub nfs_gateway : config.nfs_enabled ≡ true → config.ssh_enabled ≡ true
  pub nfs_runtime : config.nfs_enabled ≡ true → config.runtime ≡ qemu
  pub nfs_kernel :
      role ≢ control → config.nfs_enabled ≡ true → is_given config.nfs_kernel_config ≡ true

-- No default secret, at least 32 bytes.
abbrev pub IsStrong : (Text → ℕ) → Text → Type 0
IsStrong byte_length secret =
    (includes_text (codes "change-me") secret ≡ false) × (32 ≤ byte_length secret)

pub record IsPublicSafe (byte_length : Text → ℕ) (config : SafetyConfig) (role : Role)
    : Type 0 where
  pub https : role ≢ agent → starts_with (codes "https://") config.origin ≡ true
  pub no_dev_auth : role ≢ agent → config.dev_auth ≡ false
  pub no_dev_modes : (config.dev_mock_ceremony ≡ false) × (config.dev_real_bloom ≡ false)
  pub isolated : config.runtime ≢ process
  pub turnstile :
      role ≢ agent
      → (is_given config.turnstile_site_key ≡ true) × (is_given config.turnstile_secret ≡ true)
  pub session : role ≢ agent → IsStrong byte_length config.session_secret
  pub token : IsStrong byte_length config.agent_token
  pub filtered : config.vm_egress ≢ internet
  pub jailed : config.runtime ≡ firecracker → config.firecracker_jailed ≡ true
  pub accelerated : config.vm_accel ≢ tcg

abbrev pub IsSafe : (Text → ℕ) → SafetyConfig → Role → Type 0
IsSafe byte_length config role =
    IsCapable config role × (config.public_mode ≡ true → IsPublicSafe byte_length config role)

tests-IsCapable :
    (config : SafetyConfig) (role : Role)
    → All (λ t. t.0 ≡ false) (capability_tests config role)
    → IsCapable config role
tests-IsCapable config role (a, (b, (c, (d, (e, _))))) = record {
  ssh_runtime = λ h. ground arith;
  ssh_key = λ r h. ground arith;
  nfs_gateway = λ h. ground arith;
  nfs_runtime = λ h. ground arith;
  nfs_kernel = λ r h. ground arith;
}

serves_control_iff : (role : Role) → role ≢ agent → serves_control role ≡ true
serves_control_iff all_roles h = refl
serves_control_iff control h = refl
serves_control_iff agent h = absurd (h refl)

tests-IsPublicSafe :
    (byte_length : Text → ℕ) (config : SafetyConfig) (role : Role)
    → All (λ t. t.0 ≡ false) (public_tests byte_length config role)
    → IsPublicSafe byte_length config role
tests-IsPublicSafe byte_length config role
      (a, (b, (c, (d, (e, (f, (g, (h, (i, (j, (k, _))))))))))) =
    record {
      https = λ r. let s = serves_control_iff role r in ground arith;
      no_dev_auth = λ r. let s = serves_control_iff role r in ground arith;
      no_dev_modes = (c, d);
      isolated = λ r. ground arith;
      turnstile = λ r. let s = serves_control_iff role r in (ground arith, ground arith);
      session = λ r. let s = serves_control_iff role r in (ground arith, ground arith);
      token = (ground arith, ground arith);
      filtered = λ r. ground arith;
      jailed = λ r. ground arith;
      accelerated = λ r. ground arith;
    }

nil-messages : (tests : List (Bool × String)) → All (λ t. t.0 ≡ false) tests → messages tests ≡ []
nil-messages [] h = refl
nil-messages ((true, m) ∷ tests) h = cc (h.0)
nil-messages ((false, m) ∷ tests) h = nil-messages tests h.1

-- Tests of one role, and of one runtime.
asked_agent :
    (role : Role) (test : Bool)
    → (role ≢ control → test ≡ false)
    → (serves_agent role && test) ≡ false
asked_agent all_roles test h = h (λ e. cc)
asked_agent control test h = refl
asked_agent agent test h = h (λ e. cc)

asked_control :
    (role : Role) (test : Bool)
    → (role ≢ agent → test ≡ false)
    → (serves_control role && test) ≡ false
asked_control all_roles test h = h (λ e. cc)
asked_control control test h = h (λ e. cc)
asked_control agent test h = refl

required : (on given : Bool) → (on ≡ true → given ≡ true) → (on && not given) ≡ false
required true given h = rw (h refl) refl
required false given h = refl

needs_qemu :
    (on : Bool) (runtime : Runtime)
    → (on ≡ true → runtime ≡ qemu)
    → (on && not (is_qemu runtime)) ≡ false
needs_qemu on runtime h = required on (is_qemu runtime) (λ e. ap is_qemu (h e))

IsCapable-tests :
    (config : SafetyConfig) (role : Role)
    → IsCapable config role
    → All (λ t. t.0 ≡ false) (capability_tests config role)
IsCapable-tests config role v = (
  needs_qemu config.ssh_enabled config.runtime v.ssh_runtime,
  (
    asked_agent role _
        (λ r. required config.ssh_enabled (is_given config.ssh_ca_key_path) (v.ssh_key r)),
    (
      required config.nfs_enabled config.ssh_enabled v.nfs_gateway,
      (
        needs_qemu config.nfs_enabled config.runtime v.nfs_runtime,
        (
          asked_agent role _ (λ r.
              required config.nfs_enabled (is_given config.nfs_kernel_config) (v.nfs_kernel r)),
          (tt),
        ),
      ),
    ),
  ),
)

not_process : (runtime : Runtime) → runtime ≢ process → is_development runtime ≡ false
not_process process h = absurd (h refl)
not_process qemu h = refl
not_process firecracker h = refl

not_internet : (egress : VmEgress) → egress ≢ internet → is_internet egress ≡ false
not_internet no_egress h = refl
not_internet controlled h = refl
not_internet internet h = absurd (h refl)

not_tcg : (accel : VmAccel) → accel ≢ tcg → is_tcg accel ≡ false
not_tcg kvm h = refl
not_tcg tcg h = absurd (h refl)

jailed_runtime :
    (runtime : Runtime) (jailed : Bool)
    → (runtime ≡ firecracker → jailed ≡ true)
    → (is_firecracker runtime && not jailed) ≡ false
jailed_runtime process jailed h = refl
jailed_runtime qemu jailed h = refl
jailed_runtime firecracker jailed h = rw (h refl) refl

strong :
    (byte_length : Text → ℕ) (secret : Text)
    → IsStrong byte_length secret
    → is_weak byte_length secret ≡ false
strong byte_length secret v = ground arith

IsPublicSafe-tests :
    (byte_length : Text → ℕ) (config : SafetyConfig) (role : Role)
    → IsPublicSafe byte_length config role
    → All (λ t. t.0 ≡ false) (public_tests byte_length config role)
IsPublicSafe-tests byte_length config role v = (
  asked_control role _ (λ r. ap not (v.https r)),
  (
    asked_control role _ v.no_dev_auth,
    (
      v.no_dev_modes.0,
      (
        v.no_dev_modes.1,
        (
          not_process config.runtime v.isolated,
          (
            asked_control role _
                (λ r. let (site, secret) = v.turnstile r in rw (site, secret) refl),
            (
              asked_control role _ (λ r. strong byte_length config.session_secret (v.session r)),
              (
                strong byte_length config.agent_token v.token,
                (
                  not_internet config.vm_egress v.filtered,
                  (
                    jailed_runtime config.runtime config.firecracker_jailed v.jailed,
                    (not_tcg config.vm_accel v.accelerated, (tt)),
                  ),
                ),
              ),
            ),
          ),
        ),
      ),
    ),
  ),
)

accepted-IsSafe :
    (byte_length : Text → ℕ) (config : SafetyConfig) (role : Role)
    → assert_safe_configuration byte_length config role ≡ ok tt
    → IsSafe byte_length config role
unfolding assert_safe_configuration
accepted-IsSafe byte_length config role e =
    let (u, able, rest) =
      >>=-eq-ok (throw_messages (messages (capability_tests config role)) unsafe_capabilities) _
        e in
    (
      tests-IsCapable config role (
          messages-nil (capability_tests config role)
            (throw_messages-ok (messages (capability_tests config role)) unsafe_capabilities able)),
      λ p. tests-IsPublicSafe byte_length config role (
          messages-nil (public_tests byte_length config role) (
            throw_messages-ok (messages (public_tests byte_length config role)) unsafe_public
              (public_part config.public_mode _ p rest))),
    )
  where
    public_part :
        (b : Bool) (r : Result ConfigurationError (Unit {0}))
        → b ≡ true
        → (if b then r else ok tt) ≡ ok tt
        → r ≡ ok tt
    public_part true r p h = h
    public_part false r p h = cc

IsSafe-accepted :
    (byte_length : Text → ℕ) (config : SafetyConfig) (role : Role)
    → IsSafe byte_length config role
    → assert_safe_configuration byte_length config role ≡ ok tt
unfolding assert_safe_configuration
IsSafe-accepted byte_length config role (able, safe) =
    let first = nil-messages (capability_tests config role) (IsCapable-tests config role able) in
    rw first (elim (Bool-cases config.public_mode) [
      | inl on ↦
          rw
            (
              on,
              nil-messages (public_tests byte_length config role)
                  (IsPublicSafe-tests byte_length config role (safe on)),
            )
            refl
      | inr off ↦ rw off refl
    ])

-- A configuration is accepted exactly when it is safe. It enables SSH and NFS only on QEMU and with
-- what they need, the key of the SSH authority and the kernel configuration being asked of the
-- agent's roles alone. In public mode the roles that serve the control plane, and these alone, need
-- HTTPS, no development sign-in, Turnstile keys and a session secret of at least 32 bytes that is
-- not the default; every role needs no development switch, an isolating runtime, such a token,
-- no unfiltered egress, the jailer around Firecracker and no software emulation. Nothing else is
-- asked.
pub assert_safe_configuration_iff :
    (byte_length : Text → ℕ) (config : SafetyConfig) (role : Role)
    → (assert_safe_configuration byte_length config role ≡ ok tt) ↔ IsSafe byte_length config role
assert_safe_configuration_iff byte_length config role =
    (accepted-IsSafe byte_length config role, IsSafe-accepted byte_length config role)
