-- ===== src/Configuration/Tests.antt =====
-- The configuration check of src/config.ts at a concrete configuration.
use bloom_workspaces.Base.{◌↔◌, ok, ◌≡◌, true, false, none, some, Text, codes, length}
use bloom_workspaces.Capability.{qemu}
use bloom_workspaces.Configuration.{
  SafetyConfig, all_roles, no_egress, kvm, assert_safe_configuration,
}
use bloom_workspaces.Configuration.Safety.{IsSafe, assert_safe_configuration_iff}

abbrev secret : Text
secret = codes "0123456789abcdef0123456789abcdef"

abbrev public_config : SafetyConfig
public_config = record {
  origin = codes "https://bloom.example";
  runtime = qemu;
  dev_auth = false;
  dev_mock_ceremony = false;
  dev_real_bloom = false;
  public_mode = true;
  turnstile_site_key = some (codes "site");
  turnstile_secret = some (codes "key");
  session_secret = secret;
  agent_token = secret;
  vm_egress = no_egress;
  vm_accel = kvm;
  firecracker_jailed = false;
  ssh_enabled = true;
  ssh_ca_key_path = some (codes "/ca");
  nfs_enabled = false;
  nfs_kernel_config = none;
}

assert_safe_configuration_iff_example :
    (assert_safe_configuration length public_config all_roles ≡ ok tt)
    ↔ IsSafe length public_config all_roles
assert_safe_configuration_iff_example = assert_safe_configuration_iff length public_config all_roles
