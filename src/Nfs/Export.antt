-- ===== src/Nfs/Export.antt =====
-- src/nfs/export-plan.ts: the commands by which the guest exports its workspace.
use bloom_workspaces.Base.{
  ℕ, Bool, true, false, not, List, [], ◌∷◌, ◌++◌, map, Text, codes, lower, Result, ok, ◌>>◌,
  throw_if,
}
use bloom_workspaces.Ssh.Contracts.{is_workspace_id}

pub data RuntimeKind : Type 0 where
  process qemu firecracker : RuntimeKind

abbrev pub is_qemu_runtime : RuntimeKind → Bool
is_qemu_runtime process = false
is_qemu_runtime qemu = true
is_qemu_runtime firecracker = false

pub record Command : Type 0 where
  pub program : Text
  pub args : List Text

pub data AuthenticationBoundary : Type 0 where
  ssh_certificate : AuthenticationBoundary

pub data IdentityMapping : Type 0 where
  all_squash_workspace_user : IdentityMapping

pub record ExportSecurity : Type 0 where
  pub versions : List ℕ
  pub authentication_boundary : AuthenticationBoundary
  pub identity_mapping : IdentityMapping

pub record NfsExportPlan : Type 0 where
  pub runtime : RuntimeKind
  pub listen_host : Text
  pub listen_port : ℕ
  pub export_path : Text
  pub prepare : List Command
  pub daemons : List Command
  pub activate : List Command
  pub stop : List Command
  pub security : ExportSecurity

pub data ExportError : Type 0 where
  qemu_only no_nfsd not_persistent invalid_id : ExportError

pub record ExportInput : Type 0 where
  pub workspace_id : Text
  pub runtime : RuntimeKind
  pub nfsd_built_in : Bool
  pub persistent_workspace : Bool

abbrev pub export_target : Text
export_target = codes "127.0.0.1:/workspace"

abbrev pub export_options : Text
export_options =
    codes
      "rw,fsid=0,sync,no_subtree_check,root_squash,all_squash,anonuid=1000,anongid=1000,insecure"

-- The options that refuse UDP and the versions before 4.
abbrev pub only_version_four : List Text
only_version_four =
    codes "--no-udp"
    ∷ codes "--no-nfs-version"
    ∷ codes "2"
    ∷ codes "--no-nfs-version"
    ∷ codes "3"
    ∷ []

abbrev pub prepare_commands : Text → List Command
prepare_commands id =
    record { program = codes "/bin/hostname"; args = (codes "bloom-" ++ map lower id) ∷ [] }
    ∷ record {
      program = codes "/bin/mount";
      args = codes "-t" ∷ codes "nfsd" ∷ codes "nfsd" ∷ codes "/proc/fs/nfsd" ∷ [];
    }
    ∷ record {
      program = codes "/usr/sbin/exportfs";
      args = codes "-i" ∷ codes "-o" ∷ export_options ∷ export_target ∷ [];
    }
    ∷ []

abbrev pub daemon_commands : List Command
daemon_commands =
    record {
      program = codes "/usr/sbin/rpc.mountd";
      args = codes "--foreground" ∷ (only_version_four ++ codes "--ttl" ∷ codes "10" ∷ []);
    }
    ∷ []

abbrev pub activate_commands : List Command
activate_commands =
    record {
      program = codes "/usr/sbin/rpc.nfsd";
      args =
          codes "--host"
          ∷ codes "127.0.0.1"
          ∷ (only_version_four
              ++ codes "--nfs-version"
                ∷ codes "4"
                ∷ codes "--leasetime"
                ∷ codes "10"
                ∷ codes "--grace-time"
                ∷ codes "10"
                ∷ codes "--port"
                ∷ codes "2049"
                ∷ codes "1"
                ∷ []);
    }
    ∷ []

abbrev pub stop_commands : List Command
stop_commands =
    record { program = codes "/usr/sbin/rpc.nfsd"; args = codes "0" ∷ [] }
    ∷ record { program = codes "/usr/sbin/exportfs"; args = codes "-u" ∷ export_target ∷ [] }
    ∷ record { program = codes "/bin/umount"; args = codes "/proc/fs/nfsd" ∷ [] }
    ∷ []

abbrev pub export_plan : Text → NfsExportPlan
export_plan id = record {
  runtime = qemu;
  listen_host = codes "127.0.0.1";
  listen_port = 2049;
  export_path = codes "/workspace";
  prepare = prepare_commands id;
  daemons = daemon_commands;
  activate = activate_commands;
  stop = stop_commands;
  security = record {
    versions = 4 ∷ [];
    authentication_boundary = ssh_certificate;
    identity_mapping = all_squash_workspace_user;
  };
}

unfoldable pub create_nfs_export_plan : ExportInput → Result ExportError NfsExportPlan
create_nfs_export_plan input = do
  throw_if (not (is_qemu_runtime input.runtime)) qemu_only
  throw_if (not input.nfsd_built_in) no_nfsd
  throw_if (not input.persistent_workspace) not_persistent
  throw_if (not (is_workspace_id input.workspace_id)) invalid_id
  ok (export_plan input.workspace_id)
