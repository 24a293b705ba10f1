-- ===== src/Config.antt =====
-- pkg/juicefs/config/config.go: constants, the variables that cmd/driver/main.go sets once, and the
-- lock of a pod name. pkg/juicefs/config/setting.go is in the child Setting.
pub mod Setting
use dfs_csi.Prelude.{ℕ, ◌%◌, String}

abbrev pub pod_mount_base : String
pod_mount_base = "/mosfs"

abbrev pub mount_base : String
mount_base = "/var/lib/mosfs"

abbrev pub fs_type : String
fs_type = "juicefs"

abbrev pub cli_path : String
cli_path = "/usr/bin/dfscli"

abbrev pub ce_cli_path : String
ce_cli_path = cli_path

-- `CeMountPath` is read before `JfsMountPath` in the source, and Go gives both this value.
abbrev pub jfs_mount_path : String
jfs_mount_path = "/sbin/mount.juicefs"

abbrev pub delete_delay_time_key : String
delete_delay_time_key = "mosfs-delete-delay"

abbrev pub delete_delay_at_key : String
delete_delay_at_key = "mosfs-delete-at"

abbrev pub pod_type_key : String
pod_type_key = "app.kubernetes.io/name"

abbrev pub pod_type_value : String
pod_type_value = "mosfs-mount"

abbrev pub finalizer : String
finalizer = "szsandstone.com/mosfsfinalizer"

-- The variables of the package.
pub record Config : Type 0 where
  pub node_name : String
  pub namespace : String
  pub mount_image : String
  pub mount_point_path : String
  pub jfs_config_path : String

-- GetPodLock: the index of the lock, for the 32-bit FNV-1a sum of the name; `int` has 64 bits.
unfoldable pub pod_lock_index : (String → ℕ) → String → ℕ
pod_lock_index fnv32a pod_name = fnv32a pod_name % 1024
