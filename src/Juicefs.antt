-- ===== src/Juicefs.antt =====
-- pkg/juicefs/juicefs.go: the directories of volumes in a mounted file system.
pub mod Http
pub mod ConsoleApi
pub mod Auth
pub mod Mounting
pub mod Modes
pub mod Objects
use dfs_csi.Prelude.{
  ℕ, String, Bool, true, false, List, [], ◌∷◌, ◌<>◌, ◌==◌, not, eqb, ltb, if◌then◌else◌, some, none,
}
use dfs_csi.Strings.{join_path, base_name}
use dfs_csi.Config.{cli_path, ce_cli_path}
use dfs_csi.Config.Setting.{JfsSetting}
use dfs_csi.System.{System, Code, Failure, Output, is_not_found, ok, err}
use dfs_csi.System.Io.{
  Io, pure, fail, attempt, get_volume, path_exists, mkdir_all, chmod, stat, command, unmount,
  cleanup_mount_point, ◌>>=◌, ◌>>◌, on_result, on_option, branch,
}
use dfs_csi.Juicefs.ConsoleApi.{Codec, Console, create_quota, delete_quota, set_qos}

-- jfs. JfsMount makes its Console in every case where it returns one.
pub record Jfs : Type 0 where
  pub console : Console
  pub name : String
  pub mount_path : String
  pub setting : JfsSetting

abbrev pub internal : String → Failure
internal text = Failure.status Code.internal text

-- A call whose error is reported as an internal one.
abbrev pub or_internal {ℓ} : {A : Type ℓ} → Io A → String → Io A
or_internal m text = attempt m >>= λ r. on_result r (λ a. pure a) (λ _. fail (internal text))

-- `if err != nil` behind CombinedOutput.
abbrev pub check_output : Output → Io (Unit {0})
check_output out = on_option out.error (pure tt) (λ e. fail e)

module _ (sys : System) where
  unfoldable pub is_shared : Bool
  is_shared = elim (sys.getenv "STORAGE_CLASS_SHARE_MOUNT") [ none ↦ false | some s ↦ s == "true" ]

  -- GetUniqueId
  unfoldable pub get_unique_id : String → Io String
  unfolding is_shared
  get_unique_id volume_id =
      branch is_shared
        (do
          r ← attempt (get_volume sys volume_id)
          on_result r
              (λ pv.
                branch (pv.storage_class_name == "") (pure volume_id) (pure pv.storage_class_name))
              (λ e. branch (is_not_found e) (pure volume_id) (fail e)))
        (pure volume_id)

  -- JfsUnmount, JfsCleanupMountPoint
  unfoldable pub jfs_unmount : String → Io (Unit {0})
  jfs_unmount mount_path = do unmount sys mount_path; cleanup_mount_point sys mount_path

  -- RmrDir
  unfoldable pub rmr_dir : String → Bool → Io Output
  rmr_dir directory is_ce =
      command sys ((if is_ce then ce_cli_path else cli_path) ∷ "rmr" ∷ directory ∷ []) []

  -- The mode of a volume's directory, whatever the umask was.
  unfoldable pub open_mode : String → Io (Unit {0})
  open_mode path = do
    fi ← or_internal (stat sys path) "Could not stat directory"
    branch (eqb fi.perm 0o777) (pure tt)
        (or_internal (chmod sys path 0o777) "Could not chmod directory")

  module _ (fs : Jfs) where
    -- jfs.Exec: a command in the process's environment with the variables of the setting
    unfoldable pub exec : List String → Io Output
    exec args = command sys args fs.setting.envs

    -- jfs.createSnap
    unfoldable pub create_snap_at : String → String → Io String
    create_snap_at snap_path src_path = do
      exists ← or_internal (path_exists sys snap_path) "Could not check path exists"
      branch exists (pure tt)
          (do out ← exec (cli_path ∷ "snapshot" ∷ src_path ∷ snap_path ∷ []); check_output out)
      open_mode snap_path
      pure snap_path

    -- jfs.CreateSnap. The snapshot's identifier is the base name of its path.
    unfoldable pub create_snap : String → String → Io String
    unfolding join_path base_name
    create_snap volume_id snap_name = do
      let vol_path = join_path fs.mount_path volume_id
      create_snap_at (vol_path <> ("_" <> snap_name)) vol_path
      pure (base_name (vol_path <> ("_" <> snap_name)))

    -- jfs.DeleteSnap
    unfoldable pub delete_snap : String → Io (Unit {0})
    unfolding join_path
    delete_snap snap_id = do
      let snap_path = join_path fs.mount_path snap_id
      exists ← or_internal (path_exists sys snap_path) "Could not check path exists"
      branch exists
          (do out ← exec (cli_path ∷ "snapshot" ∷ "-d" ∷ snap_path ∷ []); check_output out)
          (pure tt)

  module _ (codec : Codec) (fs : Jfs) where
    -- The quota and the QoS of a volume, which three operations set in the same way.
    unfoldable pub set_limits : String → ℕ → String → Io (Unit {0})
    set_limits sub_path size qos = do
      branch (ltb 0 size)
          (do
            attempt (delete_quota sys codec fs.console fs.setting.name ("/" <> sub_path))
            or_internal (create_quota sys codec fs.console fs.setting.name ("/" <> sub_path) 0 size)
                "Could not create quota")
          (pure tt)
      branch (qos == "") (pure tt)
          (or_internal (set_qos sys codec fs.console fs.setting.name qos) "set qos error")

    -- jfs.CreateVol
    unfoldable pub create_vol : String → ℕ → String → Io String
    unfolding join_path
    create_vol sub_path size qos = do
      let vol_path = join_path fs.mount_path sub_path
      exists ← or_internal (path_exists sys vol_path) "Could not check volume path exists"
      branch exists (pure tt)
          (or_internal (mkdir_all sys vol_path 0o777) "Could not make directory for meta")
      open_mode vol_path
      set_limits sub_path size qos
      pure vol_path

    -- jfs.CreateVolFromSnap and jfs.CreateVolFromVol, which differ in their messages
    unfoldable pub create_vol_from : String → String → ℕ → String → Io String
    unfolding join_path
    create_vol_from sub_path src size qos = do
      let vol_path = join_path fs.mount_path sub_path
      or_internal (create_snap_at fs vol_path (join_path fs.mount_path src)) "Could not create vol"
      set_limits sub_path size qos
      pure vol_path

    -- jfs.DeleteVol
    unfoldable pub delete_vol : String → Io (Unit {0})
    unfolding join_path
    delete_vol volume_id = do
      let vol_path = join_path fs.mount_path volume_id
      existed ← or_internal (path_exists sys vol_path) "Could not check volume path exists"
      branch existed
          (do
            out ← rmr_dir vol_path fs.setting.is_ce
            or_internal (check_output out) "Could not delete volume path")
          (pure tt)
      delete_quota sys codec fs.console fs.setting.name ("/" <> volume_id)
