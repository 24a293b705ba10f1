-- ===== src/Mount/Process.antt =====
-- pkg/juicefs/mount/process_mount.go: mounting from the driver's own process.
use dfs_csi.Prelude.{
  ℕ, zero, suc, String, List, [], ◌∷◌, ◌||◌, ◌==◌, eqb, is_empty, contains_text, if◌then◌else◌,
}
use dfs_csi.Prelude.Dict.{Dict}
use dfs_csi.Strings.{join}
use dfs_csi.Config.{fs_type, jfs_mount_path}
use dfs_csi.Config.Setting.{JfsSetting}
use dfs_csi.System.{System, Code, Failure}
use dfs_csi.System.Io.{
  Io, pure, fail, panic, attempt, stat, path_exists, mkdir_all, not_mount_point, mount, unmount,
  sleep, start, ◌>>=◌, ◌>>◌, on_result, branch,
}

abbrev internal : String → Failure
internal text = Failure.status Code.internal text

-- A call whose error is reported as an internal one.
abbrev or_internal {ℓ} : {A : Type ℓ} → Io A → String → Io A
or_internal m text = attempt m >>= λ r. on_result r (λ a. pure a) (λ _. fail (internal text))

module _ (sys : System) where
  -- The loop of 30 rounds that waits for the mount point.
  unfoldable pub wait_mounted : String → ℕ → Io (Unit {0})
  wait_mounted path zero = fail (internal "Mount failed: mount isn't ready in 30 seconds")
  wait_mounted path (suc rounds) = do
    info ← or_internal (stat sys path) "Stat mount path failed"
    branch (eqb info.ino 1) (pure tt) (do sleep; wait_mounted path rounds)

  unfoldable pub ensure_dir : String → Io (Unit {0})
  ensure_dir path = do
    exist ← or_internal (path_exists sys path) "Could not check existence of dir"
    branch exist (pure tt) (or_internal (mkdir_all sys path 0o755) "Could not create dir")

  -- An old mount at the path is unmounted first.
  unfoldable pub clear_mount : String → Io (Unit {0})
  clear_mount path = do
    not_mounted ← not_mount_point sys path
    branch not_mounted (pure tt) (unmount sys path)

  pub storage_env : String → Dict String
  storage_env storage =
      ("JFS_FOREGROUND", "1")
      ∷ (if storage == "ceph" || storage == "gs"
          then ("JFS_NO_CHECK_OBJECT_STORAGE", "1") ∷ []
          else [])

  pub mount_args : JfsSetting → String → List String → List String
  unfolding join
  mount_args setting path options =
      jfs_mount_path
      ∷ setting.source
      ∷ path
      ∷ (if is_empty options then [] else "-o" ∷ join options "," ∷ [])

  -- ProcessMount.JMount
  unfoldable pub j_mount : JfsSetting → String → String → List String → Io (Unit {0})
  unfolding storage_env mount_args
  j_mount setting storage path options =
      branch (contains_text setting.source "://")
        (do
          ensure_dir path
          clear_mount path
          start (mount_args setting path options) (storage_env storage)
          wait_mounted path 30)
        (or_internal (mount sys setting.source path fs_type options) "Could not mount")

  -- ProcessMount.JUmount
  unfoldable pub j_umount : String → Io (Unit {0})
  j_umount target = unmount sys target

  -- ProcessMount.AddRefOfMount
  unfoldable pub add_ref_of_mount : String → String → Io (Unit {0})
  add_ref_of_mount target pod_name = panic "implement me"
