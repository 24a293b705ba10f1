-- ===== src/Mount.antt =====
-- pkg/juicefs/mount: mounting a file system in a pod of its own (PodMount), or in the driver's
-- process (ProcessMount).
pub mod Builder
pub mod Refs
pub mod Wait
pub mod Process
pub mod Reading
use dfs_csi.Prelude.{
  String, ◌<>◌, Bool, true, false, Option, none, some, List, [], ◌∷◌, ◌++◌, ◌==◌, if◌then◌else◌,
}
use dfs_csi.Strings.{join}
use dfs_csi.Config.{Config, jfs_mount_path}
use dfs_csi.Config.Setting.{JfsSetting}
use dfs_csi.System.{System}
use dfs_csi.System.Io.{Io}
use Wait.{Fuel, wait_until_mount}

-- The command of PodMount.JMount
unfoldable pub mount_command : JfsSetting → String → List String → String
unfolding join
mount_command setting mount_path options =
    let extra = if setting.is_ce then "metrics=0.0.0.0:9567" else "foreground" in
    join
      (jfs_mount_path ∷ setting.source ∷ mount_path ∷ "-o" ∷ join (options ++ extra ∷ []) "," ∷ [])
      " "

-- PodMount.JMount
unfoldable pub j_mount :
    System → Config → Fuel → JfsSetting → String → String → String → List String → Io (Unit {0})
unfolding mount_command
j_mount sys cfg fuel setting volume_id mount_path target options =
    wait_until_mount sys cfg fuel setting volume_id target mount_path
      (mount_command setting mount_path options)
