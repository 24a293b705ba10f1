-- ===== src/Driver/Node.antt =====
-- pkg/driver/node.go: the directory, the bind mount and the unmount of a published volume.
pub mod Bind
pub mod Unpublished
use dfs_csi.Prelude.{
  ℕ, zero, suc, String, Bool, true, false, Option, none, some, List, [], ◌∷◌, ◌==◌, eqb,
  if◌then◌else◌,
}
use dfs_csi.Config.{Config}
use dfs_csi.System.{System, Code, Failure, MountInfo, ok, err}
use dfs_csi.System.Io.{
  Io, pure, fail, hang, attempt, path_exists, mkdir_all, remove, parse_mount_info, mount,
  cleanup_mount_point, command, do_with_timeout, ◌>>=◌, ◌>>◌, on_result, on_option, branch,
}
use dfs_csi.Util.{is_not_mounted, umount_path}
use dfs_csi.Juicefs.{get_unique_id}
use dfs_csi.Mount.Refs.{j_umount}

-- The variables of checkBindAndMount's loop. `targetMinor` points into the loop variable, of which
-- there is one for all rounds: `has_target` says that the pointer is set, and `loop_minor` is what it
-- points to.
pub record Scan : Type 0 where
  pub mount_minor : Option ℕ
  pub has_target : Bool
  pub loop_minor : ℕ

abbrev pub scan_round : String → String → Scan → MountInfo → Scan
scan_round mount_path target s mi = record {
  mount_minor = if mi.mount_point == mount_path then some mi.minor else s.mount_minor;
  has_target = if mi.mount_point == target then true else s.has_target;
  loop_minor = mi.minor;
}

unfoldable pub scan : String → String → Scan → List MountInfo → Scan
scan mount_path target s [] = s
scan mount_path target s (mi ∷ infos) =
    scan mount_path target (scan_round mount_path target s mi) infos

abbrev pub new_scan : Scan
new_scan = record { mount_minor = none; has_target = false; loop_minor = 0 }

module _ (sys : System) where
  -- The bind mount, and the removal of the target if it fails.
  unfoldable pub bind : String → String → Io (Unit {0})
  bind bind_source target = do
    r ← attempt (mount sys bind_source target "none" ("bind" ∷ []))
    on_result r pure (λ e. do attempt (remove sys target); fail (Failure.message "could not bind"))

  -- checkBindAndMount
  unfoldable pub check_bind_and_mount : String → String → String → Io (Unit {0})
  unfolding scan
  check_bind_and_mount mount_path bind_source target = do
    infos ← parse_mount_info sys
    let s = scan mount_path target new_scan infos
    on_option s.mount_minor (fail (Failure.message "BindTarget: mountPath not mounted"))
        λ mount_minor.
          branch s.has_target
            (branch (eqb s.loop_minor mount_minor) (pure tt)
              (do umount_path sys target; bind bind_source target))
            (bind bind_source target)

  -- CreateTarget. Its loop has no bound in the source.
  unfoldable pub create_target : ℕ → String → Io (Unit {0})
  create_target zero target = hang
  create_target (suc fuel) target = do
    checked ← attempt (do_with_timeout sys (path_exists sys target))
    on_result checked
        (λ exists. branch exists (pure tt) (do
          made ← attempt (mkdir_all sys target 0o755)
          on_result made pure (λ _. fail (Failure.message "could not create dir"))))
        (λ e.
          branch (sys.is_corrupted e) (do umount_path sys target; create_target fuel target)
            (fail e))

  -- The loop of NodeUnpublishVolume, which unmounts until `umount` fails.
  unfoldable pub unmount_all : ℕ → String → Io (Unit {0})
  unmount_all zero target = hang
  unmount_all (suc fuel) target = do
    out ← command sys ("umount" ∷ target ∷ []) []
    on_option out.error (unmount_all fuel target) λ _.
        branch (is_not_mounted out.text) (pure tt) (do
          lazy ← command sys ("umount" ∷ "-l" ∷ target ∷ []) []
          on_option lazy.error (pure tt) (λ e. fail e))

  -- NodeUnpublishVolume
  unfoldable pub node_unpublish_volume : Config → ℕ → String → String → Io (Unit {0})
  node_unpublish_volume cfg fuel volume_id target =
      branch (target == "") (fail (Failure.status Code.invalid_argument "Target path not provided"))
        (do
          unmount_all fuel target
          cleanup_mount_point sys target
          unique_id ← get_unique_id sys volume_id
          j_umount sys cfg fuel unique_id target)
