-- ===== src/Controller/Target.antt =====
-- pkg/controller/mountinfo.go: resolveTarget.
use dfs_csi.Prelude.{String, Bool, Option, none, some, List, [], ◌∷◌, ◌||◌, ◌==◌, is_some}
use dfs_csi.Prelude.Dict.{lookup}
use dfs_csi.Strings.{split, trim_suffix, join}
use dfs_csi.System.{System}
use dfs_csi.System.Io.{Io, pure, ◌>>=◌, branch}
use dfs_csi.Controller.MountInfo.{
  MountInfoTable, TargetItem, new_item, check, resolve_target_item, get_pod_uid, get_pv_name,
  container_csi_directory, container_sub_path_directory,
}

-- mountItem
pub record MountItem : Type 0 where
  pub pod_exist : Bool
  pub pod_deleted : Bool
  pub base_target : TargetItem
  pub sub_path_target : List TargetItem

-- `mit.deletedPods[podUID]`, false for a missing key
abbrev is_deleted : Option Bool → Bool
is_deleted none = Bool.false
is_deleted (some b) = b

module _ (sys : System) where
  -- The item of the target itself: there is one mount point of that name at most.
  pub base_item : String → List TargetItem → Io TargetItem
  unfolding check
  base_item target (item ∷ []) = pure item
  base_item target _ = check sys (new_item target "" 0) Bool.false

  pub resolve_parts : MountInfoTable → String → String → String → String → Io (Option MountItem)
  unfolding base_item join lookup
  resolve_parts mit target dir uid pv = branch (uid == "" || pv == "") (pure none) do
    items ← resolve_target_item sys mit target Bool.false
    base ← base_item target items
    subs ←
        resolve_target_item sys mit (join (dir ∷ container_sub_path_directory ∷ pv ∷ []) "/")
          Bool.true
    pure (
        some (record {
          pod_exist = is_some (lookup uid mit.deleted_pods);
          pod_deleted = is_deleted (lookup uid mit.deleted_pods);
          base_target = base;
          sub_path_target = subs;
        }))

  pub resolve_pair : MountInfoTable → String → List String → Io (Option MountItem)
  unfolding trim_suffix get_pod_uid get_pv_name
  resolve_pair mit target (dir ∷ rest ∷ []) =
      resolve_parts mit target (trim_suffix dir "/") (get_pod_uid target) (get_pv_name target)
  resolve_pair mit target _ = pure none

  -- resolveTarget
  unfoldable pub resolve_target : MountInfoTable → String → Io (Option MountItem)
  unfolding split
  resolve_target mit target = resolve_pair mit target (split target container_csi_directory)
