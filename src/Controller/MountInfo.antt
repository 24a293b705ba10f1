-- ===== src/Controller/MountInfo.antt =====
-- pkg/controller/mountinfo.go: the mount table, and what a target path says.
pub mod Counts
use dfs_csi.Prelude.{
  ℕ, suc, String, Bool, true, false, Option, none, some, List, [], ◌∷◌, ◌==◌, starts_with,
  if◌then◌else◌,
}
use dfs_csi.Prelude.Dict.{Dict, lookup, insert}
use dfs_csi.Strings.{
  Chars, chars, text, split, trim_suffix, trim_prefix, trim_char, cut_first, cut_last,
}
use dfs_csi.Kube.{Pod}
use dfs_csi.System.{System, Failure, MountInfo, ok, err}
use dfs_csi.System.Io.{Io, pure, attempt, stat, parse_mount_info, ◌>>=◌, on_result}

-- mountInfoTable
pub record MountInfoTable : Type 0 where
  pub mis : List MountInfo
  pub deleted_pods : Dict Bool

-- newMountInfoTable
abbrev pub new_mount_info_table : MountInfoTable
new_mount_info_table = record { mis = []; deleted_pods = [] }

-- parse
unfoldable pub parse : System → MountInfoTable → Io MountInfoTable
parse sys mit = do mis ← parse_mount_info sys; pure (record mit { mis = mis })

-- setPodStatus
unfoldable pub set_pod_status : MountInfoTable → Pod → MountInfoTable
unfolding insert
set_pod_status mit pod = record mit { deleted_pods = insert pod.uid pod.deleting mit.deleted_pods }

-- The loop of setPodsStatus.
unfoldable pub pods_status : Dict Bool → List Pod → Dict Bool
unfolding insert
pods_status d [] = d
pods_status d (pod ∷ pods) = pods_status (insert pod.uid pod.deleting d) pods

-- setPodsStatus
unfoldable pub set_pods_status : MountInfoTable → List Pod → MountInfoTable
unfolding pods_status
set_pods_status mit pods = record mit { deleted_pods = pods_status [] pods }

abbrev pub container_sub_path_directory : String
container_sub_path_directory = "volume-subpaths"

abbrev pub container_csi_directory : String
container_csi_directory = "volumes/kubernetes.io~csi"

-- What stands behind the last slash, if something stands before it.
pub last_element : Option (Chars × Chars) → String
last_element none = ""
last_element (some ([], b)) = ""
last_element (some (c ∷ a, b)) = text b

pub pod_uid_of : List String → String
unfolding last_element cut_last trim_suffix
pod_uid_of (dir ∷ rest ∷ []) = last_element (cut_last "/" (chars (trim_suffix dir "/")))
pod_uid_of _ = ""

-- getPodUid
unfoldable pub get_pod_uid : String → String
unfolding pod_uid_of split
get_pod_uid target = pod_uid_of (split target container_csi_directory)

-- What stands before the first slash, if something does.
pub first_element : Option (Chars × Chars) → String
first_element none = ""
first_element (some (a, b)) = text a

pub pv_name_of : List String → String
unfolding first_element cut_first trim_prefix
pv_name_of (dir ∷ rest ∷ []) = first_element (cut_first "/" (chars (trim_prefix rest "/")))
pv_name_of _ = ""

-- getPVName
unfoldable pub get_pv_name : String → String
unfolding pv_name_of split
get_pv_name target = pv_name_of (split target container_csi_directory)

pub data TargetStatus : Type 0 where
  status_not_exist status_mounted status_not_mount status_corrupt status_unexpect : TargetStatus

-- targetItem
pub record TargetItem : Type 0 where
  pub target : String
  pub subpath : String
  pub count : ℕ
  pub inconsistent : Bool
  pub status : TargetStatus
  pub error : Option Failure

module _ (sys : System) where
  check_failed : TargetItem → Bool → Failure → TargetItem
  check_failed ti mounted Failure.not_exist = record ti { status = status_not_exist }
  check_failed ti mounted e =
      if sys.is_corrupted e
      then record ti { status = status_corrupt; error = if mounted then ti.error else some e }
      else record ti { status = status_unexpect; error = some e }

  -- check
  unfoldable pub check : TargetItem → Bool → Io TargetItem
  unfolding check_failed
  check ti mounted = do
    r ← attempt (stat sys ti.target)
    on_result r
        (λ _. pure (record ti { status = if mounted then status_mounted else status_not_mount }))
        (λ e. pure (check_failed ti mounted e))

abbrev pub subpath_of : MountInfo → String
subpath_of mi = trim_char (trim_suffix mi.root "//deleted") "/"

abbrev pub new_item : String → String → ℕ → TargetItem
new_item target subpath count = record {
  target = target;
  subpath = subpath;
  count = count;
  inconsistent = false;
  status = status_not_exist;
  error = none;
}

-- One more mount at the record's target.
abbrev pub count_mount : TargetItem → String → TargetItem
count_mount r subpath = record r {
  inconsistent = if r.subpath == subpath then r.inconsistent else true;
  count = suc r.count;
}

-- A round of resolveTargetItem's loop on a mount that matches.
unfoldable pub add_mount : MountInfo → Dict TargetItem → Dict TargetItem
unfolding lookup insert trim_char trim_suffix
add_mount mi records =
    let subpath = subpath_of mi in
    let item : TargetItem = elim (lookup mi.mount_point records) [
      | none ↦ new_item mi.mount_point subpath 1
      | some r ↦ count_mount r subpath
    ] in
    insert mi.mount_point item records

abbrev pub matches : String → Bool → MountInfo → Bool
matches path is_prefix mi =
    if is_prefix then starts_with mi.mount_point path else path == mi.mount_point

-- The first loop of resolveTargetItem.
unfoldable pub collect_records : String → Bool → Dict TargetItem → List MountInfo → Dict TargetItem
unfolding add_mount
collect_records path is_prefix records [] = records
collect_records path is_prefix records (mi ∷ mis) =
    collect_records path is_prefix
      (if matches path is_prefix mi then add_mount mi records else records) mis

module _ (sys : System) where
  -- The second loop of resolveTargetItem.
  pub check_all : Dict TargetItem → Io (List TargetItem)
  unfolding check
  check_all [] = pure []
  check_all ((_, item) ∷ records) = do
    checked ← check sys item true
    rest ← check_all records
    pure (checked ∷ rest)

  -- resolveTargetItem
  unfoldable pub resolve_target_item : MountInfoTable → String → Bool → Io (List TargetItem)
  unfolding collect_records
  resolve_target_item mit path is_prefix = check_all (collect_records path is_prefix [] mit.mis)
