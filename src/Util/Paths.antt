-- ===== src/Util/Paths.antt =====
-- pkg/util: the mount path and the volume that the command of a mount pod names.
use dfs_csi.Prelude.{String, List, [], ◌∷◌, starts_with, if◌then◌else◌}
use dfs_csi.Strings.{fields, split}
use dfs_csi.Config.{pod_mount_base}
use dfs_csi.Kube.{Container, Pod}
use dfs_csi.System.{Failure, Result, ok, err}

-- The volume is the third element of the path.
unfoldable pub split_mnt_path : String → List String → Result (String × String)
split_mnt_path path (a ∷ b ∷ volume ∷ rest) = ok (path, volume)
split_mnt_path path _ = err (Failure.message "err mntPath")

unfoldable pub check_args : List String → Result (String × String)
unfolding split_mnt_path split
check_args (a ∷ b ∷ path ∷ rest) =
    if starts_with path pod_mount_base
    then split_mnt_path path (split path "/")
    else err (Failure.message "err cmd")
check_args _ = err (Failure.message "err cmd")

-- ParseMntPath
unfoldable pub parse_mnt_path : String → Result (String × String)
unfolding check_args fields
parse_mnt_path cmd = check_args (fields cmd)

unfoldable pub path_of_command : List String → Result (String × String)
unfolding parse_mnt_path
path_of_command (a ∷ b ∷ cmd ∷ rest) = parse_mnt_path cmd
path_of_command _ = err (Failure.message "get error pod command")

unfoldable pub path_of_containers : List Container → Result (String × String)
unfolding path_of_command
path_of_containers [] = err (Failure.message "pod has no container")
path_of_containers (c ∷ cs) = path_of_command c.command

-- GetMountPathOfPod
unfoldable pub get_mount_path_of_pod : Pod → Result (String × String)
unfolding path_of_containers
get_mount_path_of_pod pod = path_of_containers pod.spec.containers
