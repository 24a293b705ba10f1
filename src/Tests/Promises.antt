-- ===== src/Tests/Promises.antt =====
-- What the parts promise to each other, at concrete inputs.
use dfs_csi.Prelude.{◌≡◌, refl, false, some, List, [], ◌∷◌}
use dfs_csi.Strings.{join_path}
use dfs_csi.Prelude.Dict.{lookup}
use dfs_csi.Prelude.Int.{pos}
use dfs_csi.Config.{pod_mount_base, delete_delay_time_key, delete_delay_at_key}
use dfs_csi.Kube.{Pod}
use dfs_csi.Controller.Driver.{run}
use dfs_csi.Controller.Driver.Overdue.{run-overdue}
use dfs_csi.Config.Setting.{JfsSetting, no_setting}
use dfs_csi.System.{System, Event, Trace, Failure, ok}
use dfs_csi.System.Io.{
  delete_pod, done, get_pod, patch_pod, do_with_timeout, stat, chmod, path_exists, mount,
  parse_mount_info, branch, command, cleanup_mount_point, ◌>>=◌, ◌>>◌,
}
use dfs_csi.Util.Patches.{
  get_all_ref_keys, get_reference_key, replace_pod_annotation, del_pod_annotation,
}
use dfs_csi.Mount.Refs.{
  add_ref_of_mount, add_ref_loop, add_ref, j_umount, drop_ref, del_ref_loop, del_ref,
  delete_mount_pod,
}
use dfs_csi.Mount.Builder.{generate_pod_name}
use dfs_csi.Util.Delay.{should_delay}
use dfs_csi.Mount.Wait.{wait_until_mount, wait_loop, use_pod, wait_until_mount_ready, ready_loop}
use dfs_csi.Util.Locks.{new_obj_locks}
use dfs_csi.Util.Locks.Contract.{Call, answers, contract, answers-contract}
use dfs_csi.Util.Paths.{get_mount_path_of_pod}
use dfs_csi.Mount.{mount_command, j_mount}
use dfs_csi.Mount.Builder.{Resources, new_mount_pod}
use dfs_csi.Mount.Reading.{get_mount_path_of_pod-new_mount_pod}
use dfs_csi.Mount.Wait.Ready.{IsSeen, j_mount-IsSeen}
use dfs_csi.Driver.Capability.{AccessMode}
use dfs_csi.Driver.Publish.{NodePublishRequest, publish, node_publish_volume}
use dfs_csi.Driver.Node.{
  create_target, check_bind_and_mount, bind, unmount_all, node_unpublish_volume,
}
use dfs_csi.Juicefs.{get_unique_id, create_vol, open_mode, set_limits}
use dfs_csi.Juicefs.Mounting.{get_console, auth_source, upgrade, mount_fs, jfs_mount}
use dfs_csi.Driver.Node.Unpublished.{IsUnpublished, node_unpublish_volume-IsUnpublished}
use dfs_csi.Mount.Refs.Released.{IsReleased, j_umount-IsReleased}
use dfs_csi.Driver.Publish.Bound.{IsPublished, node_publish_volume-IsPublished}
use dfs_csi.Tests.{bare, calm, codec, config, fuel, target_of, system, mount_line, mount_pod, table}

abbrev calls : List Call
calls =
    Call.acquiring "a"
    ∷ Call.acquiring "b"
    ∷ Call.acquiring "a"
    ∷ Call.releasing "a"
    ∷ Call.acquiring "a"
    ∷ []

answers-contract_example : answers calls new_obj_locks ≡ contract calls (λ j. false)
answers-contract_example = answers-contract calls

abbrev named_setting : JfsSetting
named_setting = record no_setting { source = "fs" }

abbrev no_resources : Resources
no_resources = record { limits = []; requests = [] }

get_mount_path_of_pod-new_mount_pod_example :
    get_mount_path_of_pod (
      new_mount_pod config "mosfs-node-pvc"
        (mount_command named_setting (join_path pod_mount_base "pvc") ("cache-size=(1)" ∷ []))
        (join_path pod_mount_base "pvc")
        no_resources
        []
        [])
    ≡ ok (join_path pod_mount_base "pvc", "pvc")
get_mount_path_of_pod-new_mount_pod_example =
    get_mount_path_of_pod-new_mount_pod named_setting "pvc" ("cache-size=(1)" ∷ []) config
      "mosfs-node-pvc" no_resources [] [] refl refl refl

mounts :
    (u : Trace) × (j_mount calm config fuel named_setting "vol" "/mosfs/vol" (target_of "a") [] []
      ≡ done tt u)
unfolding j_mount wait_until_mount wait_loop get_pod use_pod add_ref_of_mount add_ref_loop add_ref
    replace_pod_annotation patch_pod wait_until_mount_ready ready_loop do_with_timeout stat ◌>>=◌
mounts = (_, refl)

j_mount-IsSeen_example : IsSeen "/mosfs/vol" mounts.0
j_mount-IsSeen_example =
    j_mount-IsSeen calm config fuel named_setting "vol" "/mosfs/vol" (target_of "a") [] [] mounts.0
      mounts.1

-- A node with the mount of a volume, and what it is published with.
abbrev node : System
node = record (system bare (mount_line "/mosfs/vol" 7 ∷ []) (ok tt)) {
  unmarshal_yaml = λ s. ok (("BASE_URL", "http://console") ∷ []);
}

abbrev request : NodePublishRequest
request = record {
  volume_id = "vol";
  target_path = target_of "a";
  capability = some (record { mode = AccessMode.single_node_writer; mount_flags = [] });
  readonly = false;
  volume_context = [];
  secrets = ("name", "fs") ∷ ("envs", "{}") ∷ ("consoleToken", "token") ∷ [];
}

published : (u : Trace) × (node_publish_volume node codec config fuel request [] ≡ done tt u)
unfolding node_publish_volume publish create_target path_exists jfs_mount get_unique_id get_console
    auth_source upgrade mount_fs j_mount wait_until_mount wait_loop get_pod use_pod add_ref_of_mount
    add_ref_loop add_ref replace_pod_annotation patch_pod wait_until_mount_ready ready_loop
    do_with_timeout stat create_vol open_mode set_limits check_bind_and_mount bind mount
    parse_mount_info branch chmod ◌>>=◌ ◌>>◌
published = (_, refl)

node_publish_volume-IsPublished_example : IsPublished node codec config fuel request [] published.0
node_publish_volume-IsPublished_example =
    node_publish_volume-IsPublished node codec config fuel request [] published.0 published.1

-- A mount pod whose time of deletion was before the system's.
abbrev overdue : Pod
overdue = mount_pod ((delete_delay_time_key, "30s") ∷ (delete_delay_at_key, "before") ∷ [])

abbrev late : System
late = record calm { now = λ t. pos 200 }

overdue-delay : lookup delete_delay_time_key overdue.annotations ≡ some "30s"
unfolding lookup
overdue-delay = refl

overdue-at : lookup delete_delay_at_key overdue.annotations ≡ some "before"
unfolding lookup
overdue-at = refl

overdue-refs : get_all_ref_keys late overdue ≡ []
unfolding get_all_ref_keys get_reference_key
overdue-refs = refl

run-overdue_example :
    run late table overdue [] ≡ delete_pod late overdue (Event.read_clock (pos 200) ∷ [])
run-overdue_example =
    run-overdue late table overdue "30s" "before" (pos 130) [] overdue-refs overdue-delay overdue-at
      refl refl refl

-- The mount pod with the reference of the target, until a patch takes it off.
abbrev pod_after : Trace → Pod
pod_after [] = mount_pod ((get_reference_key calm (target_of "a"), target_of "a") ∷ [])
pod_after (Event.patched_pod pod p r ∷ t) = bare
pod_after (_ ∷ t) = pod_after t

abbrev last_user : System
last_user = record calm { get_pod = λ t name ns. ok (pod_after t) }

released : (u : Trace) × (j_umount last_user config 1 "vol" (target_of "a") [] ≡ done tt u)
unfolding j_umount drop_ref del_ref_loop del_ref delete_mount_pod should_delay get_pod delete_pod
    get_reference_key del_pod_annotation patch_pod ◌>>=◌ ◌>>◌
released = (_, refl)

j_umount-IsReleased_example :
    IsReleased
      (generate_pod_name config "vol")
      config.namespace
      (get_reference_key last_user (target_of "a"))
      []
      released.0
j_umount-IsReleased_example =
    j_umount-IsReleased last_user config 1 "vol" (target_of "a") [] released.0 released.1

-- A node on which nothing is mounted.
abbrev idle : System
idle = record last_user {
  command = λ t args env. record {
    text = "umount: not mounted";
    error = some (Failure.message "exit status 32");
  };
}

unpublished :
    (u : Trace) × (node_unpublish_volume idle config 1 "vol" (target_of "a") [] ≡ done tt u)
unfolding node_unpublish_volume unmount_all get_unique_id j_umount drop_ref del_ref_loop del_ref
    delete_mount_pod should_delay get_pod delete_pod get_reference_key del_pod_annotation patch_pod
    command cleanup_mount_point branch ◌>>=◌ ◌>>◌
unpublished = (_, refl)

node_unpublish_volume-IsUnpublished_example :
    IsUnpublished idle config "vol" (target_of "a") unpublished.0
node_unpublish_volume-IsUnpublished_example =
    node_unpublish_volume-IsUnpublished idle config 1 "vol" (target_of "a") [] unpublished.0
      unpublished.1
