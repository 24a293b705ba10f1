-- ===== src/Tests/Sharing.antt =====
-- Two targets that share a mount pod, at concrete inputs.
use dfs_csi.Prelude.{
  ◌≡◌, refl, ap, sym, ◌∙◌, String, false, Option, none, some, List, [], ◌∷◌, ◌==◌,
}
use dfs_csi.Prelude.Dict.{Dict, lookup}
use dfs_csi.Config.{delete_delay_at_key}
use dfs_csi.Kube.{Pod, Patch}
use dfs_csi.System.{System, Event, Trace, ok, err}
use dfs_csi.System.Io.{
  done, trace_of, delete_pod, get_pod, patch_pod, path_exists, do_with_timeout, stat, mount,
  parse_mount_info, branch, chmod, ◌>>=◌, ◌>>◌,
}
use dfs_csi.Util.Patches.{get_reference_key, replace_pod_annotation}
use dfs_csi.System.Traces.{deletions}
use dfs_csi.Util.Delay.{should_delay}
use dfs_csi.Util.Patches.{del_pod_annotation}
use dfs_csi.Mount.Refs.Safety.{DeletesUnreferenced, j_umount-Deletes}
use dfs_csi.Mount.Refs.{j_umount, drop_ref, del_ref_loop, del_ref, delete_mount_pod}
use dfs_csi.Mount.Refs.{add_ref, add_ref_loop, add_ref_of_mount}
use dfs_csi.Mount.{j_mount}
use dfs_csi.Mount.Wait.{wait_until_mount, wait_loop, use_pod, wait_until_mount_ready, ready_loop}
use dfs_csi.Juicefs.{get_unique_id, open_mode, set_limits, create_vol}
use dfs_csi.Juicefs.Mounting.{get_console, auth_source, upgrade, mount_fs, jfs_mount}
use dfs_csi.Driver.Capability.{AccessMode}
use dfs_csi.Driver.Node.{create_target, check_bind_and_mount, bind}
use dfs_csi.Driver.Publish.{NodePublishRequest, publish, node_publish_volume}
use dfs_csi.Controller.MountInfo.{MountInfoTable, get_pod_uid}
use dfs_csi.Controller.Handlers.{get_pod_status}
use dfs_csi.Controller.Driver.{target_exists}
use dfs_csi.References.{Place, place_of, IsApi, IsHeld, value_after, patched_value}
use dfs_csi.References.Reconciling.{IsListed}
use dfs_csi.References.Added.{IsReferred, add_ref_of_mount-IsReferred}
use dfs_csi.References.Sharing.{Use, unpublish, check, AreOther, after_uses, after_uses-IsHeld}
use dfs_csi.Tests.{calm, codec, config, fuel, mount_line, mount_pod, system, target_of}

abbrev spot : Place
spot = place_of calm (target_of "a") "mosfs-node-vol" "kube-system"

abbrev annotations_of : Option String → Dict String
annotations_of none = []
annotations_of (some v) = (spot.key, v) ∷ []

-- An API server that keeps the one annotation, on a node where a volume can be mounted.
abbrev keeper : System
keeper = record (system (mount_pod []) (mount_line "/mosfs/vol" 7 ∷ []) (ok tt)) {
  unmarshal_yaml = λ s. ok (("BASE_URL", "http://console") ∷ []);
  get_pod = λ t name ns. ok (record (mount_pod (annotations_of (value_after spot none t))) {
    name = name;
    namespace = ns;
  });
}

kept : (v : Option String) → lookup spot.key (annotations_of v) ≡ v
unfolding lookup get_reference_key
kept none = refl
kept (some v) = refl

keeper-IsApi : IsApi keeper spot none
keeper-IsApi = record {
  named = λ t name ns po got. (
    sym (ap (λ r. elim r [ ok p ↦ p.name | err _ ↦ name ]) got),
    sym (ap (λ r. elim r [ ok p ↦ p.namespace | err _ ↦ ns ]) got),
  );
  read = λ t po got.
      sym (ap (λ r. elim r [ ok p ↦ lookup spot.key p.annotations | err _ ↦ none ]) got)
      ∙ kept (value_after spot none t);
  present = λ t v e h got. absurd (cc);
}

abbrev seat : Place
seat = place_of keeper (target_of "a") "mosfs-node-vol" "kube-system"

seat-IsApi : IsApi keeper seat none
unfolding value_after get_reference_key
seat-IsApi = keeper-IsApi

-- The reference of `a` is written.
abbrev written : Trace
written =
    Event.patched_pod (mount_pod []) (Patch.replace_annotations ((spot.key, target_of "a") ∷ []))
      (ok tt)
    ∷ []

written-IsHeld : IsHeld seat none (target_of "a") written
unfolding value_after patched_value lookup get_reference_key
written-IsHeld = record { refers = refl; spared = tt }

abbrev listing : MountInfoTable
listing = record { mis = []; deleted_pods = ("a", false) ∷ [] }

abbrev listed : Pod
listed =
    mount_pod
      ((spot.key, target_of "a") ∷ (get_reference_key calm (target_of "b"), target_of "b") ∷ [])

listed-IsListed : IsListed keeper listing (target_of "a") listed
unfolding get_pod_status lookup get_reference_key target_exists get_pod_uid
listed-IsListed = record { ready = refl; refers = refl; once = refl; exists = refl }

abbrev request : NodePublishRequest
request = record {
  volume_id = "vol";
  target_path = target_of "b";
  capability = some (record { mode = AccessMode.single_node_writer; mount_flags = [] });
  readonly = false;
  volume_context = [];
  secrets = ("name", "fs") ∷ ("envs", "{}") ∷ ("consoleToken", "token") ∷ [];
}

-- The other target is published without an error.
also_published :
    (u : Trace) × (node_publish_volume keeper codec config fuel request written ≡ done tt u)
unfolding node_publish_volume publish create_target path_exists jfs_mount get_unique_id get_console
    auth_source upgrade mount_fs j_mount wait_until_mount wait_loop get_pod use_pod add_ref_of_mount
    add_ref_loop add_ref replace_pod_annotation patch_pod wait_until_mount_ready ready_loop
    do_with_timeout stat create_vol open_mode set_limits check_bind_and_mount bind mount
    parse_mount_info branch chmod value_after patched_value lookup get_reference_key ◌>>=◌ ◌>>◌
also_published = (_, refl)

abbrev uses : List Use
uses =
    Use.publish fuel request
    ∷ check listing listed
    ∷ unpublish 1 "vol" (target_of "b")
    ∷ check listing listed
    ∷ []

apart : (seat.key == delete_delay_at_key) ≡ false
unfolding get_reference_key
apart = refl

differs :
    (get_reference_key keeper (target_of "b") == get_reference_key keeper (target_of "a")) ≡ false
unfolding get_reference_key
differs = refl

uses-AreOther : AreOther keeper (target_of "a") "mosfs-node-vol" "kube-system" uses
uses-AreOther = (differs, (λ _. listed-IsListed, (differs, (λ _. listed-IsListed, tt))))

after_uses-IsHeld_example :
    IsHeld seat none (target_of "a") (after_uses keeper codec config uses written)
after_uses-IsHeld_example =
    after_uses-IsHeld keeper codec config (target_of "a") "mosfs-node-vol" "kube-system" none
      seat-IsApi apart uses written uses-AreOther written-IsHeld

added :
    (u : Trace) × (add_ref_of_mount keeper config 1 (target_of "a") "mosfs-node-vol" [] ≡ done tt u)
unfolding add_ref_of_mount add_ref_loop add_ref replace_pod_annotation patch_pod get_pod value_after
    lookup ◌>>=◌ ◌>>◌
added = (_, refl)

add_ref_of_mount-IsReferred_example : IsReferred seat none (target_of "a") added.0
add_ref_of_mount-IsReferred_example =
    add_ref_of_mount-IsReferred keeper config 1 (target_of "a") "mosfs-node-vol" none [] added.0
      seat-IsApi apart added.1

j_umount-Deletes_example :
    DeletesUnreferenced "mosfs-node-vol" "kube-system"
      (trace_of (j_umount keeper config 2 "vol" (target_of "a") written))
j_umount-Deletes_example =
    j_umount-Deletes keeper config 2 "vol" (target_of "a") written keeper-IsApi.named tt

-- The last target goes, and the pod is deleted.
last_goes : deletions (trace_of (j_umount keeper config 2 "vol" (target_of "a") written)) ≡ 1
unfolding j_umount drop_ref del_ref_loop del_ref delete_mount_pod should_delay get_pod delete_pod
    get_reference_key del_pod_annotation patch_pod value_after patched_value lookup ◌>>=◌ ◌>>◌
last_goes = refl
