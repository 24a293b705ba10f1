-- ===== src/Tests/Warming.antt =====
-- The cache controller at concrete inputs.
use dfs_csi.Prelude.{◌≡◌, refl, String, true, Option, some, none, [], ◌∷◌, ◌==◌, any, if◌then◌else◌}
use dfs_csi.Kube.{Pod, Volume, VolumeSource, PersistentVolume}
use dfs_csi.Mount.Builder.{generate_pod_name}
use dfs_csi.System.{System, environment, Event, ok}
use dfs_csi.System.Io.{done, get_volume, branch, ◌>>=◌}
use dfs_csi.Juicefs.{get_unique_id}
use dfs_csi.Warmup.{mount_pod_name, pod_nodes, reconcile_request, no_reply}
use dfs_csi.Warmup.Nodes.{uses_on, lists, pod_nodes_iff, mount_pod_name-generate}
use dfs_csi.Warmup.Cached.{warmed}
use dfs_csi.Warmup.Cached.Requests.{place_of, reconcile-warms}
use dfs_csi.Tests.{bare, bound, cache, calm, config}

abbrev volume_of : VolumeSource → Volume
volume_of source = record { name = "v"; source = source }

-- A pod that uses the claim on the node, and one that has another volume before it.
abbrev user : Pod
user = record bare {
  spec = record (bare.spec) { volumes = volume_of (VolumeSource.claim "claim") ∷ [] };
}

abbrev late_user : Pod
late_user = record bare {
  spec = record (bare.spec) {
    node_name = "other";
    volumes = volume_of VolumeSource.other_source ∷ volume_of (VolumeSource.claim "claim") ∷ [];
  };
}

abbrev class : PersistentVolume
class = record { storage_class_name = "class"; driver = none; claim_namespace = none }

abbrev variable : String → Option String
variable name =
    if name == "MOSFS_MOUNT_NAMESPACE"
    then some "kube-system"
    else if name == "STORAGE_CLASS_SHARE_MOUNT"
    then some "true"
    else none

abbrev warm : System
warm = record calm {
  getenv = variable;
  get_volume = λ t name. ok class;
  list_pods = λ t ns. ok (user ∷ late_user ∷ []);
}

pod_nodes_iff_example :
    lists "other" (pod_nodes "claim" (user ∷ late_user ∷ []))
    ≡ any (uses_on "other" "claim") (user ∷ late_user ∷ [])
pod_nodes_iff_example = pod_nodes_iff "other" "claim" (user ∷ late_user ∷ [])

late_user-skipped : pod_nodes "claim" (user ∷ late_user ∷ []) ≡ "node" ∷ []
unfolding pod_nodes
late_user-skipped = refl

found : get_unique_id warm "pv" [] ≡ done "class" (Event.got_volume "pv" (ok class) ∷ [])
unfolding get_unique_id get_volume branch ◌>>=◌
found = refl

mount_pod_name-generate_example :
    mount_pod_name (environment warm "STORAGE_CLASS_SHARE_MOUNT" == "true") "node" "class" "pv"
    ≡ generate_pod_name config "class"
mount_pod_name-generate_example =
    mount_pod_name-generate warm config "class" "pv" "class" class [] _ refl refl refl found

reconcile-warms_example :
    reconcile_request warm "ns" "cache" []
    ≡ done no_reply (
        Event.updated_status (record cache { cached = true }) (ok tt)
        ∷ warmed (place_of warm "class" "pv" cache) (pod_nodes "claim" (user ∷ late_user ∷ [])) (
            Event.listed_pods "ns" (ok (user ∷ late_user ∷ []))
            ∷ Event.got_claim "ns" "claim" (ok bound)
            ∷ Event.got_cache "ns" "cache" (ok cache)
            ∷ []))
unfolding pod_nodes environment
reconcile-warms_example =
    reconcile-warms warm bound (user ∷ late_user ∷ []) "class" cache "ns" "cache" [] refl refl refl
      (λ u. refl) refl refl refl (λ u. refl) refl refl (λ u ns pod args. refl) (λ u d. refl)
