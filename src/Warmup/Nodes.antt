-- ===== src/Warmup/Nodes.antt =====
-- The nodes and the mount pods that are warmed up.
use dfs_csi.Prelude.{
  ◌≡◌, refl, String, Bool, true, false, not, ◌&&◌, ◌||◌, some, none, Option, List, [], ◌∷◌, ◌++◌,
  ◌==◌, any, eq_iff, arith, if◌then◌else◌,
}
use dfs_csi.Kube.{Pod, Volume, VolumeSource, PersistentVolume}
use dfs_csi.Config.{Config}
use dfs_csi.System.{System, environment, Trace, Event, ok}
use dfs_csi.System.Io.{done, get_volume, ◌>>=◌}
use dfs_csi.Juicefs.{get_unique_id, is_shared}
use dfs_csi.Mount.Builder.{generate_pod_name}
use dfs_csi.Warmup.{volume_nodes, pod_nodes, mount_pod_name}

abbrev pub is_claim : Volume → Bool
is_claim v = elim v.source [ VolumeSource.claim name ↦ true | _ ↦ false ]

abbrev pub has_claim : String → Volume → Bool
has_claim pvc_name v = elim v.source [ VolumeSource.claim name ↦ name == pvc_name | _ ↦ false ]

-- The claims that stand before every other volume of a pod.
abbrev pub leading_claims : List Volume → List Volume
leading_claims [] = []
leading_claims (v ∷ vs) = let rest = leading_claims vs in if is_claim v then v ∷ rest else []

abbrev pub lists : String → List String → Bool
lists node nodes = any (λ n. n == node) nodes

-- Whether a pod runs on the node and has the claim among its leading volumes.
abbrev pub uses_on : String → String → Pod → Bool
uses_on node pvc_name pod =
    pod.spec.node_name == node
    && not (node == "")
    && any (has_claim pvc_name) (leading_claims pod.spec.volumes)

lists-append :
    (node : String) (xs ys : List String) → lists node (xs ++ ys) ≡ (lists node xs || lists node ys)
lists-append node [] ys = ground arith
lists-append node (x ∷ xs) ys = ground (arith, lists-append node xs ys)

lists-volume_nodes :
    (pvc_name node on : String) (vs : List Volume)
    → lists node (volume_nodes pvc_name on vs)
      ≡ (on == node && not (node == "") && any (has_claim pvc_name) (leading_claims vs))
unfolding volume_nodes
lists-volume_nodes pvc_name node on [] = ground arith
lists-volume_nodes pvc_name node on (v ∷ vs) =
    ground
      (arith, lists-volume_nodes pvc_name node on vs, eq_iff on node, eq_iff on "", eq_iff node "")

-- A node is one that is warmed up for a claim exactly if some pod of the list runs on it and has a
-- volume of the claim that no volume of another kind stands before.
pub pod_nodes_iff :
    (node pvc_name : String) (pods : List Pod)
    → lists node (pod_nodes pvc_name pods) ≡ any (uses_on node pvc_name) pods
unfolding pod_nodes
pod_nodes_iff node pvc_name [] = refl
pod_nodes_iff node pvc_name (pod ∷ pods) = ground (
  arith,
  lists-append node (volume_nodes pvc_name pod.spec.node_name pod.spec.volumes)
      (pod_nodes pvc_name pods),
  lists-volume_nodes pvc_name node pod.spec.node_name pod.spec.volumes,
  pod_nodes_iff node pvc_name pods,
)

-- The id that GetUniqueId finds, for a volume with a storage class.
get_unique_id_lem :
    (sys : System) (pv_name : String) (pv : PersistentVolume) (t : Trace)
    → sys.get_volume t pv_name ≡ ok pv
    → (pv.storage_class_name == "") ≡ false
    → get_unique_id sys pv_name t ≡ (
        if is_shared sys
        then done pv.storage_class_name (Event.got_volume pv_name (ok pv) ∷ t)
        else done pv_name t)
unfolding get_unique_id get_volume ◌>>=◌
get_unique_id_lem sys pv_name pv t read named = grind arith

is_shared_lem :
    (sys : System) → is_shared sys ≡ (environment sys "STORAGE_CLASS_SHARE_MOUNT" == "true")
unfolding is_shared environment
is_shared_lem sys = by_value (sys.getenv "STORAGE_CLASS_SHARE_MOUNT")
  where
    by_value :
        (o : Option String)
        → elim o [ none ↦ false | some s ↦ s == "true" ]
          ≡ (elim o [ none ↦ "" | some s ↦ s ] == "true")
    by_value none = refl
    by_value (some s) = refl

-- The command of a warm-up goes to the mount pod that a mount of the volume has on the node: the
-- name is the one of the unique id that GetUniqueId finds for the volume, if the volume can be read
-- and its storage class is that of the claim, which is not empty.
pub mount_pod_name-generate :
    (sys : System) (cfg : Config) (sc_name pv_name id : String) (pv : PersistentVolume)
    (t u : Trace)
    → sys.get_volume t pv_name ≡ ok pv
    → pv.storage_class_name ≡ sc_name
    → (sc_name == "") ≡ false
    → get_unique_id sys pv_name t ≡ done id u
    → mount_pod_name
        (environment sys "STORAGE_CLASS_SHARE_MOUNT" == "true")
        cfg.node_name
        sc_name
        pv_name
      ≡ generate_pod_name cfg id
unfolding mount_pod_name
mount_pod_name-generate sys cfg sc_name pv_name id pv t u read same named found =
    grind (arith, is_shared_lem sys, get_unique_id_lem sys pv_name pv t read)
