-- ===== src/Controller/PodController.antt =====
-- pkg/controller/pod_controller.go: a check of one mount pod on an event.
pub mod Apps
pub mod Watch
use dfs_csi.Prelude.{
  ℕ, zero, suc, ◌-◌, String, Bool, true, false, not, ◌&&◌, ◌||◌, Option, none, some, List, [], ◌∷◌,
  ◌++◌, ◌==◌, any, if◌then◌else◌,
}
use dfs_csi.Prelude.Dict.{value_of}
use dfs_csi.Prelude.Int.{ℤ, pos, negsuc, ltb_ℤ, sub_ℤ}
use dfs_csi.Config.{Config, delete_delay_at_key}
use dfs_csi.Kube.{Pod, PersistentVolume}
use dfs_csi.System.{System, Failure, ok, err, is_not_found}
use dfs_csi.System.Io.{
  Io, pure, fail, attempt, lift, get_pod, list_volumes, list_pods, now, ◌>>=◌, ◌>>◌, on_result,
  branch,
}
use dfs_csi.Controller.MountInfo.{MountInfoTable, new_mount_info_table, parse, set_pods_status}
use dfs_csi.Controller.Driver.{run}

-- driver.DriverName
abbrev pub driver_name : String
driver_name = "csi-sandstone-mosfsplugin"

-- reconcile.Result: the time after which the pod is looked at again, if it is to be.
abbrev pub Requeue : Type 0
Requeue = Option ℤ

abbrev pub is_driver : Option String → Bool
is_driver none = false
is_driver (some d) = d == driver_name

abbrev pub add_namespace : Option String → List String → List String
add_namespace none seen = seen
add_namespace (some ns) seen = if any (λ n. n == ns) seen then seen else seen ++ ns ∷ []

-- The first loop of ListAppPod: the namespaces of the claims of the driver's volumes.
unfoldable pub claim_namespaces : List String → List PersistentVolume → List String
claim_namespaces seen [] = seen
claim_namespaces seen (pv ∷ pvs) =
    claim_namespaces (if is_driver pv.driver then add_namespace pv.claim_namespace seen else seen)
      pvs

module _ (sys : System) where
  -- The second loop of ListAppPod.
  unfoldable pub list_all : List String → Io (List Pod)
  list_all [] = pure []
  list_all (ns ∷ rest) = do pods ← list_pods sys ns; more ← list_all rest; pure (pods ++ more)

  -- ListAppPod
  unfoldable pub list_app_pod : Io (List Pod)
  unfolding claim_namespaces
  list_app_pod = do pvs ← list_volumes sys; list_all (claim_namespaces [] pvs)

  -- The end of Reconcile: a pod with a time of deletion is looked at again at that time.
  unfoldable pub requeue : Pod → Io Requeue
  unfolding value_of sub_ℤ
  requeue pod = branch (value_of pod.annotations delete_delay_at_key == "") (pure none) do
    delay_at ← lift (sys.parse_time (value_of pod.annotations delete_delay_at_key))
    n ← now sys
    pure (some (if ltb_ℤ delay_at n then pos 0 else sub_ℤ delay_at n))

  -- Reconcile of a mount pod of this node
  unfoldable pub reconcile_here : Pod → Io Requeue
  unfolding set_pods_status
  reconcile_here pod = do
    mit ← parse sys new_mount_info_table
    pods ← list_app_pod
    run sys (set_pods_status mit pods) pod
    requeue pod

  unfoldable pub is_here : Config → Pod → Bool
  unfolding value_of
  is_here cfg pod =
      pod.spec.node_name == cfg.node_name
      || value_of pod.spec.node_selector "kubernetes.io/hostname" == cfg.node_name

  -- Reconcile
  unfoldable pub reconcile : Config → String → String → Io Requeue
  unfolding is_here
  reconcile cfg name namespace = do
    r ← attempt (get_pod sys name namespace)
    on_result r (λ pod. branch (is_here cfg pod) (reconcile_here pod) (pure none))
        (λ e. branch (is_not_found e) (pure none) (fail e))
