-- ===== src/Warmup.antt =====
-- pkg/warmup/controllers/cache_controller.go: warming up the caches of the mount pods that use a
-- claim. A client call of the controller is one of System.Io.
pub mod Nodes
pub mod Cached
use dfs_csi.Prelude.{
  ℕ, String, ◌<>◌, Bool, true, false, not, ◌&&◌, Option, none, some, List, [], ◌∷◌, ◌++◌, ◌==◌,
  is_empty, if◌then◌else◌,
}
use dfs_csi.Prelude.Dict.{Dict}
use dfs_csi.Strings.{join_path}
use dfs_csi.Kube.{Pod, Volume, VolumeSource, PersistentVolumeClaim, Cache}
use dfs_csi.System.{System, environment, Failure, ok, err, is_not_found}
use dfs_csi.System.Io.{
  Io, pure, fail, panic, attempt, get_cache, delete_cache, update_status, get_claim, list_pods,
  exec, ◌>>=◌, ◌>>◌, on_result, on_option, branch,
}

-- ctrl.Result and the error that is returned with it. The time is in seconds.
pub record Reply : Type 0 where
  pub requeue : Bool
  pub requeue_after : ℕ
  pub error : Option Failure

-- retryTimeout
abbrev pub retry_timeout : ℕ
retry_timeout = 15

-- `ctrl.Result{}, nil`
abbrev pub no_reply : Reply
no_reply = record { requeue = false; requeue_after = 0; error = none }

abbrev pub failed_reply : Bool → Failure → Reply
failed_reply again e = record { requeue = again; requeue_after = retry_timeout; error = some e }

-- The inner loop of fromPVCGetUsedPodsNodeName, over the volumes of a pod on a node: it ends at the
-- first volume that is not a claim.
unfoldable pub volume_nodes : String → String → List Volume → List String
volume_nodes pvc_name node [] = []
volume_nodes pvc_name node (v ∷ vs) =
    let rest = volume_nodes pvc_name node vs in
    elim v.source [
      | VolumeSource.claim name ↦ if name == pvc_name && not (node == "") then node ∷ rest else rest
      | _ ↦ []
    ]

-- The outer loop of fromPVCGetUsedPodsNodeName.
unfoldable pub pod_nodes : String → List Pod → List String
unfolding volume_nodes
pod_nodes pvc_name [] = []
pod_nodes pvc_name (pod ∷ pods) =
    volume_nodes pvc_name pod.spec.node_name pod.spec.volumes ++ pod_nodes pvc_name pods

-- The name of the mount pod in warmUp.
unfoldable pub mount_pod_name : Bool → String → String → String → String
mount_pod_name share_mount node sc_name pv_name =
    "mosfs-" <> (node <> ("-" <> (if share_mount then sc_name else pv_name)))

abbrev pub warm_up_command : String → List String
warm_up_command path = "/usr/bin/dfscli" ∷ "warmup" ∷ path ∷ []

-- The path that Reconcile warms up.
unfoldable pub cache_path : Bool → String → String → String → String
unfolding join_path
cache_path share_mount sc_name pv_name sub_path =
    let root =
      if share_mount then "/mosfs/" <> (sc_name <> ("/" <> pv_name)) else "/mosfs/" <> pv_name in
    if sub_path == "" then root else join_path root sub_path

module _ (sys : System) where
  -- getStorageClassNameAndPVName
  unfoldable pub get_storage_class_name_and_pv_name : String → String → Io (String × String)
  get_storage_class_name_and_pv_name namespace pvc_name = do
    r ← attempt (get_claim sys namespace pvc_name)
    on_result r
        (λ pvc. on_option pvc.storage_class_name (panic "nil storage class name") λ sc_name.
          branch (sc_name == "") (fail (Failure.message "related storageclass is empty")) (
            branch (pvc.volume_name == "") (fail (Failure.message "not bound to pv"))
              (pure (sc_name, pvc.volume_name))))
        (λ e. fail (Failure.message "get pvc"))

  -- fromPVCGetUsedPodsNodeName
  unfoldable pub from_pvc_get_used_pods_node_name : String → String → Io (List String)
  unfolding pod_nodes
  from_pvc_get_used_pods_node_name ns pvc_name = do
    r ← attempt (list_pods sys ns)
    on_result r (λ pods. pure (pod_nodes pvc_name pods))
        (λ e. fail (Failure.message "list pod in namesapce"))

  -- warmUp. NewSPDYExecutor and Stream are one call, with the error that warmUp makes of theirs.
  unfoldable pub warm_up : String → String → String → String → String → Bool → Io (Unit {0})
  unfolding mount_pod_name
  warm_up node sc_name pv_name path namespace share_mount =
      exec sys namespace (mount_pod_name share_mount node sc_name pv_name) (warm_up_command path)

  -- The loop of warmUpAll: the error that ends it.
  unfoldable pub warm_up_loop :
      String → String → String → String → Bool → List String → Io (Option Failure)
  unfolding warm_up
  warm_up_loop sc_name pv_name path namespace share_mount [] = pure none
  warm_up_loop sc_name pv_name path namespace share_mount (node ∷ nodes) = do
    r ← attempt (warm_up node sc_name pv_name path namespace share_mount)
    on_result r (λ _. warm_up_loop sc_name pv_name path namespace share_mount nodes)
        (λ e. pure (some e))

  -- The status that warmUpAll sets. The message of an earlier error stays.
  unfoldable pub with_status : Option Failure → Cache → Cache
  with_status none c = record c { cached = true }
  with_status (some e) c = record c { cached = false; message = sys.error_text e }

  -- warmUpAll
  unfoldable pub warm_up_all :
      String → String → String → String → Bool → Cache → List String → Io (Unit {0})
  unfolding warm_up_loop with_status
  warm_up_all sc_name pv_name path namespace share_mount c nodes = do
    final ← warm_up_loop sc_name pv_name path namespace share_mount nodes
    r ← attempt (update_status sys (with_status final c))
    on_result r (λ _. on_option final (pure tt) (λ e. fail (Failure.message "warm up cahche")))
        (λ e. fail (Failure.message "update cache"))

  -- What Reconcile does behind the nodes.
  unfoldable pub warm_nodes : String → String → Cache → List String → Io Reply
  unfolding environment cache_path warm_up_all
  warm_nodes sc_name pv_name c nodes =
      branch (is_empty nodes) (pure (failed_reply false (Failure.message "nodeName is empty"))) (
        branch (environment sys "MOSFS_MOUNT_NAMESPACE" == "")
          (pure
            (failed_reply false (Failure.message "get namespace failed, namespace can not empty")))
          (do
            let share_mount = environment sys "STORAGE_CLASS_SHARE_MOUNT" == "true"
            r ← attempt (
                warm_up_all sc_name pv_name (cache_path share_mount sc_name pv_name c.path)
                  (environment sys "MOSFS_MOUNT_NAMESPACE") share_mount c nodes)
            on_result r (λ _. pure no_reply) (λ e. pure (failed_reply true e))))

  -- The branch of Reconcile for a cache that is neither deleted nor cached.
  unfoldable pub reconcile_cache : String → Cache → Io Reply
  reconcile_cache namespace c = do
    names ← attempt (get_storage_class_name_and_pv_name namespace c.pvc_name)
    on_result names
        (λ (sc_name, pv_name). do
          nodes ← attempt (from_pvc_get_used_pods_node_name namespace c.pvc_name)
          on_result nodes (warm_nodes sc_name pv_name c) (λ e. pure (failed_reply true e)))
        (λ e. pure (failed_reply true e))

  -- The branch of Reconcile for a cache with a time of deletion.
  unfoldable pub delete_it : Cache → Io Reply
  delete_it c = do
    r ← attempt (delete_cache sys c)
    on_result r (λ _. pure no_reply)
        (λ e. branch (is_not_found e) (pure no_reply) (pure (failed_reply true e)))

  -- Reconcile
  unfoldable pub reconcile_request : String → String → Io Reply
  unfolding delete_it reconcile_cache
  reconcile_request namespace name = do
    r ← attempt (get_cache sys namespace name)
    on_result r
        (λ c.
          branch c.deleting (delete_it c)
            (branch c.cached (pure no_reply) (reconcile_cache namespace c)))
        (λ e. branch (is_not_found e) (pure no_reply) (pure (failed_reply true e)))
