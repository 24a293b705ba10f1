-- ===== src/Controller/Handlers.antt =====
-- pkg/controller/pod_driver.go: the handlers of a mount pod, one for each status.
pub mod Objects
pub mod Recovery
pub mod Rebinding
use dfs_csi.Prelude.{
  ℕ, zero, suc, String, ◌<>◌, Bool, true, false, not, ◌||◌, List, [], ◌∷◌, map, is_empty,
  if◌then◌else◌,
}
use dfs_csi.Config.{finalizer}
use dfs_csi.Kube.{Pod, Phase}
use dfs_csi.System.{System, Failure, Result, ok, err, is_not_found, is_not_exist}
use dfs_csi.System.Io.{
  Io, pure, lift, attempt, get_pod, delete_pod, stat, path_exists, not_mount_point, mount, sleep,
  ◌>>=◌, ◌>>◌, on_result, branch,
}
use dfs_csi.K8sClient.{create_pod}
use dfs_csi.Util.{contains_string, umount_path}
use dfs_csi.Util.Status.{
  is_pod_resource_error, is_pod_has_resource, delete_resource_of_pod, is_pod_error, is_pod_ready,
}
use dfs_csi.Util.Patches.{get_all_ref_keys, remove_finalizer}
use dfs_csi.Util.Paths.{get_mount_path_of_pod}

pub data PodStatus : Type 0 where
  ready_status error_status deleted_status pending_status : PodStatus

-- getPodStatus, of a pod that is not nil
unfoldable pub get_pod_status : Pod → PodStatus
unfolding is_pod_error is_pod_ready
get_pod_status pod =
    if pod.deleting
    then deleted_status
    else if is_pod_error pod
    then error_status
    else if is_pod_ready pod
    then ready_status
    else pending_status

abbrev pub is_succeeded : Phase → Bool
is_succeeded Phase.succeeded = true
is_succeeded _ = false

-- The pod that takes the place of `pod`.
abbrev pub successor : Pod → Pod
successor pod = record {
  name = pod.name;
  namespace = pod.namespace;
  uid = "";
  labels = pod.labels;
  annotations = pod.annotations;
  finalizers = finalizer ∷ [];
  deleting = false;
  spec = pod.spec;
  phase = Phase.pending;
  reason = "";
  message = "";
  conditions = [];
  init_statuses = [];
  statuses = [];
}

-- The targets that the annotations of a pod refer to.
unfoldable pub targets_of : System → Pod → List String
unfolding get_all_ref_keys
targets_of sys pod = map (λ (k, v). v) (get_all_ref_keys sys pod)

module _ (sys : System) where
  -- CreatePod whose error is only logged
  pub try_create : Pod → Io (Unit {0})
  try_create pod = do r ← attempt (create_pod sys pod); pure tt

  -- The finalizer that a pod which is to go still holds is taken off again.
  pub strip_again : Pod → Pod → Io (Unit {0})
  strip_again pod old =
      branch (not (is_empty pod.finalizers) || is_empty old.finalizers)
        (do r ← attempt (remove_finalizer sys old finalizer); pure tt) (pure tt)

  -- The wait of podErrorHandler for the pod's deletion: 30 rounds at most.
  unfoldable pub wait_deleted : Pod → ℕ → Io (Unit {0})
  wait_deleted pod zero = pure tt
  wait_deleted pod (suc rounds) = do
    r ← attempt (get_pod sys pod.name pod.namespace)
    on_result r (λ old. do strip_again pod old; sleep; wait_deleted pod rounds)
        (λ e. branch (is_not_found e) (pure tt) (wait_deleted pod rounds))

  -- A pod that failed for lack of resources is deployed again without requests and limits.
  pub redeploy : Pod → Io (Unit {0})
  unfolding delete_resource_of_pod
  redeploy pod = do
    remove_finalizer sys pod finalizer
    delete_pod sys pod
    wait_deleted pod 30
    try_create (delete_resource_of_pod (successor pod))

  -- Whether the path is not a mount point, or that cannot be told.
  pub mount_broken : String → Io Bool
  mount_broken path = do
    not_mounted ← attempt (not_mount_point sys path)
    on_result not_mounted (λ b. pure b) (λ _. pure true)

  -- Whether the mount point of the path is broken.
  pub is_broken : String → Io Bool
  is_broken path = do
    exists ← attempt (path_exists sys path)
    on_result exists (λ b. branch b (mount_broken path) (pure true)) (λ _. pure true)

  -- A pod in error whose mount point is broken is deleted.
  pub delete_broken : Pod → Io (Unit {0})
  unfolding get_mount_path_of_pod
  delete_broken pod = do
    source ← lift (get_mount_path_of_pod pod)
    broken ← is_broken source.0
    branch broken (delete_pod sys pod) (pure tt)

  -- podErrorHandler
  unfoldable pub pod_error_handler : Pod → Io (Unit {0})
  unfolding is_pod_resource_error is_pod_has_resource get_mount_path_of_pod
  pod_error_handler pod =
      branch (is_pod_resource_error pod) (branch (is_pod_has_resource pod) (redeploy pod) (pure tt))
        (delete_broken pod)

  -- The wait of podDeletedHandler's deferred function: 30 rounds at most.
  unfoldable pub wait_gone : Pod → ℕ → Io (Unit {0})
  wait_gone pod zero = pure tt
  wait_gone pod (suc rounds) = do
    r ← attempt (get_pod sys pod.name pod.namespace)
    on_result r (λ _. do sleep; wait_gone pod rounds) (λ _. pure tt)

  -- The pod is created again behind the unmount.
  pub recover : Pod → String → Io (Unit {0})
  recover pod source = do umount_path sys source; wait_gone pod 30; try_create (successor pod)

  -- podDeletedHandler
  unfoldable pub pod_deleted_handler : Pod → Io (Unit {0})
  unfolding contains_string is_pod_resource_error targets_of get_mount_path_of_pod
  pod_deleted_handler pod =
      branch (not (contains_string pod.finalizers finalizer) || is_pod_resource_error pod) (pure tt)
        do
          remove_finalizer sys pod finalizer
          branch (is_empty (targets_of sys pod)) (pure tt) (
              on_result (get_mount_path_of_pod pod) (λ source. recover pod source.0) (λ _. pure tt))

  -- The mount path itself, if stat succeeds on it.
  pub mount_source : String → Io (Result String)
  mount_source path = do
    r ← attempt (stat sys path)
    on_result r (λ _. pure (ok path)) (λ e. pure (err e))

  -- The source of a ready pod's bind mounts: the volume's directory, or else the mount path.
  pub bind_source : String → String → Io (Result String)
  bind_source path volume = do
    r ← attempt (stat sys (path <> ("/" <> volume)))
    on_result r (λ _. pure (ok (path <> ("/" <> volume))))
        (λ e. branch (is_not_exist e) (mount_source path) (pure (err e)))

  -- A target is bound again if stat fails on it other than by its absence.
  pub rebind : String → String → Io (Unit {0})
  rebind source target = do
    r ← attempt (stat sys target)
    on_result r (λ _. pure tt)
        (λ e.
          branch (is_not_exist e) (pure tt)
            (do m ← attempt (mount sys source target "none" ("bind" ∷ [])); pure tt))

  unfoldable pub rebind_all : String → List String → Io (Unit {0})
  rebind_all source [] = pure tt
  rebind_all source (target ∷ targets) = do rebind source target; rebind_all source targets

  pub rebind_pod : Pod → String → String → Io (Unit {0})
  unfolding targets_of
  rebind_pod pod path volume = do
    source ← bind_source path volume
    on_result source (λ s. rebind_all s (targets_of sys pod)) (λ _. pure tt)

  -- podReadyHandler
  unfoldable pub pod_ready_handler : Pod → Io (Unit {0})
  unfolding targets_of get_mount_path_of_pod
  pod_ready_handler pod =
      branch (is_empty pod.annotations) (pure tt)
        (on_result (get_mount_path_of_pod pod) (λ p. rebind_pod pod p.0 p.1) (λ _. pure tt))

  -- podPendingHandler
  unfoldable pub pod_pending_handler : Pod → Io (Unit {0})
  pod_pending_handler pod = branch (is_succeeded pod.phase) (delete_pod sys pod) (pure tt)
