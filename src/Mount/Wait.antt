-- ===== src/Mount/Wait.antt =====
-- pkg/juicefs/mount/pod_mount.go: creating a mount pod, and waiting until its mount point is ready.
pub mod Objects
pub mod Creation
pub mod Ready
use dfs_csi.Prelude.{
  ℕ, zero, suc, String, Bool, true, false, Option, none, some, List, ◌==◌, eqb, find_first,
  if◌then◌else◌, not,
}
use dfs_csi.Prelude.Dict.{insert}
use dfs_csi.Config.{Config, delete_delay_time_key}
use dfs_csi.Config.Setting.{JfsSetting}
use dfs_csi.Kube.{Pod, ContainerStatus}
use dfs_csi.System.{System, Failure, is_not_found}
use dfs_csi.System.Io.{
  Io, pure, fail, hang, attempt, get_pod, get_log, stat, sleep, do_with_timeout, ◌>>=◌, ◌>>◌,
  on_result, on_option, branch,
}
use dfs_csi.K8sClient.{create_pod}
use dfs_csi.Util.{get_loop_timeout}
use dfs_csi.Util.Patches.{get_reference_key}
use dfs_csi.Mount.Builder.{generate_pod_name, new_mount_pod, parse_pod_resources, Resources}
use dfs_csi.Mount.Refs.{add_ref_of_mount}

-- The error of a context that is over.
abbrev pub is_context_error : Failure → Bool
is_context_error Failure.canceled = true
is_context_error Failure.deadline_exceeded = true
is_context_error _ = false

-- The fuel of the loops: rounds of a retry on conflict, and checks of the mount point.
pub record Fuel : Type 0 where
  pub retries : ℕ
  pub checks : ℕ

module _ (sys : System) (cfg : Config) where
  -- The log of the first container that is not ready, if there is one.
  pub log_of : Pod → List ContainerStatus → Io (Option String)
  log_of pod statuses =
      on_option (find_first (λ (s : ContainerStatus). not s.ready) statuses) (pure none)
        (λ s. do log ← get_log sys pod.name s.name; pure (some log))

  -- getErrContainerLog
  unfoldable pub get_err_container_log : String → Io String
  unfolding log_of
  get_err_container_log pod_name = do
    pod ← get_pod sys pod_name cfg.namespace
    first ← log_of pod pod.init_statuses
    on_option first
        (do second ← log_of pod pod.statuses; on_option second (pure "") (λ log. pure log))
        (λ log. pure log)

  -- The loop of waitUtilMountReady: whether the mount point was seen before the time was up.
  unfoldable pub ready_loop : ℕ → String → Io Bool
  ready_loop zero path = hang
  ready_loop (suc checks) path = do
    r ← attempt (do_with_timeout sys (stat sys path))
    on_result r (λ info. branch (eqb info.ino 1) (pure true) (do sleep; ready_loop checks path))
        (λ e. branch (is_context_error e) (pure false) (do sleep; ready_loop checks path))

  -- waitUtilMountReady
  unfoldable pub wait_until_mount_ready : ℕ → String → String → Io (Unit {0})
  unfolding get_err_container_log
  wait_until_mount_ready checks pod_name mount_path = do
    ready ← ready_loop checks mount_path
    branch ready (pure tt) (do
      log ← attempt (get_err_container_log pod_name)
      on_result log (λ text. fail (Failure.message text))
          (λ _. fail (Failure.message "mount failed: mount isn't ready in 30 seconds")))

  -- The pod that waitUntilMount creates.
  unfoldable pub first_pod : JfsSetting → Resources → String → String → String → String → Pod
  unfolding new_mount_pod insert get_reference_key
  first_pod setting resources pod_name cmd mount_path target =
      let pod = new_mount_pod cfg pod_name cmd mount_path resources setting.configs setting.envs in
      let annotations = insert (get_reference_key sys target) target pod.annotations in
      record pod {
        annotations =
            if setting.deleted_delay == ""
            then annotations
            else insert delete_delay_time_key setting.deleted_delay annotations;
      }

  -- A mount pod that is there gets the reference, and is waited for.
  unfoldable pub use_pod : Fuel → String → String → String → Io (Unit {0})
  use_pod fuel pod_name mount_path target = do
    added ← attempt (add_ref_of_mount sys cfg fuel.retries target pod_name)
    on_result added (λ _. wait_until_mount_ready fuel.checks pod_name mount_path)
        (λ _. fail (Failure.message "add target ref in mountPod"))

  -- The loop of waitUntilMount. `pod` is the pod to create.
  unfoldable pub wait_loop : Fuel → Pod → String → String → String → ℕ → Io (Unit {0})
  wait_loop fuel pod pod_name mount_path target zero =
      fail (Failure.message "wait mountPod ready failed")
  wait_loop fuel pod pod_name mount_path target (suc rounds) = do
    r ← attempt (get_pod sys pod_name cfg.namespace)
    on_result r
        (λ po.
          branch po.deleting (do sleep; wait_loop fuel pod pod_name mount_path target rounds)
            (use_pod fuel pod_name mount_path target))
        (λ e.
          branch (is_not_found e)
            (do create_pod sys pod; wait_loop fuel pod pod_name mount_path target rounds) (fail e))

  -- waitUntilMount, of a setting that is not nil
  unfoldable pub wait_until_mount :
      Fuel → JfsSetting → String → String → String → String → Io (Unit {0})
  unfolding first_pod parse_pod_resources get_loop_timeout
  wait_until_mount fuel setting volume_id target mount_path cmd = do
    resources ←
        parse_pod_resources sys setting.mount_pod_cpu_limit setting.mount_pod_mem_limit
          setting.mount_pod_cpu_request setting.mount_pod_mem_request
    let pod_name = generate_pod_name cfg volume_id
    let pod = first_pod setting resources pod_name cmd mount_path target
    wait_loop fuel pod pod_name mount_path target (get_loop_timeout sys)
