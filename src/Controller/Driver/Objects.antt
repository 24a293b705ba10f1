-- ===== src/Controller/Driver/Objects.antt =====
-- Run on a mount pod in whatever state keeps what its calls on this pod keep.
use dfs_csi.Prelude.{ℕ, String, List}
use dfs_csi.Kube.{Pod, Patch}
use dfs_csi.System.{System, Trace}
use dfs_csi.System.Io.{patch_pod, delete_pod}
use dfs_csi.System.Keeps.{Keeps, Keeps-bind, Keeps-then, Keeps-branch, Ignores, keeps_rules}
use dfs_csi.K8sClient
use dfs_csi.Util.Patches.{remove_finalizer, del_pod_annotation, add_pod_annotation}
use dfs_csi.Util.Delay.{should_delay, get_time_after_delay}
use dfs_csi.Util.Status.{delete_resource_of_pod}
use dfs_csi.Controller.MountInfo.{MountInfoTable}
use dfs_csi.Controller.Handlers.{
  PodStatus, ready_status, error_status, deleted_status, pending_status, successor,
}
use dfs_csi.Controller.Handlers.Objects.{error-Keeps, deleted-Keeps, pending-Keeps}
use dfs_csi.Controller.Handlers.Rebinding.{ready-Keeps}
use dfs_csi.Controller.Driver.{clean_annotations, settle, handle, run}

module _ {ℓ} (sys : System) (P : Trace → Type ℓ) (ig : Ignores P) (pod : Pod)
    (finalizers : (po : Pod) (finalizer : String) → Keeps P (remove_finalizer sys po finalizer))
    (patches : (p : Patch) → Keeps P (patch_pod sys pod p)) (deletes : Keeps P (delete_pod sys pod))
    (creates : Keeps P (K8sClient.create_pod sys (successor pod)))
    (creates_freed : Keeps P
      (K8sClient.create_pod sys (delete_resource_of_pod (successor pod)))) where
  handle-Keeps : (mit : MountInfoTable) (status : PodStatus) → Keeps P (handle sys mit status pod)
  unfolding handle
  handle-Keeps mit ready_status = ready-Keeps sys P ig pod
  handle-Keeps mit error_status = error-Keeps sys P ig pod finalizers deletes creates_freed
  handle-Keeps mit deleted_status = deleted-Keeps sys P ig pod finalizers deletes creates
  handle-Keeps mit pending_status = pending-Keeps sys P ig pod finalizers deletes

  should_delay-Keeps : Keeps P (should_delay sys pod)
  unfolding should_delay get_time_after_delay add_pod_annotation
  should_delay-Keeps = search (keeps_rules, ig, patches) depth 8

  settle-Keeps : (mit : MountInfoTable) (k : ℕ) → Keeps P (settle sys mit pod k)
  unfolding settle
  settle-Keeps mit k =
      Keeps-branch _ _ _
        (λ _.
          Keeps-bind _ _ should_delay-Keeps
            λ delay. Keeps-branch delay _ _ (λ _. handle-Keeps mit _) (λ _. deletes))
        (λ _. handle-Keeps mit _)

  clean-Keeps :
      (mit : MountInfoTable) (del : List String) → Keeps P (clean_annotations sys mit pod del)
  unfolding clean_annotations del_pod_annotation
  clean-Keeps mit del = search (keeps_rules, ig, patches) depth 8

  pub run-Keeps : (mit : MountInfoTable) → Keeps P (run sys mit pod)
  unfolding run
  run-Keeps mit = Keeps-then _ _ (clean-Keeps mit _) (settle-Keeps mit _)
