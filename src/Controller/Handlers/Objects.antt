-- ===== src/Controller/Handlers/Objects.antt =====
-- The handlers of a mount pod, call by call: what they keep if the calls that change objects keep it.
use dfs_csi.Prelude.{ℕ, zero, suc, String}
use dfs_csi.Kube.{Pod}
use dfs_csi.System.{System, Trace, is_not_found}
use dfs_csi.System.Io.{delete_pod}
use dfs_csi.System.Keeps.{
  Keeps, Keeps-bind, Keeps-then, Keeps-on_result, Keeps-branch, Keeps-pure, Keeps-attempt,
  Keeps-lift, Ignores, keeps_rules,
}
use dfs_csi.K8sClient
use dfs_csi.Util.{umount_path}
use dfs_csi.Util.Patches.{remove_finalizer}
use dfs_csi.Util.Status.{delete_resource_of_pod}
use dfs_csi.Controller.Handlers.{
  successor, try_create, strip_again, wait_deleted, redeploy, mount_broken, is_broken,
  delete_broken, pod_error_handler, wait_gone, recover, pod_deleted_handler, pod_pending_handler,
}

module _ {ℓ} (sys : System) (P : Trace → Type ℓ) (ig : Ignores P) (pod : Pod)
    (finalizers : (po : Pod) (finalizer : String) → Keeps P (remove_finalizer sys po finalizer))
    (deletes : Keeps P (delete_pod sys pod)) where
  try_create-Keeps : (q : Pod) → Keeps P (K8sClient.create_pod sys q) → Keeps P (try_create sys q)
  unfolding try_create
  try_create-Keeps q creates = Keeps-bind _ _ (Keeps-attempt _ creates) λ r. Keeps-pure tt

  strip_again-Keeps : (po : Pod) → Keeps P (strip_again sys pod po)
  unfolding strip_again
  strip_again-Keeps po = search (keeps_rules, finalizers)

  wait_deleted-Keeps : (rounds : ℕ) → Keeps P (wait_deleted sys pod rounds)
  unfolding wait_deleted
  wait_deleted-Keeps zero = search (keeps_rules)
  wait_deleted-Keeps (suc rounds) = Keeps-bind _ _ (search (keeps_rules, ig)) λ r.
      Keeps-on_result r _ _
        (λ po.
          Keeps-then _ _ (strip_again-Keeps po)
            (Keeps-then _ _ (search (keeps_rules, ig)) (wait_deleted-Keeps rounds)))
        (λ e.
          Keeps-branch (is_not_found e) _ _ (λ _. Keeps-pure tt) (λ _. wait_deleted-Keeps rounds))

  wait_gone-Keeps : (rounds : ℕ) → Keeps P (wait_gone sys pod rounds)
  unfolding wait_gone
  wait_gone-Keeps zero = search (keeps_rules)
  wait_gone-Keeps (suc rounds) = Keeps-bind _ _ (search (keeps_rules, ig)) λ r.
      Keeps-on_result r _ _
        (λ _. Keeps-then _ _ (search (keeps_rules, ig)) (wait_gone-Keeps rounds))
        (λ e. Keeps-pure tt)

  redeploy-Keeps :
      Keeps P (K8sClient.create_pod sys (delete_resource_of_pod (successor pod)))
      → Keeps P (redeploy sys pod)
  unfolding redeploy
  redeploy-Keeps creates =
      Keeps-then _ _ (finalizers pod _) (
        Keeps-then _ _ deletes
          (Keeps-then _ _ (wait_deleted-Keeps 30) (try_create-Keeps _ creates)))

  is_broken-Keeps : (path : String) → Keeps P (is_broken sys path)
  unfolding is_broken mount_broken
  is_broken-Keeps path = search (keeps_rules, ig) depth 10

  delete_broken-Keeps : Keeps P (delete_broken sys pod)
  unfolding delete_broken
  delete_broken-Keeps = Keeps-bind _ _ (Keeps-lift _) λ source.
      Keeps-bind _ _ (is_broken-Keeps source.0)
        λ broken. Keeps-branch _ _ _ (λ _. deletes) (λ _. Keeps-pure tt)

  pub error-Keeps :
      Keeps P (K8sClient.create_pod sys (delete_resource_of_pod (successor pod)))
      → Keeps P (pod_error_handler sys pod)
  unfolding pod_error_handler
  error-Keeps creates = search (keeps_rules, redeploy-Keeps creates, delete_broken-Keeps)

  umount_path-Keeps : (path : String) → Keeps P (umount_path sys path)
  unfolding umount_path
  umount_path-Keeps path = search (keeps_rules, ig) depth 8

  recover-Keeps :
      (source : String)
      → Keeps P (K8sClient.create_pod sys (successor pod))
      → Keeps P (recover sys pod source)
  unfolding recover
  recover-Keeps source creates =
      Keeps-then _ _ (umount_path-Keeps source)
        (Keeps-then _ _ (wait_gone-Keeps 30) (try_create-Keeps _ creates))

  pub deleted-Keeps :
      Keeps P (K8sClient.create_pod sys (successor pod)) → Keeps P (pod_deleted_handler sys pod)
  unfolding pod_deleted_handler
  deleted-Keeps creates = search (keeps_rules, finalizers, recover-Keeps) depth 8

  pub pending-Keeps : Keeps P (pod_pending_handler sys pod)
  unfolding pod_pending_handler
  pending-Keeps = search (keeps_rules, deletes)
