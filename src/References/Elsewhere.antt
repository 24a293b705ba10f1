-- ===== src/References/Elsewhere.antt =====
-- Run on another mount pod, in whatever state, keeps the reference of a target.
use dfs_csi.Prelude.{◌≡◌, refl, String, false, Option}
use dfs_csi.Kube.{Pod, Patch}
use dfs_csi.System.{System}
use dfs_csi.System.Io.{patch_pod}
use dfs_csi.System.Keeps.{Keeps, keeps_rules}
use dfs_csi.K8sClient
use dfs_csi.Util.Patches.{remove_finalizer}
use dfs_csi.Util.Status.{delete_resource_of_pod}
use dfs_csi.Controller.MountInfo.{MountInfoTable}
use dfs_csi.Controller.Driver.{run}
use dfs_csi.Controller.Driver.Objects.{run-Keeps}
use dfs_csi.References.{Place, IsHeld, IsHeld-Ignores, is_at, patched_value}
use dfs_csi.References.Rules.{Keeps-patch, Keeps-delete, Keeps-create}

module _ (sys : System) (place : Place) (old : Option String) (target : String) where
  -- The finalizers of any pod may be changed.
  remove_finalizer-Keeps :
      (po : Pod) (finalizer : String)
      → Keeps (IsHeld place old target) (remove_finalizer sys po finalizer)
  unfolding remove_finalizer patched_value
  remove_finalizer-Keeps po finalizer = Keeps-patch sys place old target po _ λ _. refl

  module _ (pod : Pod) (other : is_at place pod ≡ false) where
    patch-Keeps : (p : Patch) → Keeps (IsHeld place old target) (patch_pod sys pod p)
    patch-Keeps p = Keeps-patch sys place old target pod p λ here. absurd (cc)

    client-Keeps :
        (q : Pod)
        → is_at place q ≡ false
        → Keeps (IsHeld place old target) (K8sClient.create_pod sys q)
    unfolding K8sClient.create_pod
    client-Keeps q elsewhere = search (keeps_rules, Keeps-create) depth 8

    pub run-elsewhere-Keeps :
        (mit : MountInfoTable) → Keeps (IsHeld place old target) (run sys mit pod)
    unfolding delete_resource_of_pod
    run-elsewhere-Keeps =
        run-Keeps sys (IsHeld place old target) (IsHeld-Ignores place old target) pod
          remove_finalizer-Keeps patch-Keeps (Keeps-delete sys place old target pod other)
          (client-Keeps _ other) (client-Keeps _ other)
