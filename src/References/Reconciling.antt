-- ===== src/References/Reconciling.antt =====
-- Run, the reconciler's check of a mount pod, keeps the reference of a target that exists.
use dfs_csi.Prelude.{◌≡◌, String, true, false, Option, some, List, ◌==◌, any, arith}
use dfs_csi.Prelude.Dict.{lookup}
use dfs_csi.Config.{delete_delay_at_key}
use dfs_csi.Kube.{Pod}
use dfs_csi.System.{System}
use dfs_csi.System.Keeps.{Keeps, Keeps-then, Keeps-bind, Keeps-branch, Keeps-pure, keeps_rules}
use dfs_csi.Util.Patches.{get_reference_key, del_pod_annotation}
use dfs_csi.Controller.MountInfo.{MountInfoTable}
use dfs_csi.Controller.Handlers.{ready_status, get_pod_status}
use dfs_csi.Controller.Driver.Live.{settle-Keeps}
use dfs_csi.Controller.Driver.{target_exists, clean_annotations, run}
use dfs_csi.References.{Place, IsHeld, IsHeld-Ignores, patched_value}
use dfs_csi.References.Rules.{Keeps-patch}
use dfs_csi.References.Listed.{refers_only, plan-live, plan-spares}

-- A pod as Run gets it: ready, with the one reference to the target, which exists.
pub record IsListed (sys : System) (mit : MountInfoTable) (target : String) (pod : Pod)
    : Type 0 where
  pub ready : get_pod_status pod ≡ ready_status
  pub refers : lookup (get_reference_key sys target) pod.annotations ≡ some target
  pub once : refers_only (get_reference_key sys target) target pod.annotations ≡ true
  pub exists : target_exists sys mit target ≡ true

module _ (sys : System) (place : Place) (old : Option String) (target : String)
    (names : place.key ≡ get_reference_key sys target)
    (apart : (get_reference_key sys target == delete_delay_at_key) ≡ false) where
  remove-Keeps :
      (pod : Pod) (del : List String)
      → any (λ k. k == get_reference_key sys target) del ≡ false
      → Keeps (IsHeld place old target) (del_pod_annotation sys pod del)
  unfolding del_pod_annotation patched_value
  remove-Keeps pod del spared =
      Keeps-patch sys place old target pod _ λ _. rw names (ground (arith, spared))

  clean-Keeps :
      (mit : MountInfoTable) (pod : Pod) (del : List String)
      → any (λ k. k == get_reference_key sys target) del ≡ false
      → Keeps (IsHeld place old target) (clean_annotations sys mit pod del)
  unfolding clean_annotations
  clean-Keeps mit pod del spared =
      Keeps-branch _ _ _ (λ _. Keeps-pure tt)
        λ _. Keeps-bind _ _ (search (keeps_rules, IsHeld-Ignores)) λ new_pod.
          Keeps-branch _ _ _ (λ _. remove-Keeps pod del spared) (λ _. search (keeps_rules))

  pub run-Keeps :
      (mit : MountInfoTable) (pod : Pod)
      → IsListed sys mit target pod
      → Keeps (IsHeld place old target) (run sys mit pod)
  unfolding run
  run-Keeps mit pod listed =
      Keeps-then _ _
        (clean-Keeps mit pod _ (plan-spares sys mit target listed.exists pod listed.once apart))
        (settle-Keeps sys _ mit pod _ (IsHeld-Ignores place old target) listed.ready
          (plan-live sys mit target listed.exists pod listed.refers))
