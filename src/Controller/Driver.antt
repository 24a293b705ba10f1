-- ===== src/Controller/Driver.antt =====
-- pkg/controller/pod_driver.go: PodDriver.Run, one check of a mount pod.
pub mod Plan
pub mod Live
pub mod Objects
pub mod Listed
pub mod Overdue
use dfs_csi.Prelude.{
  ℕ, suc, String, Bool, true, false, not, ◌&&◌, List, [], ◌∷◌, ◌++◌, ◌==◌, eqb, length, is_empty,
  is_some, if◌then◌else◌,
}
use dfs_csi.Prelude.Dict.{Dict, lookup, value_of}
use dfs_csi.Config.{delete_delay_at_key}
use dfs_csi.Kube.{Pod}
use dfs_csi.System.{System, Failure}
use dfs_csi.System.Io.{Io, pure, fail, get_pod, delete_pod, ◌>>=◌, ◌>>◌, branch}
use dfs_csi.Util.Patches.{get_reference_key, get_all_ref_keys, del_pod_annotation}
use dfs_csi.Util.Delay.{should_delay}
use dfs_csi.Controller.MountInfo.{MountInfoTable, get_pod_uid}
use dfs_csi.Controller.Handlers.{
  PodStatus, ready_status, error_status, deleted_status, pending_status, get_pod_status,
  pod_ready_handler, pod_error_handler, pod_deleted_handler, pod_pending_handler,
}

-- Run's counter and list.
pub record Refs : Type 0 where
  pub exist_targets : ℕ
  pub del_annotations : List String

-- A round of Run's loop over the annotations.
abbrev pub count_ref : Refs → String → Bool → Refs
count_ref r key exists =
    if exists
    then record r { exist_targets = suc r.exist_targets }
    else record r { del_annotations = r.del_annotations ++ key ∷ [] }

abbrev pub no_refs : Refs
no_refs = record { exist_targets = 0; del_annotations = [] }

-- The time of deletion, if one is set, is taken off a pod with a target that exists.
abbrev pub finish : Refs → Bool → Refs
finish r scheduled =
    if not (eqb r.exist_targets 0) && scheduled
    then record r { del_annotations = r.del_annotations ++ delete_delay_at_key ∷ [] }
    else r

module _ (sys : System) (mit : MountInfoTable) where
  -- `_, exists := p.mit.deletedPods[getPodUid(target)]`
  unfoldable pub target_exists : String → Bool
  unfolding lookup get_pod_uid
  target_exists target = is_some (lookup (get_pod_uid target) mit.deleted_pods)

  -- Run's loop over the annotations.
  unfoldable pub count_refs : Refs → Dict String → Refs
  unfolding get_reference_key target_exists
  count_refs r [] = r
  count_refs r ((k, target) ∷ annotations) =
      count_refs
        (if k == get_reference_key sys target then count_ref r k (target_exists target) else r)
        annotations

  -- The annotations that Run takes off, and the number of the targets that exist.
  unfoldable pub plan : Pod → Refs
  unfolding count_refs value_of
  plan pod =
      finish (count_refs no_refs pod.annotations)
        (not (value_of pod.annotations delete_delay_at_key == ""))

  -- The patch of the annotations, unless the references have changed meanwhile.
  unfoldable pub clean_annotations : Pod → List String → Io (Unit {0})
  unfolding get_all_ref_keys
  clean_annotations pod del = branch (is_empty del) (pure tt) do
    new_pod ← get_pod sys pod.name pod.namespace
    branch (eqb (length (get_all_ref_keys sys new_pod)) (length (get_all_ref_keys sys pod)))
        (del_pod_annotation sys pod del) (fail Failure.conflict)

  -- `p.handlers[status](ctx, pod)`
  unfoldable pub handle : PodStatus → Pod → Io (Unit {0})
  handle ready_status pod = pod_ready_handler sys pod
  handle error_status pod = pod_error_handler sys pod
  handle deleted_status pod = pod_deleted_handler sys pod
  handle pending_status pod = pod_pending_handler sys pod

  -- Run behind the patch of the annotations.
  unfoldable pub settle : Pod → ℕ → Io (Unit {0})
  unfolding get_pod_status
  settle pod exist_targets =
      branch (eqb exist_targets 0 && not pod.deleting)
        (do
          delay ← should_delay sys pod
          branch delay (handle (get_pod_status pod) pod) (delete_pod sys pod))
        (handle (get_pod_status pod) pod)

  -- PodDriver.Run
  unfoldable pub run : Pod → Io (Unit {0})
  unfolding plan
  run pod = do clean_annotations pod (plan pod).del_annotations; settle pod (plan pod).exist_targets
