-- ===== src/Controller/Driver/Listed.antt =====
-- Run on a mount pod that a listed pod uses.
use dfs_csi.Prelude.{
  ℕ, ◌≡◌, ◌<◌, String, Bool, true, ◌||◌, List, [], ◌∷◌, ◌==◌, any, length, is_some, arith,
}
use dfs_csi.Prelude.Dict.{Dict, lookup, insert, lookup-insert}
use dfs_csi.Kube.{Pod, Patch}
use dfs_csi.System.{System, Trace}
use dfs_csi.System.Io.{trace_of, patch_pod}
use dfs_csi.System.Keeps.{Keeps, Ignores}
use dfs_csi.System.Traces.{HasDeletions, HasDeletions-Ignores, HasDeletions-patch_pod}
use dfs_csi.Util.Patches.{get_all_ref_keys}
use dfs_csi.Controller.MountInfo.{MountInfoTable, pods_status, set_pods_status, get_pod_uid}
use dfs_csi.Controller.Handlers.{ready_status, get_pod_status}
use dfs_csi.Controller.Driver.{target_exists, run}
use dfs_csi.Controller.Driver.Plan.{live, plan_lem}
use dfs_csi.Controller.Driver.Live.{live-Keeps}

-- Whether some pods hold one with the uid.
abbrev pub has_uid : String → List Pod → Bool
has_uid uid pods = any (λ (pod : Pod). pod.uid == uid) pods

-- Whether a listed pod has the target of one of the mount pod's references.
abbrev pub is_used : System → Pod → List Pod → Bool
is_used sys mount_pod pods =
    any (λ (k, target). has_uid (get_pod_uid target) pods) (get_all_ref_keys sys mount_pod)

lookup-pods_status :
    (uid : String) (d : Dict Bool) (pods : List Pod)
    → is_some (lookup uid (pods_status d pods)) ≡ (is_some (lookup uid d) || has_uid uid pods)
unfolding pods_status
lookup-pods_status uid d [] = ground arith
lookup-pods_status uid d (pod ∷ pods) = ground (
  arith,
  lookup-pods_status uid (insert pod.uid pod.deleting d) pods,
  lookup-insert pod.uid uid pod.deleting d,
)

module _ (sys : System) (mit : MountInfoTable) (pods : List Pod) where
  target_exists-set_pods_status :
      (target : String)
      → target_exists sys (set_pods_status mit pods) target ≡ has_uid (get_pod_uid target) pods
  unfolding target_exists set_pods_status lookup
  target_exists-set_pods_status target = lookup-pods_status (get_pod_uid target) [] pods

  some-live :
      (refs : Dict String)
      → any (λ (k, target). has_uid (get_pod_uid target) pods) refs ≡ true
      → 0 < length (live sys (set_pods_status mit pods) refs)
  some-live [] h = absurd (cc)
  some-live ((k, target) ∷ refs) h =
      ground (arith, target_exists-set_pods_status target, some-live refs)

  -- Where the mount pod is ready and a listed pod has a target of it, Run changes no object but by
  -- patches.
  pub listed-Keeps {ℓ} :
      (P : Trace → Type ℓ) (mount_pod : Pod)
      → Ignores P
      → ((po : Pod) (p : Patch) → Keeps P (patch_pod sys po p))
      → get_pod_status mount_pod ≡ ready_status
      → is_used sys mount_pod pods ≡ true
      → Keeps P (run sys (set_pods_status mit pods) mount_pod)
  listed-Keeps P mount_pod ig patches ready used =
      live-Keeps sys P ig patches (set_pods_status mit pods) mount_pod ready (
        omega (
          arith,
          (plan_lem sys (set_pods_status mit pods) mount_pod).0,
          some-live (get_all_ref_keys sys mount_pod) used,
        ))

  -- Run deletes nothing, so the number of deletions stays as it was, if the mount pod is ready and
  -- one of the pods that are listed has the target of one of its references, also if that pod is
  -- being deleted.
  pub run-listed :
      (mount_pod : Pod) (n : ℕ) (t : Trace)
      → get_pod_status mount_pod ≡ ready_status
      → is_used sys mount_pod pods ≡ true
      → HasDeletions n t
      → HasDeletions n (trace_of (run sys (set_pods_status mit pods) mount_pod t))
  run-listed mount_pod n t ready used h =
      (listed-Keeps (HasDeletions n) mount_pod (HasDeletions-Ignores n)
          (HasDeletions-patch_pod sys n) ready used).at
        t h
