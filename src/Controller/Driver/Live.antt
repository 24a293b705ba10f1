-- ===== src/Controller/Driver/Live.antt =====
-- Which pods Run deletes.
use dfs_csi.Prelude.{ℕ, ◌≡◌, ◌<◌, String, false, none, List, [], arith}
use dfs_csi.Prelude.Dict.{lookup}
use dfs_csi.Config.{delete_delay_time_key}
use dfs_csi.Kube.{Pod, Patch}
use dfs_csi.System.{System, Trace}
use dfs_csi.System.Io.{patch_pod, delete_pod, ◌>>=◌, ◌>>◌}
use dfs_csi.System.Keeps.{Keeps, Ignores, Keeps-then, Keeps-branch, keeps_rules}
use dfs_csi.Util.Delay.{should_delay}
use dfs_csi.Util.Patches.{del_pod_annotation, get_all_ref_keys}
use dfs_csi.Controller.MountInfo.{MountInfoTable}
use dfs_csi.Controller.Handlers.{ready_status, get_pod_status}
use dfs_csi.Controller.Handlers.Rebinding.{ready-Keeps}
use dfs_csi.Controller.Driver.{plan, clean_annotations, handle, settle, run}
use dfs_csi.Controller.Driver.Plan.{plan_lem}

-- With a reference whose target exists, what comes behind the patch changes no object.
pub settle-Keeps {ℓ} :
    (sys : System) (P : Trace → Type ℓ) (mit : MountInfoTable) (pod : Pod) (k : ℕ)
    → Ignores P
    → get_pod_status pod ≡ ready_status
    → 0 < k
    → Keeps P (settle sys mit pod k)
unfolding settle handle
settle-Keeps sys P mit pod k ig ready pos =
    Keeps-branch _ _ _ (λ none_left. absurd (ground arith)) λ _. rw ready (ready-Keeps sys P ig pod)

module _ {ℓ} (sys : System) (P : Trace → Type ℓ) (ig : Ignores P)
    (patches : (po : Pod) (p : Patch) → Keeps P (patch_pod sys po p)) where
  clean-Keeps :
      (mit : MountInfoTable) (pod : Pod) (del : List String)
      → Keeps P (clean_annotations sys mit pod del)
  unfolding clean_annotations del_pod_annotation
  clean-Keeps mit pod del = search (keeps_rules, ig, patches) depth 8

  -- Where the pod is ready and a target of its references exists, Run changes no object but by patches.
  pub live-Keeps :
      (mit : MountInfoTable) (pod : Pod)
      → get_pod_status pod ≡ ready_status
      → 0 < (plan sys mit pod).exist_targets
      → Keeps P (run sys mit pod)
  unfolding run
  live-Keeps mit pod ready live =
      Keeps-then _ _ (clean-Keeps mit pod (plan sys mit pod).del_annotations)
        (settle-Keeps sys P mit pod (plan sys mit pod).exist_targets ig ready live)

-- A mount pod with no references, no delay and no deletion under way is deleted by Run, whatever its
-- status, and Run makes no other call.
pub run-unreferenced :
    (sys : System) (mit : MountInfoTable) (pod : Pod) (t : Trace)
    → get_all_ref_keys sys pod ≡ []
    → lookup delete_delay_time_key pod.annotations ≡ none
    → pod.deleting ≡ false
    → run sys mit pod t ≡ delete_pod sys pod t
unfolding run settle clean_annotations should_delay ◌>>=◌ ◌>>◌
run-unreferenced sys mit pod t refs delay alive = grind (arith, plan_lem sys mit pod)
