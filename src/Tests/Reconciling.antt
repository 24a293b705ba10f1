-- ===== src/Tests/Reconciling.antt =====
-- The reconciler at concrete inputs.
use dfs_csi.Prelude.{
  ◌≡◌, refl, String, true, false, not, ◌&&◌, none, some, [], ◌∷◌, ◌++◌, ◌==◌, eqb, map, length,
  if◌then◌else◌,
}
use dfs_csi.Prelude.Dict.{lookup, value_of}
use dfs_csi.Config.{delete_delay_time_key, delete_delay_at_key}
use dfs_csi.Kube.{PersistentVolume, Pod}
use dfs_csi.System.Io.{trace_of, delete_pod}
use dfs_csi.System.Traces.{Creates, HasDeletions}
use dfs_csi.Util.Patches.{get_reference_key, get_all_ref_keys}
use dfs_csi.Controller.MountInfo.{get_pod_uid, set_pods_status, collect_records}
use dfs_csi.Controller.MountInfo.Counts.{record_of, mounts_at, collect_records-exact}
use dfs_csi.Controller.Handlers.{
  pod_error_handler, get_pod_status, ready_status, pod_deleted_handler,
}
use dfs_csi.Controller.Handlers.Recovery.{
  IsAgain, IsDeployedAgain, pod_deleted_handler-Creates, pod_error_handler-Creates,
}
use dfs_csi.Controller.Driver.{plan, run}
use dfs_csi.Controller.Driver.Plan.{live, stale, plan_lem}
use dfs_csi.Controller.Driver.Live.{run-unreferenced}
use dfs_csi.Controller.Driver.Listed.{is_used, run-listed}
use dfs_csi.Controller.PodController.{driver_name}
use dfs_csi.Tests.{bare, calm, table, two_refs}

plan_lem_example :
    ((plan calm table two_refs).exist_targets
      ≡ length (live calm table (get_all_ref_keys calm two_refs)))
    × ((plan calm table two_refs).del_annotations
        ≡ map (λ (k, v). k) (stale calm table (get_all_ref_keys calm two_refs))
          ++ (if not (eqb (length (live calm table (get_all_ref_keys calm two_refs))) 0)
                && not (value_of two_refs.annotations delete_delay_at_key == "")
              then delete_delay_at_key ∷ []
              else []))
plan_lem_example = plan_lem calm table two_refs

two_refs-ready : get_pod_status two_refs ≡ ready_status
unfolding get_pod_status
two_refs-ready = refl

bare-refs : get_all_ref_keys calm bare ≡ []
unfolding get_all_ref_keys
bare-refs = refl

bare-delay : lookup delete_delay_time_key bare.annotations ≡ none
unfolding lookup
bare-delay = refl

run-unreferenced_example : run calm table bare [] ≡ delete_pod calm bare []
run-unreferenced_example = run-unreferenced calm table bare [] bare-refs bare-delay refl

pod_deleted_handler-Creates_example :
    Creates (IsAgain two_refs) (trace_of (pod_deleted_handler calm two_refs []))
pod_deleted_handler-Creates_example = pod_deleted_handler-Creates calm two_refs [] tt

pod_error_handler-Creates_example :
    Creates (IsDeployedAgain two_refs) (trace_of (pod_error_handler calm two_refs []))
pod_error_handler-Creates_example = pod_error_handler-Creates calm two_refs [] tt

collect_records-exact_example :
    lookup "/t" (collect_records "/t" false [] table.mis)
    ≡ record_of "/t" (mounts_at "/t" table.mis)
collect_records-exact_example = collect_records-exact "/t" table.mis

abbrev app : Pod
app = record bare { uid = "a" }

two_refs-is_used : is_used calm two_refs (app ∷ []) ≡ true
unfolding get_all_ref_keys get_reference_key get_pod_uid
two_refs-is_used = refl

run-listed_example :
    HasDeletions 0 (trace_of (run calm (set_pods_status table (app ∷ [])) two_refs []))
run-listed_example =
    run-listed calm table (app ∷ []) two_refs 0 [] two_refs-ready two_refs-is_used refl

abbrev volume_in : String → PersistentVolume
volume_in ns = record {
  storage_class_name = "";
  driver = some driver_name;
  claim_namespace = some ns;
}
