-- ===== src/Controller/Driver/Overdue.antt =====
-- Run on a mount pod whose deletion was put off.
use dfs_csi.Prelude.{◌≡◌, String, false, some, [], ◌∷◌, arith}
use dfs_csi.Prelude.Dict.{lookup}
use dfs_csi.Prelude.Int.{ℤ, ltb_ℤ}
use dfs_csi.Config.{delete_delay_time_key, delete_delay_at_key}
use dfs_csi.Kube.{Pod}
use dfs_csi.System.{System, Trace, Event, ok}
use dfs_csi.System.Io.{done, delete_pod, now, ◌>>=◌, ◌>>◌}
use dfs_csi.Util.Delay.{should_delay}
use dfs_csi.Util.Patches.{get_all_ref_keys}
use dfs_csi.Controller.MountInfo.{MountInfoTable}
use dfs_csi.Controller.Driver.{run, settle, clean_annotations}
use dfs_csi.Controller.Driver.Plan.{plan_lem}

module _ (sys : System) where
  over :
      (pod : Pod) (delay at : String) (time : ℤ) (t : Trace)
      → lookup delete_delay_time_key pod.annotations ≡ some delay
      → lookup delete_delay_at_key pod.annotations ≡ some at
      → sys.parse_time at ≡ ok time
      → ltb_ℤ (sys.now t) time ≡ false
      → should_delay sys pod t ≡ done false (Event.read_clock (sys.now t) ∷ t)
  unfolding should_delay now ◌>>=◌
  over pod delay at time t delayed has_at parsed past = ground arith

  -- A mount pod with no references, whose deletion was put off to a time that has come, is deleted by
  -- Run if no deletion is under way, whatever its status: Run reads the clock and makes no other call.
  pub run-overdue :
      (mit : MountInfoTable) (pod : Pod) (delay at : String) (time : ℤ) (t : Trace)
      → get_all_ref_keys sys pod ≡ []
      → lookup delete_delay_time_key pod.annotations ≡ some delay
      → lookup delete_delay_at_key pod.annotations ≡ some at
      → sys.parse_time at ≡ ok time
      → ltb_ℤ (sys.now t) time ≡ false
      → pod.deleting ≡ false
      → run sys mit pod t ≡ delete_pod sys pod (Event.read_clock (sys.now t) ∷ t)
  unfolding run settle clean_annotations ◌>>=◌ ◌>>◌
  run-overdue mit pod delay at time t refs delayed has_at parsed past alive =
      grind (arith, plan_lem sys mit pod, over pod delay at time t delayed has_at parsed past)
