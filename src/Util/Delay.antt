-- ===== src/Util/Delay.antt =====
-- pkg/util/util.go: the delayed deletion of a mount pod.
pub mod Window
use dfs_csi.Prelude.{String, Bool, true, false, none, some, [], ◌∷◌}
use dfs_csi.Prelude.Dict.{lookup}
use dfs_csi.Prelude.Int.{◌+ℤ◌, ltb_ℤ}
use dfs_csi.Config.{delete_delay_time_key, delete_delay_at_key}
use dfs_csi.Kube.{Pod}
use dfs_csi.System.{System, ok, err}
use dfs_csi.System.Io.{Io, pure, fail, now, attempt, ◌>>=◌, ◌>>◌, on_result, on_option}
use dfs_csi.Util.Patches.{add_pod_annotation}

module _ (sys : System) where
  -- GetTimeAfterDelay
  unfoldable pub get_time_after_delay : String → Io String
  unfolding ◌+ℤ◌
  get_time_after_delay delay =
      on_result (sys.parse_duration delay) (λ d. do n ← now sys; pure (sys.format_time (n +ℤ d)))
        (λ e. fail e)

  -- ShouldDelay
  unfoldable pub should_delay : Pod → Io Bool
  unfolding lookup
  should_delay pod = on_option (lookup delete_delay_time_key pod.annotations) (pure false) (λ delay.
      on_option (lookup delete_delay_at_key pod.annotations)
        (do
          after ← attempt (get_time_after_delay delay)
          on_result after
              (λ at. do add_pod_annotation sys pod ((delete_delay_at_key, at) ∷ []); pure true)
              (λ e. pure false))
        (λ at.
          on_result (sys.parse_time at) (λ delay_at. do n ← now sys; pure (ltb_ℤ n delay_at))
            (λ e. pure false)))
