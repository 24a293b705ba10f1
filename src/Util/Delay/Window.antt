-- ===== src/Util/Delay/Window.antt =====
-- The two visits of a mount pod whose deletion is delayed.
use dfs_csi.Prelude.{◌≡◌, String, true, some, none, [], ◌∷◌, arith}
use dfs_csi.Prelude.Dict.{lookup}
use dfs_csi.Prelude.Int.{ℤ, ◌+ℤ◌, ltb_ℤ}
use dfs_csi.Config.{delete_delay_time_key, delete_delay_at_key}
use dfs_csi.Kube.{Pod, Patch}
use dfs_csi.System.{System, Trace, Event, ok}
use dfs_csi.System.Io.{done, patch_pod, now, ◌>>=◌, ◌>>◌}
use dfs_csi.Util.Patches.{add_pod_annotation}
use dfs_csi.Util.Delay.{should_delay, get_time_after_delay}

-- The patch that sets the time of the deletion.
abbrev pub delete_at : String → Patch
delete_at at = Patch.add_annotations ((delete_delay_at_key, at) ∷ [])

module _ (sys : System) (local : ℤ → ℤ) where
  -- Let `local` say which instant the code reads back from the text that it wrote for an instant.
  -- If a pod has a delay annotation that parses and no time of deletion, and the patch succeeds,
  -- ShouldDelay writes the instant that lies the delay after its own time, and delays. On a pod
  -- with that delay and that text, it delays exactly while its time is before the instant that is
  -- read back.
  pub should_delay_window :
      ((x : ℤ) → sys.parse_time (sys.format_time x) ≡ ok (local x))
      → (pod later : Pod) (delay : String) (d : ℤ) (t u : Trace)
      → let n = sys.now t in
        let at = sys.format_time (n +ℤ d) in
        let seen = Event.read_clock n ∷ t in
        sys.parse_duration delay ≡ ok d
        → lookup delete_delay_time_key pod.annotations ≡ some delay
        → lookup delete_delay_at_key pod.annotations ≡ none
        → sys.patch_pod seen pod (delete_at at) ≡ ok tt
        → lookup delete_delay_time_key later.annotations ≡ some delay
        → lookup delete_delay_at_key later.annotations ≡ some at
        → (should_delay sys pod t ≡ done true (Event.patched_pod pod (delete_at at) (ok tt) ∷ seen))
          × (should_delay sys later u
              ≡ done (ltb_ℤ (sys.now u) (local (n +ℤ d))) (Event.read_clock (sys.now u) ∷ u))
  unfolding should_delay get_time_after_delay add_pod_annotation patch_pod now ◌>>=◌ ◌>>◌
  should_delay_window zone pod later delay d t u parsed has_delay no_at patched later_delay
        later_at =
      (ground arith, ground (arith, zone (sys.now t +ℤ d)))
