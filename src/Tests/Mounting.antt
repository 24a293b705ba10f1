-- ===== src/Tests/Mounting.antt =====
-- Mount pods at concrete inputs.
use dfs_csi.Prelude.{
  ◌≡◌, refl, String, true, false, none, some, [], ◌∷◌, ◌==◌, arith, if◌then◌else◌,
}
use dfs_csi.Prelude.Dict.{lookup}
use dfs_csi.Prelude.Int.{pos}
use dfs_csi.Config.{delete_delay_time_key, delete_delay_at_key}
use dfs_csi.Kube.{Pod, Patch}
use dfs_csi.System.{System, Event, Failure, ok, err}
use dfs_csi.System.Io.{done, trace_of}
use dfs_csi.System.Traces.{Creates}
use dfs_csi.Util.Patches.{get_reference_key}
use dfs_csi.Util.Delay.{should_delay}
use dfs_csi.Util.Delay.Window.{should_delay_window, delete_at}
use dfs_csi.Mount.Refs.{j_umount, add_ref_of_mount}
use dfs_csi.Mount.Refs.Loops.{Settles, IsHung}
use dfs_csi.Mount.Refs.Annotations.{with_ref, add_ref_of_mount-patch}
use dfs_csi.Mount.Refs.Ends.{j_umount-ends}
use dfs_csi.Config.Setting.{no_setting}
use dfs_csi.Mount.{j_mount}
use dfs_csi.Mount.Wait.Creation.{IsMountPodOf, j_mount-Creates}
use dfs_csi.Tests.{
  bare, calm, ref_a, fuel, delayed, broken, config, target_of, mount_pod, with_delay,
}

with_delay-lookup : lookup delete_delay_time_key with_delay.annotations ≡ some "30s"
unfolding lookup
with_delay-lookup = refl

calm-Settles : Settles calm 0
calm-Settles = record { patch_pod = λ t pod p h. refl; get_pod = λ t name ns h. refl }

no_ref : (sys : System) → lookup (get_reference_key sys (target_of "a")) bare.annotations ≡ none
unfolding lookup
no_ref sys = refl

add_ref_of_mount-patch_example :
    (add_ref_of_mount broken config 1 (target_of "a") "mosfs-node-vol" []
      ≡ done tt (
          Event.patched_pod bare
            (Patch.replace_annotations (with_ref (ref_a broken) (target_of "a") []))
            (err (Failure.message "patch failed"))
          ∷ Event.got_pod "mosfs-node-vol" "kube-system" (ok bare)
          ∷ []))
    × ((k : String)
        → lookup k (with_ref (ref_a broken) (target_of "a") []) ≡ (
            if k == delete_delay_at_key
            then none
            else if k == ref_a broken
            then some (target_of "a")
            else lookup k []))
add_ref_of_mount-patch_example =
    add_ref_of_mount-patch broken config 0 (target_of "a") "mosfs-node-vol" bare [] refl
      (no_ref broken) (λ p. refl)

abbrev scheduled : Pod
scheduled = mount_pod ((delete_delay_time_key, "30s") ∷ (delete_delay_at_key, "later") ∷ [])

with_delay-at : lookup delete_delay_at_key with_delay.annotations ≡ none
unfolding lookup
with_delay-at = refl

scheduled-delay : lookup delete_delay_time_key scheduled.annotations ≡ some "30s"
unfolding lookup
scheduled-delay = refl

scheduled-at : lookup delete_delay_at_key scheduled.annotations ≡ some "later"
unfolding lookup
scheduled-at = refl

should_delay_window_example :
    (should_delay delayed with_delay []
      ≡ done true (
          Event.patched_pod with_delay (delete_at "later") (ok tt)
          ∷ Event.read_clock (pos 100)
          ∷ []))
    × (should_delay delayed scheduled [] ≡ done true (Event.read_clock (pos 100) ∷ []))
should_delay_window_example =
    should_delay_window delayed (λ x. pos 130) (λ x. refl) with_delay scheduled "30s" (pos 30) [] []
      refl with_delay-lookup with_delay-at refl scheduled-delay scheduled-at

j_umount-ends_example : ¬ (IsHung (j_umount calm config 1 "vol" (target_of "a") []))
j_umount-ends_example =
    j_umount-ends calm 0 calm-Settles config 1 "vol" (target_of "a") [] (omega arith) (omega arith)

other_key : (delete_delay_time_key == ref_a calm) ≡ false
unfolding get_reference_key
other_key = refl

j_mount-Creates_example :
    Creates
      (IsMountPodOf calm config "vol" (target_of "a"))
      (trace_of (j_mount calm config fuel no_setting "vol" "/mosfs/vol" (target_of "a") [] []))
j_mount-Creates_example =
    j_mount-Creates calm config fuel no_setting "vol" "/mosfs/vol" (target_of "a") [] [] other_key
      tt
