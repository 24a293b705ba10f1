-- ===== src/Mount/Refs/Annotations.antt =====
-- What AddRefOfMount does to the annotations of a mount pod.
use dfs_csi.Prelude.{
  ℕ, suc, ◌≡◌, refl, String, false, some, none, ◌∷◌, ◌==◌, eq_iff, arith, if◌then◌else◌,
}
use dfs_csi.Prelude.Dict.{Dict, lookup, insert, erase, lookup-insert, lookup-erase}
use dfs_csi.Config.{Config, delete_delay_at_key}
use dfs_csi.Kube.{Pod, Patch}
use dfs_csi.System.{System, Trace, Event, Result, ok, err}
use dfs_csi.System.Io.{done, get_pod, patch_pod, ◌>>=◌, ◌>>◌}
use dfs_csi.Util.Patches.{get_reference_key, replace_pod_annotation}
use dfs_csi.Mount.Refs.Loops.{conflicts}
use dfs_csi.Mount.Refs.{add_ref, add_ref_loop, add_ref_of_mount}

-- The annotations with the reference, and without the time of deletion.
abbrev pub with_ref : String → String → Dict String → Dict String
with_ref key target annotations = erase delete_delay_at_key (insert key target annotations)

pub with_ref-lookup :
    (key target k : String) (annotations : Dict String)
    → lookup k (with_ref key target annotations) ≡ (
        if k == delete_delay_at_key
        then none
        else if k == key
        then some target
        else lookup k annotations)
with_ref-lookup key target k annotations = ground (
  arith,
  lookup-erase delete_delay_at_key k (insert key target annotations),
  lookup-insert key k target annotations,
  eq_iff k delete_delay_at_key,
  eq_iff delete_delay_at_key k,
  eq_iff k key,
  eq_iff key k,
)

module _ (sys : System) (cfg : Config) (key target pod_name : String) (exist : Pod)
    (t : Trace) where
  patch_event : Result (Unit {0}) → Event
  patch_event r =
      Event.patched_pod exist (Patch.replace_annotations (with_ref key target exist.annotations)) r

  got : Event
  got = Event.got_pod pod_name cfg.namespace (ok exist)

  add_ref-patch :
      (r : Result (Unit {0}))
      → sys.get_pod t pod_name cfg.namespace ≡ ok exist
      → lookup key exist.annotations ≡ none
      → sys.patch_pod
          (got ∷ t)
          exist
          (Patch.replace_annotations (with_ref key target exist.annotations))
        ≡ r
      → conflicts r ≡ false
      → add_ref sys cfg key target pod_name t ≡ done tt (patch_event r ∷ got ∷ t)
  unfolding add_ref replace_pod_annotation get_pod patch_pod ◌>>=◌ patch_event got
  add_ref-patch (ok u) h absent sent settled = ground arith
  add_ref-patch (err e) h absent sent settled = ground arith

-- If AddRefOfMount reads a mount pod without the reference, and a patch meets no conflict, it
-- sends one patch and returns without an error, also where the patch fails. The annotations that
-- it sends have the reference and no time of deletion, and are otherwise those of the pod.
pub add_ref_of_mount-patch :
    (sys : System) (cfg : Config) (fuel : ℕ) (target pod_name : String) (exist : Pod) (t : Trace)
    → sys.get_pod t pod_name cfg.namespace ≡ ok exist
    → lookup (get_reference_key sys target) exist.annotations ≡ none
    → ((p : Patch)
        → conflicts (sys.patch_pod (Event.got_pod pod_name cfg.namespace (ok exist) ∷ t) exist p)
          ≡ false)
    → (add_ref_of_mount sys cfg (suc fuel) target pod_name t
        ≡ done tt (
            Event.patched_pod exist
              (Patch.replace_annotations
                (with_ref (get_reference_key sys target) target exist.annotations))
              (sys.patch_pod (Event.got_pod pod_name cfg.namespace (ok exist) ∷ t) exist (
                Patch.replace_annotations
                  (with_ref (get_reference_key sys target) target exist.annotations)))
            ∷ Event.got_pod pod_name cfg.namespace (ok exist)
            ∷ t))
      × ((k : String)
          → lookup k (with_ref (get_reference_key sys target) target exist.annotations) ≡ (
              if k == delete_delay_at_key
              then none
              else if k == get_reference_key sys target
              then some target
              else lookup k exist.annotations))
unfolding add_ref_of_mount add_ref_loop ◌>>=◌ ◌>>◌ patch_event got
add_ref_of_mount-patch sys cfg fuel target pod_name exist t h absent settled = (
  ground (
    arith,
    add_ref-patch sys cfg (get_reference_key sys target) target pod_name exist t
        (sys.patch_pod (got sys cfg (get_reference_key sys target) target pod_name exist t ∷ t)
          exist
          (Patch.replace_annotations
            (with_ref (get_reference_key sys target) target exist.annotations)))
        h absent refl
        (settled (
          Patch.replace_annotations
            (with_ref (get_reference_key sys target) target exist.annotations))),
  ),
  λ k. with_ref-lookup (get_reference_key sys target) target k exist.annotations,
)
