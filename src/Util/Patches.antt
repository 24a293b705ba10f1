-- ===== src/Util/Patches.antt =====
-- pkg/util: the reference keys of targets, and the patches of a pod's metadata.
pub mod Keys
use dfs_csi.Prelude.{ℕ, zero, suc, String, ◌<>◌, List, [], ◌∷◌, ◌++◌, keep, ◌==◌, if◌then◌else◌}
use dfs_csi.Prelude.Dict.{Dict}
use dfs_csi.Strings.{chars, text}
use dfs_csi.Kube.{Pod, Patch}
use dfs_csi.System.{System}
use dfs_csi.System.Io.{Io, patch_pod}

abbrev pub take {ℓ} : {A : Type ℓ} → ℕ → List A → List A
take zero xs = []
take (suc n) [] = []
take (suc n) (x ∷ xs) = x ∷ take n xs

-- GetReferenceKey: the first 63 characters of `mosfs-` and the hexadecimal SHA-256 sum.
unfoldable pub get_reference_key : System → String → String
get_reference_key sys target = text (take 63 (chars ("mosfs-" <> sys.sha256_hex target)))

-- GetAllRefKeys
unfoldable pub get_all_ref_keys : System → Pod → Dict String
get_all_ref_keys sys pod = keep (λ (k, v). k == get_reference_key sys v) pod.annotations

-- The loop of RemoveFinalizer on the slice `f`: `front` holds f[:i], and the list f[i:].
-- Where f[i] is the finalizer, `append(f[:i], f[i+1:]...)` and `i--` leave f[:i] and go on at f[i+1:].
unfoldable pub without_finalizer : String → List String → List String → List String
without_finalizer finalizer front [] = front
without_finalizer finalizer front (x ∷ rest) =
    without_finalizer finalizer (if x == finalizer then front else front ++ x ∷ []) rest

module _ (sys : System) where
  -- RemoveFinalizer
  unfoldable pub remove_finalizer : Pod → String → Io (Unit {0})
  unfolding without_finalizer
  remove_finalizer pod finalizer =
      patch_pod sys pod (Patch.replace_finalizers (without_finalizer finalizer [] pod.finalizers))

  -- AddPodLabel
  unfoldable pub add_pod_label : Pod → Dict String → Io (Unit {0})
  add_pod_label pod labels = patch_pod sys pod (Patch.add_labels labels)

  -- AddPodAnnotation
  unfoldable pub add_pod_annotation : Pod → Dict String → Io (Unit {0})
  add_pod_annotation pod annotations = patch_pod sys pod (Patch.add_annotations annotations)

  -- DelPodAnnotation
  unfoldable pub del_pod_annotation : Pod → List String → Io (Unit {0})
  del_pod_annotation pod keys = patch_pod sys pod (Patch.remove_annotations keys)

  -- ReplacePodAnnotation
  unfoldable pub replace_pod_annotation : Pod → Dict String → Io (Unit {0})
  replace_pod_annotation pod annotations = patch_pod sys pod (Patch.replace_annotations annotations)
