-- ===== src/Controller/Driver/Plan.antt =====
-- What Run counts and takes off.
use dfs_csi.Prelude.{
  ◌+◌, ◌≡◌, String, Bool, not, ◌&&◌, [], ◌∷◌, ◌++◌, ◌==◌, eqb, keep, map, length, arith,
  if◌then◌else◌,
}
use mathlib.Core.List.{append_assoc, append-nil}
use dfs_csi.Prelude.Dict.{Dict, value_of}
use dfs_csi.Config.{delete_delay_at_key}
use dfs_csi.Kube.{Pod}
use dfs_csi.System.{System}
use dfs_csi.Util.Patches.{get_all_ref_keys, get_reference_key}
use dfs_csi.Controller.MountInfo.{MountInfoTable}
use dfs_csi.Controller.Driver.{Refs, count_ref, target_exists, count_refs, plan, no_refs, finish}

finish_lem :
    (r : Refs) (scheduled : Bool)
    → ((finish r scheduled).exist_targets ≡ r.exist_targets)
      × ((finish r scheduled).del_annotations
          ≡ r.del_annotations
            ++ (if not (eqb r.exist_targets 0) && scheduled then delete_delay_at_key ∷ [] else []))
finish_lem r scheduled = ground (arith, append-nil r.del_annotations)

module _ (sys : System) (mit : MountInfoTable) where
  -- Of some references those whose target exists, and those whose target does not.
  abbrev pub live : Dict String → Dict String
  live refs = keep (λ (k, target). target_exists sys mit target) refs

  abbrev pub stale : Dict String → Dict String
  stale refs = keep (λ (k, target). not (target_exists sys mit target)) refs

  abbrev refs_of : Dict String → Dict String
  refs_of annotations = keep (λ (k, v). k == get_reference_key sys v) annotations

  exist_targets-count_refs :
      (r : Refs) (annotations : Dict String)
      → (count_refs sys mit r annotations).exist_targets
        ≡ r.exist_targets + length (live (refs_of annotations))
  unfolding count_refs
  exist_targets-count_refs r [] = ground arith
  exist_targets-count_refs r ((k, v) ∷ annotations) = ground (
    arith,
    exist_targets-count_refs r annotations,
    exist_targets-count_refs (count_ref r k (target_exists sys mit v)) annotations,
  )

  del_annotations-count_refs :
      (r : Refs) (annotations : Dict String)
      → (count_refs sys mit r annotations).del_annotations
        ≡ r.del_annotations ++ map (λ (k, v). k) (stale (refs_of annotations))
  unfolding count_refs
  del_annotations-count_refs r [] = ground (arith, append-nil r.del_annotations)
  del_annotations-count_refs r ((k, v) ∷ annotations) = ground (
    arith,
    del_annotations-count_refs r annotations,
    del_annotations-count_refs (count_ref r k (target_exists sys mit v)) annotations,
    append_assoc r.del_annotations (k ∷ []) (map (λ (k, v). k) (stale (refs_of annotations))),
    append-nil r.del_annotations,
  )

  -- Run counts the references whose target exists, and takes off the keys of the others, and the time of
  -- the pod's deletion if some target exists and that time is not empty.
  pub plan_lem :
      (pod : Pod)
      → ((plan sys mit pod).exist_targets ≡ length (live (get_all_ref_keys sys pod)))
        × ((plan sys mit pod).del_annotations
            ≡ map (λ (k, v). k) (stale (get_all_ref_keys sys pod))
              ++ (if not (eqb (length (live (get_all_ref_keys sys pod))) 0)
                    && not (value_of pod.annotations delete_delay_at_key == "")
                  then delete_delay_at_key ∷ []
                  else []))
  unfolding plan get_all_ref_keys
  plan_lem pod = grind (
    arith,
    finish_lem (count_refs sys mit no_refs pod.annotations)
        (not (value_of pod.annotations delete_delay_at_key == "")),
    exist_targets-count_refs no_refs pod.annotations,
    del_annotations-count_refs no_refs pod.annotations,
  )
