-- ===== src/References/Listed.antt =====
-- What Run plans for a pod that has a reference whose target exists.
use dfs_csi.Prelude.{
  ◌<◌, ◌≡◌, refl, String, Bool, true, false, not, ◌||◌, some, List, [], ◌∷◌, ◌++◌, ◌==◌, eq_iff,
  eq_refl, keep, map, length, any, all, arith,
}
use dfs_csi.Prelude.Dict.{Dict, lookup}
use dfs_csi.Config.{delete_delay_at_key}
use dfs_csi.Kube.{Pod}
use dfs_csi.System.{System}
use dfs_csi.Util.Patches.{get_reference_key, get_all_ref_keys}
use dfs_csi.Controller.MountInfo.{MountInfoTable}
use dfs_csi.Controller.Driver.{plan, target_exists}
use dfs_csi.Controller.Driver.Plan.{live, stale, plan_lem}

-- Every annotation of the key refers to the target: in a map there is one at most.
abbrev pub refers_only : String → String → Dict String → Bool
refers_only key target annotations = all (λ (k, v). not (k == key) || v == target) annotations

module _ (sys : System) (mit : MountInfoTable) (target : String)
    (exists : target_exists sys mit target ≡ true) where
  abbrev refs_of : Dict String → Dict String
  refs_of annotations = keep (λ (k, v). k == get_reference_key sys v) annotations

  live-lookup :
      (annotations : Dict String)
      → lookup (get_reference_key sys target) annotations ≡ some target
      → 0 < length (live sys mit (refs_of annotations))
  unfolding lookup
  live-lookup [] h = absurd (cc)
  live-lookup ((k, v) ∷ annotations) h = ground (
    arith,
    live-lookup annotations,
    eq_iff k (get_reference_key sys target),
    eq_refl (get_reference_key sys target),
  )

  stale-once :
      (annotations : Dict String)
      → refers_only (get_reference_key sys target) target annotations ≡ true
      → any
          (λ k. k == get_reference_key sys target)
          (map (λ (k, v). k) (stale sys mit (refs_of annotations)))
        ≡ false
  stale-once [] h = refl
  stale-once ((k, v) ∷ annotations) h = ground (arith, stale-once annotations, eq_iff v target)

  any-append : (p : String → Bool) (xs ys : List String) → any p (xs ++ ys) ≡ (any p xs || any p ys)
  any-append p [] ys = refl
  any-append p (x ∷ xs) ys = ground (arith, any-append p xs ys)

  pub plan-live :
      (pod : Pod)
      → lookup (get_reference_key sys target) pod.annotations ≡ some target
      → 0 < (plan sys mit pod).exist_targets
  unfolding get_all_ref_keys
  plan-live pod h = grind (arith, plan_lem sys mit pod, live-lookup pod.annotations h)

  pub plan-spares :
      (pod : Pod)
      → refers_only (get_reference_key sys target) target pod.annotations ≡ true
      → (get_reference_key sys target == delete_delay_at_key) ≡ false
      → any (λ k. k == get_reference_key sys target) (plan sys mit pod).del_annotations ≡ false
  unfolding get_all_ref_keys
  plan-spares pod once apart = rw (plan_lem sys mit pod).1 (
      rw (any-append (λ k. k == get_reference_key sys target)) (
        ground (
          arith,
          stale-once pod.annotations once,
          eq_iff delete_delay_at_key (get_reference_key sys target),
          eq_iff (get_reference_key sys target) delete_delay_at_key,
        )))
