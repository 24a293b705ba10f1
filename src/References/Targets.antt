-- ===== src/References/Targets.antt =====
-- Mounting for other targets, and unmounting them, keeps the reference of a target.
use dfs_csi.Prelude.{
  ℕ, zero, suc, ◌≡◌, refl, eq_iff, String, Bool, true, false, Option, some, [], ◌∷◌, ◌==◌, arith,
  starts_with,
}
use dfs_csi.Prelude.Dict.{lookup, insert, erase}
use dfs_csi.Config.{Config, delete_delay_at_key}
use dfs_csi.Kube.{Pod, Patch}
use dfs_csi.System.{System}
use dfs_csi.System.Io.{patch_pod}
use dfs_csi.System.Keeps.{
  Keeps, Keeps-bind, Keeps-then, Keeps-branch, Keeps-pure, Keeps-attempt, Keeps-on_option,
  keeps_rules,
}
use dfs_csi.Util.Patches.{
  get_reference_key, del_pod_annotation, replace_pod_annotation, add_pod_annotation,
}
use dfs_csi.Util.Delay.{should_delay, get_time_after_delay}
use dfs_csi.Mount.Builder.{has_ref}
use dfs_csi.Mount.Refs.{
  del_ref, del_ref_loop, delete_mount_pod, drop_ref, j_umount, add_ref, add_ref_loop,
  add_ref_of_mount,
}
use dfs_csi.Mount.Refs.Safety.{any-mosfs}
use dfs_csi.Mount.Refs.Annotations.{with_ref, with_ref-lookup}
use dfs_csi.References.{Place, IsApi, IsHeld, IsHeld-Ignores, is_at, patched_value}
use dfs_csi.References.Rules.{IsRead, Keeps-patch, Keeps-delete, Keeps-read}

-- The annotation has the prefix of the references, and is not the time of deletion.
pub record IsReference (place : Place) : Type 0 where
  pub prefixed : starts_with place.key "mosfs-" ≡ true
  pub not_time : (place.key == delete_delay_at_key) ≡ false

module _ (sys : System) (place : Place) (old : Option String) (target : String)
    (api : IsApi sys place old) (ref : IsReference place) where
  remove-Keeps :
      (pod : Pod) (key : String)
      → (key == place.key) ≡ false
      → Keeps (IsHeld place old target) (del_pod_annotation sys pod (key ∷ []))
  unfolding del_pod_annotation patched_value
  remove-Keeps pod key other = Keeps-patch sys place old target pod _ λ _. ground arith

  del_ref-Keeps :
      (pod : Pod) (key : String)
      → (key == place.key) ≡ false
      → Keeps (IsHeld place old target) (del_ref sys pod key)
  unfolding del_ref
  del_ref-Keeps pod key other = search (keeps_rules, IsHeld-Ignores, remove-Keeps)

  del_ref_loop-Keeps :
      (fuel : ℕ) (pod : Pod) (key : String)
      → (key == place.key) ≡ false
      → Keeps (IsHeld place old target) (del_ref_loop sys fuel pod key)
  unfolding del_ref_loop
  del_ref_loop-Keeps zero pod key other = search (keeps_rules)
  del_ref_loop-Keeps (suc fuel) pod key other =
      Keeps-bind _ _ (search (keeps_rules, del_ref-Keeps))
        λ r. search (keeps_rules, del_ref_loop-Keeps fuel pod key)

  -- A pod that is seen without references is not the one.
  unreferenced :
      (po : Pod) → IsRead sys place old target po → has_ref po ≡ false → is_at place po ≡ false
  unfolding has_ref
  unreferenced po seen none_left = by_place (is_at place po) seen
    where
      by_place :
          (here : Bool)
          → (here ≡ true → lookup place.key po.annotations ≡ some target)
          → here ≡ false
      by_place false found = refl
      by_place true found = absurd (
          ground
            (arith, none_left, any-mosfs place.key target po.annotations (found refl) ref.prefixed))

  elsewhere :
      (po : Pod)
      → is_at place po ≡ false
      → (p : Patch) → Keeps (IsHeld place old target) (patch_pod sys po p)
  elsewhere po other p = Keeps-patch sys place old target po p λ here. absurd (cc)

  should_delay-Keeps :
      (po : Pod) → is_at place po ≡ false → Keeps (IsHeld place old target) (should_delay sys po)
  unfolding should_delay get_time_after_delay add_pod_annotation
  should_delay-Keeps po other = search (keeps_rules, IsHeld-Ignores, elsewhere po other) depth 8

  delete_mount_pod-Keeps :
      (name ns : String) → Keeps (IsHeld place old target) (delete_mount_pod sys name ns)
  unfolding delete_mount_pod
  delete_mount_pod-Keeps name ns = Keeps-read sys place old target name ns _ api λ po seen.
      Keeps-branch _ _ _ (λ _. Keeps-pure tt)
        λ none_left.
          Keeps-bind _ _ (should_delay-Keeps po (unreferenced po seen none_left)) λ delay.
            search
              (keeps_rules, Keeps-delete sys place old target po (unreferenced po seen none_left))

  drop_ref-Keeps :
      (fuel : ℕ) (pod : Pod) (other : String)
      → (get_reference_key sys other == place.key) ≡ false
      → Keeps (IsHeld place old target) (drop_ref sys fuel pod other)
  unfolding drop_ref
  drop_ref-Keeps fuel pod other apart =
      Keeps-then _ _ (del_ref_loop-Keeps fuel pod _ apart)
        (search (keeps_rules, IsHeld-Ignores, delete_mount_pod-Keeps))

  pub j_umount-Keeps :
      (cfg : Config) (fuel : ℕ) (volume_id other : String)
      → (get_reference_key sys other == place.key) ≡ false
      → Keeps (IsHeld place old target) (j_umount sys cfg fuel volume_id other)
  unfolding j_umount
  j_umount-Keeps cfg fuel volume_id other apart =
      search (keeps_rules, IsHeld-Ignores, drop_ref-Keeps)

  -- The annotations that AddRefOfMount sends have the reference if those that it read have.
  sent :
      (po : Pod) (key other : String)
      → (key == place.key) ≡ false
      → IsRead sys place old target po
      → is_at place po ≡ true
      → patched_value place.key
          (Patch.replace_annotations (with_ref key other po.annotations))
          (some target)
        ≡ some target
  unfolding patched_value
  sent po key other apart seen here = ground (
    arith,
    with_ref-lookup key other place.key po.annotations,
    seen here,
    apart,
    ref.not_time,
    eq_iff key place.key,
    eq_iff place.key key,
  )

  replace-Keeps :
      (po : Pod) (key other : String)
      → (key == place.key) ≡ false
      → IsRead sys place old target po
      → Keeps (IsHeld place old target) (
          replace_pod_annotation sys po
            (erase delete_delay_at_key (insert key other po.annotations)))
  unfolding replace_pod_annotation
  replace-Keeps po key other apart seen =
      Keeps-patch sys place old target po _ (sent po key other apart seen)

  add_ref-Keeps :
      (cfg : Config) (key other pod_name : String)
      → (key == place.key) ≡ false
      → Keeps (IsHeld place old target) (add_ref sys cfg key other pod_name)
  unfolding add_ref
  add_ref-Keeps cfg key other pod_name apart =
      Keeps-read sys place old target pod_name cfg.namespace _ api λ po seen.
        Keeps-on_option _ _ _
          (Keeps-bind _ _ (Keeps-attempt _ (replace-Keeps po key other apart seen))
            λ r. search (keeps_rules))
          (λ _. Keeps-pure tt)

  add_ref_loop-Keeps :
      (cfg : Config) (fuel : ℕ) (key other pod_name : String)
      → (key == place.key) ≡ false
      → Keeps (IsHeld place old target) (add_ref_loop sys cfg fuel key other pod_name)
  unfolding add_ref_loop
  add_ref_loop-Keeps cfg zero key other pod_name apart = search (keeps_rules)
  add_ref_loop-Keeps cfg (suc fuel) key other pod_name apart =
      Keeps-bind _ _ (search (keeps_rules, add_ref-Keeps))
        λ r. search (keeps_rules, IsHeld-Ignores, add_ref_loop-Keeps cfg fuel key other pod_name)

  pub add_ref_of_mount-Keeps :
      (cfg : Config) (fuel : ℕ) (other pod_name : String)
      → (get_reference_key sys other == place.key) ≡ false
      → Keeps (IsHeld place old target) (add_ref_of_mount sys cfg fuel other pod_name)
  unfolding add_ref_of_mount
  add_ref_of_mount-Keeps cfg fuel other pod_name apart =
      add_ref_loop-Keeps cfg fuel _ other pod_name apart
