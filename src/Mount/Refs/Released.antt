-- ===== src/Mount/Refs/Released.antt =====
-- What holds when JUmount returns.
use mathlib.Core.Path.{subst}
use dfs_csi.Prelude.{
  ◌≡◌, refl, ◌++◌, ◌⊎◌, inl, inr, ap, ◌∙◌, ℕ, zero, suc, String, Bool, true, false, none, [], ◌∷◌,
  arith,
}
use dfs_csi.Prelude.Dict.{lookup}
use dfs_csi.Config.{Config}
use dfs_csi.Kube.{Pod, Patch}
use dfs_csi.System.{System, Event, Trace, Failure, ok, err, is_not_found}
use dfs_csi.System.Io.{done, trace_of, fail, hang, patch_pod}
use dfs_csi.System.Keeps.{Keeps, Keeps-answer, Keeps-bind, Ignores, keeps_rules}
use dfs_csi.System.Calls.{same_end, returned, pod_read, pod_looked, pod_deleted}
use dfs_csi.System.Steps.{
  bind-done, branch-done, on_result-done, on_option-done, attempt-done, then-done,
}
use dfs_csi.Util.Patches.{get_reference_key, del_pod_annotation}
use dfs_csi.Util.Delay.{should_delay}
use dfs_csi.Mount.Builder.{generate_pod_name, has_ref}
use dfs_csi.Mount.Refs.{del_ref, del_ref_loop, delete_mount_pod, drop_ref, j_umount}
use dfs_csi.Mount.Refs.Safety.{should_delay-unreferenced}

-- The last calls found the pod without the annotation, or took the annotation off.
abbrev pub IsWithout : Pod → String → Trace → Type 0
IsWithout pod key v =
    (po : Pod) × (earlier : Trace) × (((v ≡ Event.got_pod pod.name pod.namespace (ok po) ∷ earlier)
        × (lookup key po.annotations ≡ none))
      ⊎ (v
          ≡ Event.patched_pod po (Patch.remove_annotations (key ∷ [])) (ok tt)
            ∷ Event.got_pod pod.name pod.namespace (ok po)
            ∷ earlier))

-- The calls from `v` on found a reference that is left, at the first or at the second look, or
-- deleted the pod after two looks without one.
abbrev pub IsSettled : Pod → Trace → Trace → Type 0
IsSettled pod v u =
    (po : Pod) × (((u ≡ Event.got_pod pod.name pod.namespace (ok po) ∷ v) × (has_ref po ≡ true))
      ⊎ ((has_ref po ≡ false)
          × (last : Pod) × (((u
                  ≡ Event.got_pod pod.name pod.namespace (ok last)
                    ∷ Event.got_pod pod.name pod.namespace (ok po)
                    ∷ v)
                × (has_ref last ≡ true))
              ⊎ ((u
                    ≡ Event.deleted_pod last (ok tt)
                      ∷ Event.got_pod pod.name pod.namespace (ok last)
                      ∷ Event.got_pod pod.name pod.namespace (ok po)
                      ∷ v)
                  × (has_ref last ≡ false)))))

-- The calls of `v` are those of `s`, and some more.
abbrev pub IsBehind : Trace → Trace → Type 0
IsBehind s v = (calls : Trace) × (v ≡ calls ++ s)

-- The ways of JUmount to return: the first look found no mount pod; or it found one, behind this look the
-- reference was gone from this pod, and what was left of it was then settled.
abbrev pub IsReleased : String → String → String → Trace → Trace → Type 0
IsReleased name namespace key t u =
    ((e : Failure) × (u ≡ Event.got_pod name namespace (err e) ∷ t) × (is_not_found e ≡ true))
    ⊎ ((pod : Pod) × (v : Trace) × IsBehind (Event.got_pod name namespace (ok pod) ∷ t) v
        × IsWithout pod key v
        × IsSettled pod v u)

module _ (sys : System) (s : Trace) where
  IsBehind-more : (ev : Event) (t : Trace) → IsBehind s t → IsBehind s (ev ∷ t)
  IsBehind-more ev t (calls, same) = (ev ∷ calls, ap (λ x. ev ∷ x) same)

  IsBehind-Ignores : Ignores (IsBehind s)
  IsBehind-Ignores = record { at = λ ev t _ h. IsBehind-more ev t h }

  IsBehind-patch : (pod : Pod) (p : Patch) → Keeps (IsBehind s) (patch_pod sys pod p)
  unfolding patch_pod
  IsBehind-patch pod p = record {
    at = λ t h. Keeps-answer (IsBehind s) _ (sys.patch_pod t pod p) t (IsBehind-more _ t h);
  }

  del_ref-Keeps : (pod : Pod) (key : String) → Keeps (IsBehind s) (del_ref sys pod key)
  unfolding del_ref del_pod_annotation
  del_ref-Keeps pod key = search (keeps_rules, IsBehind-Ignores, IsBehind-patch)

  loop-Keeps :
      (fuel : ℕ) (pod : Pod) (key : String) → Keeps (IsBehind s) (del_ref_loop sys fuel pod key)
  unfolding del_ref_loop
  loop-Keeps zero pod key = search (keeps_rules)
  loop-Keeps (suc fuel) pod key =
      Keeps-bind _ _ (search (keeps_rules, del_ref-Keeps))
        λ r. search (keeps_rules, loop-Keeps fuel pod key)

  loop-IsBehind :
      (fuel : ℕ) (pod : Pod) (key : String) (v : Trace)
      → del_ref_loop sys fuel pod key s ≡ done tt v
      → IsBehind s v
  loop-IsBehind fuel pod key v eq =
      subst (λ o. IsBehind s (trace_of o)) eq ((loop-Keeps fuel pod key).at s ([], refl))

module _ (sys : System) where
  annotation_removed :
      (po : Pod) (key : String) (t u : Trace)
      → del_pod_annotation sys po (key ∷ []) t ≡ done tt u
      → u ≡ Event.patched_pod po (Patch.remove_annotations (key ∷ [])) (ok tt) ∷ t
  unfolding del_pod_annotation patch_pod
  annotation_removed po key t u eq = grind arith

  no_delay :
      (po : Pod) (delay : Bool) (t u : Trace)
      → has_ref po ≡ false
      → should_delay sys po t ≡ done delay u
      → (delay ≡ false) × (u ≡ t)
  no_delay po delay t u h eq = grind (arith, should_delay-unreferenced sys po t h)

  del_ref-IsWithout :
      (pod : Pod) (key : String) (t u : Trace)
      → del_ref sys pod key t ≡ done tt u
      → IsWithout pod key u
  unfolding del_ref
  del_ref-IsWithout pod key t u eq = bind-done _ _ t tt u eq λ po v read looked.
      on_option-done _ _ _ v tt u looked
        (λ is_none last. (po, t, inl (same_end v u last ∙ pod_read sys _ _ po t v read, is_none)))
        (λ _ _ removes. (
          po,
          t,
          inr (
              annotation_removed po key v u removes
              ∙ ap (λ w. Event.patched_pod po (Patch.remove_annotations (key ∷ [])) (ok tt) ∷ w)
                  (pod_read sys _ _ po t v read)),
        ))

  loop-IsWithout :
      (fuel : ℕ) (pod : Pod) (key : String) (t u : Trace)
      → del_ref_loop sys fuel pod key t ≡ done tt u
      → IsWithout pod key u
  unfolding del_ref_loop hang fail
  loop-IsWithout zero pod key t u eq = absurd (cc)
  loop-IsWithout (suc fuel) pod key t u eq = bind-done _ _ t tt u eq λ r v tried looked.
      on_result-done r _ _ v tt u looked
        (λ a is_ok last.
          del_ref-IsWithout pod key t u
            (attempt-done _ t u tt (tried ∙ ap (λ x. done x v) is_ok ∙ returned a v u last)))
        (λ e _ failed.
          branch-done _ _ _ v tt u failed (λ _ again. loop-IsWithout fuel pod key v u again)
            (λ _ bad. absurd (cc)))

  -- The second look, under the lock.
  delete-IsSettled :
      (pod po : Pod) (v t u : Trace)
      → has_ref po ≡ false
      → t ≡ Event.got_pod pod.name pod.namespace (ok po) ∷ v
      → delete_mount_pod sys pod.name pod.namespace t ≡ done tt u
      → IsSettled pod v u
  unfolding delete_mount_pod
  delete-IsSettled pod po v t u none_left first eq = bind-done _ _ t tt u eq λ last w read looked.
      branch-done _ _ _ w tt u looked
        (λ left ends. (
          po,
          inr (
            none_left,
            last,
            inl (
              same_end w u ends
                  ∙ pod_read sys _ _ last t w read
                  ∙ ap (λ x. Event.got_pod pod.name pod.namespace (ok last) ∷ x) first,
              left,
            ),
          ),
        ))
        (λ left tests. bind-done _ _ w tt u tests λ delay x waits acts.
          let (now, same) = no_delay last delay w x left waits in
          branch-done _ _ _ x tt u acts (λ late _. absurd (cc))
            (λ _ deletes. (
              po,
              inr (
                none_left,
                last,
                inr (
                  pod_deleted sys last x u deletes
                      ∙ ap (λ y. Event.deleted_pod last (ok tt) ∷ y)
                          (same
                            ∙ pod_read sys _ _ last t w read
                            ∙ ap (λ y. Event.got_pod pod.name pod.namespace (ok last) ∷ y) first),
                  left,
                ),
              ),
            )))

  drop-IsReleased :
      (fuel : ℕ) (pod : Pod) (target name ns : String) (s t u : Trace)
      → t ≡ Event.got_pod name ns (ok pod) ∷ s
      → drop_ref sys fuel pod target t ≡ done tt u
      → IsReleased name ns (get_reference_key sys target) s u
  unfolding drop_ref
  drop-IsReleased fuel pod target name ns s t u first eq =
      then-done _ _ t tt u eq λ v _ drops looks. bind-done _ _ v tt u looks λ po w read looked.
        inr (
          pod,
          v,
          subst (λ x. IsBehind x v) first (loop-IsBehind sys t fuel pod _ v drops),
          loop-IsWithout fuel pod _ t v drops,
          branch-done _ _ _ w tt u looked
              (λ left ends. (po, inl (same_end w u ends ∙ pod_read sys _ _ po v w read, left)))
              (λ left deletes.
                delete-IsSettled pod po v w u left (pod_read sys _ _ po v w read) deletes),
        )

  -- JUmount returns without an error only if its one call found no mount pod of the volume; or if its
  -- first call found it, behind this call it was seen without the reference to the target or the
  -- reference was taken off it, and then either a look at it found an annotation with the prefix of the
  -- references, or two looks found none and the last call deleted what the second one answered.
  pub j_umount-IsReleased :
      (cfg : Config) (fuel : ℕ) (volume_id target : String) (t u : Trace)
      → j_umount sys cfg fuel volume_id target t ≡ done tt u
      → IsReleased
          (generate_pod_name cfg volume_id)
          cfg.namespace
          (get_reference_key sys target)
          t
          u
  unfolding j_umount fail
  j_umount-IsReleased cfg fuel volume_id target t u eq = bind-done _ _ t tt u eq λ r v tried looked.
      on_result-done r _ _ v tt u looked
        (λ pod is_ok drops.
          drop-IsReleased fuel pod target _ _ t v u
            (pod_looked sys _ _ r t v tried
              ∙ ap (λ q. Event.got_pod (generate_pod_name cfg volume_id) cfg.namespace q ∷ t) is_ok)
            drops)
        (λ e is_err missing.
          branch-done _ _ _ v tt u missing
            (λ absent ends. inl (
              e,
              same_end v u ends
                  ∙ pod_looked sys _ _ r t v tried
                  ∙ ap (λ q. Event.got_pod (generate_pod_name cfg volume_id) cfg.namespace q ∷ t)
                      is_err,
              absent,
            ))
            (λ _ bad. absurd (cc)))
