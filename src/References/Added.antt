-- ===== src/References/Added.antt =====
-- What AddRefOfMount leaves when it returns.
use dfs_csi.Prelude.{
  ℕ, zero, suc, ◌≡◌, ◌⊎◌, inl, inr, ap, sym, ◌∙◌, String, true, false, Option, some, ◌∷◌, ◌==◌,
  eq_refl, arith,
}
use dfs_csi.Prelude.Dict.{Dict, lookup}
use dfs_csi.Config.{Config, delete_delay_at_key}
use dfs_csi.Kube.{Pod, Patch}
use dfs_csi.System.{System, Event, Trace, Failure, Result, ok, err, is_conflict}
use dfs_csi.System.Io.{done, attempt, get_pod, patch_pod, fail, hang}
use dfs_csi.System.Steps.{
  bind-done, then-done, branch-done, on_result-done, on_option-done, attempt-done,
}
use dfs_csi.System.Calls.{same_end, returned, pod_read}
use dfs_csi.Util.Patches.{get_reference_key, replace_pod_annotation}
use dfs_csi.Mount.Refs.{add_ref, add_ref_loop, add_ref_of_mount}
use dfs_csi.Mount.Refs.Annotations.{with_ref, with_ref-lookup}
use dfs_csi.References.{Place, place_of, IsApi, is_at, value_after, patched_value}

-- The annotation refers to the target; or the last call read the pod with a value of the annotation; or
-- the last call was a patch that failed, and its error was dropped.
abbrev pub IsReferred : Place → Option String → String → Trace → Type 0
IsReferred place old target u =
    (value_after place old u ≡ some target)
    ⊎ (((po : Pod) × (earlier : Trace) × (v : String) × (u
            ≡ Event.got_pod place.name place.namespace (ok po) ∷ earlier)
          × (value_after place old u ≡ some v))
        ⊎ ((po : Pod) × (p : Patch) × (e : Failure) × (earlier : Trace) × (u
              ≡ Event.patched_pod po p (err e) ∷ earlier)
            × (is_conflict e ≡ false)))

module _ (sys : System) (cfg : Config) (key target pod_name : String) (old : Option String) where
  abbrev place : Place
  place = record { name = pod_name; namespace = cfg.namespace; key = key }

  patch_sent :
      (po : Pod) (d : Dict String) (r : Result (Unit {0})) (t u : Trace)
      → attempt (replace_pod_annotation sys po d) t ≡ done r u
      → u ≡ Event.patched_pod po (Patch.replace_annotations d) r ∷ t
  unfolding attempt replace_pod_annotation patch_pod
  patch_sent po d r t u eq = grind arith

  answered :
      (po : Pod) (t u : Trace)
      → get_pod sys pod_name cfg.namespace t ≡ done po u
      → sys.get_pod t pod_name cfg.namespace ≡ ok po
  unfolding get_pod
  answered po t u eq = grind arith

  value_read :
      (po : Pod) (v : String) (t u : Trace)
      → IsApi sys place old
      → get_pod sys pod_name cfg.namespace t ≡ done po u
      → lookup key po.annotations ≡ some v
      → value_after place old u ≡ some v
  unfolding value_after
  value_read po v t u api eq found =
      ap (λ w. value_after place old w) (pod_read sys _ _ po t u eq)
      ∙ sym (api.read t po (answered po t u eq))
      ∙ found

  value_sent :
      (po : Pod) (t : Trace)
      → is_at place po ≡ true
      → (key == delete_delay_at_key) ≡ false
      → value_after place old (
          Event.patched_pod po
            (Patch.replace_annotations (with_ref key target po.annotations))
            (ok tt)
          ∷ t)
        ≡ some target
  unfolding value_after patched_value
  value_sent po t here apart =
      ground (arith, with_ref-lookup key target key po.annotations, eq_refl key)

  is_here :
      (po : Pod) (t u : Trace)
      → IsApi sys place old
      → get_pod sys pod_name cfg.namespace t ≡ done po u
      → is_at place po ≡ true
  is_here po t u api eq =
      grind
        (arith, api.named t _ _ po (answered po t u eq), eq_refl pod_name, eq_refl cfg.namespace)

  module _ (api : IsApi sys place old) (apart : (key == delete_delay_at_key) ≡ false) where
    add_ref-IsReferred :
        (t u : Trace)
        → add_ref sys cfg key target pod_name t ≡ done tt u
        → IsReferred place old target u
    unfolding add_ref fail
    add_ref-IsReferred t u eq = bind-done _ _ t tt u eq λ exist v read looked.
        on_option-done _ _ _ v tt u looked
          (λ _ sends. bind-done _ _ v tt u sends λ r w sent ends.
            on_result-done r _ _ w tt u ends
              (λ a is_ok last. inl (
                ap (λ x. value_after place old x)
                  (same_end w u last
                    ∙ patch_sent exist _ r v w sent
                    ∙ ap
                        (λ q.
                          Event.patched_pod exist
                            (Patch.replace_annotations (with_ref key target exist.annotations)) q
                          ∷ v)
                        is_ok)
                ∙ value_sent exist v (is_here exist t v api read) apart))
              (λ e is_err last.
                branch-done _ _ _ w tt u last (λ _ bad. absurd (cc))
                  (λ dropped over. inr (
                    inr (
                      exist,
                      _,
                      e,
                      v,
                      same_end w u over
                          ∙ patch_sent exist _ r v w sent
                          ∙ ap
                              (λ q.
                                Event.patched_pod exist
                                  (Patch.replace_annotations
                                    (with_ref key target exist.annotations))
                                  q
                                ∷ v)
                              is_err,
                      dropped,
                    )))))
          (λ value found last. inr (
            inl (
              exist,
              t,
              value,
              same_end v u last ∙ pod_read sys _ _ exist t v read,
              ap (λ x. value_after place old x) (same_end v u last)
                  ∙ value_read exist value t v api read found,
            )))

    loop-IsReferred :
        (fuel : ℕ) (t u : Trace)
        → add_ref_loop sys cfg fuel key target pod_name t ≡ done tt u
        → IsReferred place old target u
    unfolding add_ref_loop hang fail
    loop-IsReferred zero t u eq = absurd (cc)
    loop-IsReferred (suc fuel) t u eq = bind-done _ _ t tt u eq λ r v tried looked.
        on_result-done r _ _ v tt u looked
          (λ a is_ok last.
            add_ref-IsReferred t u
              (attempt-done _ t u tt (tried ∙ ap (λ x. done x v) is_ok ∙ returned a v u last)))
          (λ e _ failed.
            branch-done _ _ _ v tt u failed
              (λ _ again.
                then-done _ _ v tt u again λ w _ slept rest. loop-IsReferred fuel w u rest)
              (λ _ bad. absurd (cc)))

-- If the API server keeps the annotation as the calls leave it, then where AddRefOfMount returns without
-- an error the annotation refers to the target; or the last call read the pod and the annotation has a
-- value; or the last call was a patch that failed other than by a conflict.
pub add_ref_of_mount-IsReferred :
    (sys : System) (cfg : Config) (fuel : ℕ) (target pod_name : String) (old : Option String)
    (t u : Trace)
    → IsApi sys (place_of sys target pod_name cfg.namespace) old
    → (get_reference_key sys target == delete_delay_at_key) ≡ false
    → add_ref_of_mount sys cfg fuel target pod_name t ≡ done tt u
    → IsReferred (place_of sys target pod_name cfg.namespace) old target u
unfolding add_ref_of_mount
add_ref_of_mount-IsReferred sys cfg fuel target pod_name old t u api apart eq =
    loop-IsReferred sys cfg (get_reference_key sys target) target pod_name old api apart fuel t u eq
