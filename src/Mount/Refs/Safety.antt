-- ===== src/Mount/Refs/Safety.antt =====
-- Which mount pods JUmount deletes.
use dfs_csi.Prelude.{
  ℕ, zero, suc, ◌≡◌, refl, inl, inr, String, true, false, some, [], ◌∷◌, eq_iff, arith, any,
  starts_with, Option-cases,
}
use dfs_csi.Prelude.Dict.{Dict, lookup}
use dfs_csi.Config.{Config, delete_delay_time_key}
use dfs_csi.Kube.{Pod, Patch}
use dfs_csi.System.{System, Trace, Event, Failure, Result, ok, err, is_not_found}
use dfs_csi.System.Io.{
  done, trace_of, pure, fail, get_pod, patch_pod, delete_pod, branch, on_result, on_option, ◌>>=◌,
}
use dfs_csi.System.Calls.{pod_got, pod_failed, pod_tried}
use dfs_csi.System.Keeps.{
  Keeps, Keeps-answer, Keeps-bind, Keeps-then, Keeps-branch, Keeps-pure, Ignores, changes_object,
  branch-at, bind-at, bind-fails-at, keeps_rules,
}
use dfs_csi.Util.Patches.{del_pod_annotation}
use dfs_csi.Util.Delay.{should_delay}
use dfs_csi.Mount.Builder.{generate_pod_name, has_ref}
use dfs_csi.Mount.Refs.{del_ref, del_ref_loop, delete_mount_pod, drop_ref, j_umount}

pub any-mosfs :
    (k v : String) (d : Dict String)
    → lookup k d ≡ some v
    → starts_with k "mosfs-" ≡ true
    → any (λ (j, w). starts_with j "mosfs-") d ≡ true
unfolding lookup
any-mosfs k v [] h s = absurd (cc)
any-mosfs k v ((j, w) ∷ d) h s = ground (arith, any-mosfs k v d, eq_iff j k)

-- A pod with the delay annotation counts as referenced: its key has the prefix of the references.
pub has_ref-delay :
    (pod : Pod) (delay : String)
    → lookup delete_delay_time_key pod.annotations ≡ some delay
    → has_ref pod ≡ true
unfolding has_ref
has_ref-delay pod delay h = any-mosfs delete_delay_time_key delay pod.annotations h refl

-- No pod without references is left for a delay: its annotation counts as a reference.
pub should_delay-unreferenced :
    (sys : System) (po : Pod) (t : Trace)
    → has_ref po ≡ false
    → should_delay sys po t ≡ done false t
unfolding should_delay pure on_option
should_delay-unreferenced sys po t free =
    elim (Option-cases (lookup delete_delay_time_key po.annotations)) [
      | inl none_set ↦ rw none_set refl
      | inr (delay, set) ↦ absurd (ground (arith, free, has_ref-delay po delay set))
    ]

-- The last call was a look at the pod of a name, and this was the answer.
abbrev pub IsJustRead : String → String → Pod → Trace → Type 0
IsJustRead name ns pod [] = ⊥
IsJustRead name ns pod (Event.got_pod n m r ∷ t) = (n ≡ name) × (m ≡ ns) × (r ≡ ok pod)
IsJustRead name ns pod (_ ∷ t) = ⊥

-- Each deletion is the call right behind a look at the pod of the name, of the pod that was answered,
-- which has no annotation with the prefix of references.
abbrev pub DeletesUnreferenced : String → String → Trace → Type 0
DeletesUnreferenced name ns [] = Unit {0}
DeletesUnreferenced name ns (Event.deleted_pod pod r ∷ t) =
    IsJustRead name ns pod t × (has_ref pod ≡ false) × DeletesUnreferenced name ns t
DeletesUnreferenced name ns (_ ∷ t) = DeletesUnreferenced name ns t

module _ (sys : System) (name ns : String) where
  ignored :
      (ev : Event) (t : Trace)
      → changes_object ev ≡ false
      → DeletesUnreferenced name ns t
      → DeletesUnreferenced name ns (ev ∷ t)
  ignored (Event.deleted_pod _ _) t e h = cc
  ignored _ t e h = h

  unreferenced-Ignores : Ignores (DeletesUnreferenced name ns)
  unreferenced-Ignores = record { at = ignored }

  patch-Keeps : (pod : Pod) (p : Patch) → Keeps (DeletesUnreferenced name ns) (patch_pod sys pod p)
  unfolding patch_pod
  patch-Keeps pod p = record {
    at = λ t h. Keeps-answer (DeletesUnreferenced name ns) _ (sys.patch_pod t pod p) t h;
  }

  del_ref-Keeps :
      (pod : Pod) (key : String) → Keeps (DeletesUnreferenced name ns) (del_ref sys pod key)
  unfolding del_ref del_pod_annotation
  del_ref-Keeps pod key = search (keeps_rules, unreferenced-Ignores, patch-Keeps)

  del_ref_loop-Keeps :
      (fuel : ℕ) (pod : Pod) (key : String)
      → Keeps (DeletesUnreferenced name ns) (del_ref_loop sys fuel pod key)
  unfolding del_ref_loop
  del_ref_loop-Keeps zero pod key = search (keeps_rules)
  del_ref_loop-Keeps (suc fuel) pod key =
      Keeps-bind _ _ (search (keeps_rules, del_ref-Keeps))
        λ r. search (keeps_rules, del_ref_loop-Keeps fuel pod key)

  delete-at :
      (po : Pod) (t : Trace)
      → IsJustRead name ns po t
      → has_ref po ≡ false
      → DeletesUnreferenced name ns t
      → DeletesUnreferenced name ns (trace_of (delete_pod sys po t))
  unfolding delete_pod
  delete-at po t read free h =
      Keeps-answer (DeletesUnreferenced name ns) _ (sys.delete_pod t po) t (read, free, h)

  delete_mount_pod-Keeps : Keeps (DeletesUnreferenced name ns) (delete_mount_pod sys name ns)
  unfolding delete_mount_pod pure
  delete_mount_pod-Keeps = record { at = λ t h. by_answer t (sys.get_pod t name ns) refl h }
    where
      behind :
          (po : Pod) (t : Trace)
          → DeletesUnreferenced name ns t
          → DeletesUnreferenced name ns (
              trace_of (
                branch
                  (has_ref po)
                  (pure tt)
                  (do delay ← should_delay sys po; branch delay (pure tt) (delete_pod sys po))
                  (Event.got_pod name ns (ok po) ∷ t)))
      behind po t h =
          branch-at (DeletesUnreferenced name ns) (has_ref po) _ _ _ (λ _. h)
            λ free.
              bind-at (DeletesUnreferenced name ns) (should_delay sys po) _ _ _ false
                (should_delay-unreferenced sys po _ free)
                (branch-at (DeletesUnreferenced name ns) false _ _ _ (λ bad. absurd (cc))
                  λ _. delete-at po _ (refl, refl, refl) free h)

      by_answer :
          (t : Trace) (r : Result Pod)
          → sys.get_pod t name ns ≡ r
          → DeletesUnreferenced name ns t
          → DeletesUnreferenced name ns (trace_of (delete_mount_pod sys name ns t))
      by_answer t (ok po) got h =
          bind-at (DeletesUnreferenced name ns) (get_pod sys name ns) _ t _ po
            (pod_got sys t name ns po got) (behind po t h)
      by_answer t (err e) got h =
          bind-fails-at (DeletesUnreferenced name ns) (get_pod sys name ns) _ t _ e
            (pod_failed sys t name ns e got) h

  drop_ref-Keeps :
      (fuel : ℕ) (pod : Pod) (target : String)
      → pod.name ≡ name
      → pod.namespace ≡ ns
      → Keeps (DeletesUnreferenced name ns) (drop_ref sys fuel pod target)
  unfolding drop_ref
  drop_ref-Keeps fuel pod target same_name same_namespace =
      Keeps-then _ _ (del_ref_loop-Keeps fuel pod _) (
        Keeps-bind _ _ (search (keeps_rules, unreferenced-Ignores)) λ po.
          Keeps-branch _ _ _ (λ _. Keeps-pure tt)
            λ _. rw (same_name, same_namespace) delete_mount_pod-Keeps)

module _ (name ns : String) where
  absent-Keeps :
      (e : Failure)
      → Keeps
          (DeletesUnreferenced name ns)
          (branch (is_not_found e) (pure tt) (fail {A = Unit {0}} e))
  absent-Keeps e = search (keeps_rules)

-- Let the API server answer with the pod that is asked for. If, before, each deletion was right behind a
-- look at the mount pod of the volume, was one of the pod that was answered, and this had no annotation
-- that begins with `mosfs-`, so it is behind JUmount, whatever else the API answers and whatever others
-- do meanwhile.
pub j_umount-Deletes :
    (sys : System) (cfg : Config) (fuel : ℕ) (volume_id target : String) (t : Trace)
    → ((s : Trace) (name ns : String) (po : Pod)
        → sys.get_pod s name ns ≡ ok po
        → (po.name ≡ name) × (po.namespace ≡ ns))
    → DeletesUnreferenced (generate_pod_name cfg volume_id) cfg.namespace t
    → DeletesUnreferenced
        (generate_pod_name cfg volume_id)
        cfg.namespace
        (trace_of (j_umount sys cfg fuel volume_id target t))
unfolding j_umount on_result
j_umount-Deletes sys cfg fuel volume_id target t named h =
    by_answer (sys.get_pod t (generate_pod_name cfg volume_id) cfg.namespace) refl
  where
    by_answer :
        (r : Result Pod)
        → sys.get_pod t (generate_pod_name cfg volume_id) cfg.namespace ≡ r
        → DeletesUnreferenced
            (generate_pod_name cfg volume_id)
            cfg.namespace
            (trace_of (j_umount sys cfg fuel volume_id target t))
    by_answer (ok pod) got =
        bind-at (DeletesUnreferenced (generate_pod_name cfg volume_id) cfg.namespace) _ _ t _
          (ok pod) (pod_tried sys t _ _ (ok pod) got)
          ((drop_ref-Keeps sys _ _ fuel pod target (named t _ _ pod got).0
              (named t _ _ pod got).1).at
            _ h)
    by_answer (err e) got =
        bind-at (DeletesUnreferenced (generate_pod_name cfg volume_id) cfg.namespace) _ _ t _
          (err e) (pod_tried sys t _ _ (err e) got)
          ((absent-Keeps (generate_pod_name cfg volume_id) cfg.namespace e).at _ h)
