-- ===== src/Mount/Refs/Ends.antt =====
-- JUmount ends.
use dfs_csi.Prelude.{ℕ, ◌+◌, ◌<◌, String, Bool, true, false, ◌∷◌, arith, length}
use dfs_csi.Config.{Config}
use dfs_csi.Kube.{Pod}
use dfs_csi.System.{System, Trace, Event, Result, ok, err, is_not_found}
use dfs_csi.System.Io.{
  Io, Outcome, done, fails, panics, hung, pure, fail, attempt, answer, and_then, branch, on_result,
  get_pod, patch_pod, delete_pod, now, ◌>>=◌, ◌>>◌,
}
use dfs_csi.Util.Patches.{add_pod_annotation, get_reference_key}
use dfs_csi.Util.Delay.{should_delay, get_time_after_delay}
use dfs_csi.Mount.Builder.{generate_pod_name, has_ref}
use dfs_csi.Mount.Refs.{del_ref_loop, delete_mount_pod, drop_ref, j_umount}
use dfs_csi.Mount.Refs.Loops.{Settles, IsHung, del_ref_loop-ends}

-- Code without a loop that takes fuel.
record HasNoLoop {A : Type 0} (m : Io A) : Type 0 where
  at : (t : Trace) → ¬ (IsHung (m t))

module _ {A B : Type 0} where
  and_then-ends :
      (o : Outcome A) (f : A → Io B)
      → ¬ (IsHung o)
      → ((a : A) → HasNoLoop (f a))
      → ¬ (IsHung (and_then o f))
  and_then-ends (done a u) f h next = (next a).at u
  and_then-ends (fails e u) f h next = λ x. x
  and_then-ends (panics s u) f h next = λ x. x
  and_then-ends (hung u) f h next = h

  bind-HasNoLoop :
      (m : Io A) (f : A → Io B) → HasNoLoop m → ((a : A) → HasNoLoop (f a)) → HasNoLoop (m >>= f)
  unfolding ◌>>=◌
  bind-HasNoLoop m f first next = record { at = λ t. and_then-ends (m t) f (first.at t) next }

  seq-ends :
      (m : Io A) (k : Io B) (t : Trace) → ¬ (IsHung (m t)) → HasNoLoop k → ¬ (IsHung ((m >> k) t))
  unfolding ◌>>=◌ ◌>>◌
  seq-ends m k t first next = and_then-ends (m t) (λ _. k) first (λ _. next)

module _ {A : Type 0} where
  pure-HasNoLoop : (a : A) → HasNoLoop (pure a)
  unfolding pure
  pure-HasNoLoop a = record { at = λ t x. x }

  branch-HasNoLoop : (b : Bool) (m n : Io A) → HasNoLoop m → HasNoLoop n → HasNoLoop (branch b m n)
  unfolding branch
  branch-HasNoLoop true m n hm hn = hm
  branch-HasNoLoop false m n hm hn = hn

module _ (sys : System) where
  should_delay-HasNoLoop : (pod : Pod) → HasNoLoop (should_delay sys pod)
  unfolding should_delay get_time_after_delay add_pod_annotation patch_pod now ◌>>=◌ ◌>>◌
  should_delay-HasNoLoop pod = record { at = λ t. ground arith }

  get_pod-HasNoLoop : (name ns : String) → HasNoLoop (get_pod sys name ns)
  unfolding get_pod
  get_pod-HasNoLoop name ns = record { at = λ t. ground arith }

  delete_pod-HasNoLoop : (pod : Pod) → HasNoLoop (delete_pod sys pod)
  unfolding delete_pod
  delete_pod-HasNoLoop pod = record { at = λ t. ground arith }

  delete_mount_pod-HasNoLoop : (name ns : String) → HasNoLoop (delete_mount_pod sys name ns)
  unfolding delete_mount_pod
  delete_mount_pod-HasNoLoop name ns =
      search
        (
          bind-HasNoLoop, branch-HasNoLoop, pure-HasNoLoop, should_delay-HasNoLoop,
          get_pod-HasNoLoop, delete_pod-HasNoLoop,
        )
        depth 8

  last-HasNoLoop :
      (pod : Pod)
      → HasNoLoop (
          get_pod sys pod.name pod.namespace >>= λ new_pod.
          branch (has_ref new_pod) (pure tt) (delete_mount_pod sys pod.name pod.namespace))
  last-HasNoLoop pod = search (
    bind-HasNoLoop, branch-HasNoLoop, pure-HasNoLoop, get_pod-HasNoLoop, delete_mount_pod-HasNoLoop,
  )

  module _ (limit : ℕ) (settles : Settles sys limit) where
    drop_ref-ends :
        (fuel : ℕ) (pod : Pod) (target : String) (t : Trace)
        → 0 < fuel
        → limit < fuel + length t
        → ¬ (IsHung (drop_ref sys fuel pod target t))
    unfolding drop_ref
    drop_ref-ends fuel pod target t pos enough =
        seq-ends (del_ref_loop sys fuel pod (get_reference_key sys target)) _ t
          (del_ref_loop-ends sys limit settles fuel pod (get_reference_key sys target) t pos enough)
          (last-HasNoLoop pod)

    after_get :
        (fuel : ℕ) (target : String) (t : Trace) (ev : Event) (r : Result Pod)
        → 0 < fuel
        → limit < fuel + length t
        → ¬ (
            IsHung (
              and_then (attempt (answer ev r) t) λ s.
                on_result s
                  (λ pod. drop_ref sys fuel pod target)
                  (λ e. branch (is_not_found e) (pure tt) (fail e))))
    unfolding ◌>>=◌
    after_get fuel target t ev (ok pod) pos enough =
        drop_ref-ends fuel pod target (ev ∷ t) pos (omega arith)
    after_get fuel target t ev (err e) pos enough = ground arith

    -- If no answer is a conflict once `limit` calls have been made, JUmount ends: with fuel for a
    -- round, and more fuel than calls are left up to the limit, it returns, fails or panics, and
    -- does not run out.
    pub j_umount-ends :
        (cfg : Config) (fuel : ℕ) (volume_id target : String) (t : Trace)
        → 0 < fuel
        → limit < fuel + length t
        → ¬ (IsHung (j_umount sys cfg fuel volume_id target t))
    unfolding j_umount ◌>>=◌ get_pod
    j_umount-ends cfg fuel volume_id target t pos enough =
        after_get fuel target t
          (Event.got_pod (generate_pod_name cfg volume_id) cfg.namespace
            (sys.get_pod t (generate_pod_name cfg volume_id) cfg.namespace))
          (sys.get_pod t (generate_pod_name cfg volume_id) cfg.namespace) pos enough
