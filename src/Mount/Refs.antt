-- ===== src/Mount/Refs.antt =====
-- pkg/juicefs/mount/pod_mount.go: the references of targets to a mount pod, which are annotations of
-- the pod. The loops that retry on a conflict have no bound in the source, and take fuel.
pub mod Safety
pub mod Loops
pub mod Annotations
pub mod Ends
pub mod Released
use dfs_csi.Prelude.{ℕ, zero, suc, String, Bool, true, false, none, some, [], ◌∷◌, if◌then◌else◌}
use dfs_csi.Prelude.Dict.{lookup, insert, erase}
use dfs_csi.Config.{Config, delete_delay_at_key}
use dfs_csi.Kube.{Pod}
use dfs_csi.System.{System, Failure, ok, err, is_not_found, is_conflict}
use dfs_csi.System.Io.{
  Io, pure, fail, hang, attempt, get_pod, delete_pod, sleep, ◌>>=◌, ◌>>◌, on_result, on_option,
  branch,
}
use dfs_csi.Util.Patches.{get_reference_key, del_pod_annotation, replace_pod_annotation}
use dfs_csi.Util.Delay.{should_delay}
use dfs_csi.Mount.Builder.{generate_pod_name, has_ref}

module _ (sys : System) where
  -- The round of JUmount's loop, under JLock.
  unfoldable pub del_ref : Pod → String → Io (Unit {0})
  unfolding lookup
  del_ref pod key = do
    po ← get_pod sys pod.name pod.namespace
    on_option (lookup key po.annotations) (pure tt) (λ _. del_pod_annotation sys po (key ∷ []))

  unfoldable pub del_ref_loop : ℕ → Pod → String → Io (Unit {0})
  del_ref_loop zero pod key = hang
  del_ref_loop (suc fuel) pod key = do
    r ← attempt (del_ref pod key)
    on_result r (λ _. pure tt) (λ e. branch (is_conflict e) (del_ref_loop fuel pod key) (fail e))

  -- deleteMountPod of JUmount, under JLock
  unfoldable pub delete_mount_pod : String → String → Io (Unit {0})
  unfolding has_ref
  delete_mount_pod pod_name namespace = do
    po ← get_pod sys pod_name namespace
    branch (has_ref po) (pure tt)
        (do delay ← should_delay sys po; branch delay (pure tt) (delete_pod sys po))

  -- JUmount behind the first GetPod
  unfoldable pub drop_ref : ℕ → Pod → String → Io (Unit {0})
  unfolding get_reference_key has_ref
  drop_ref fuel pod target = do
    del_ref_loop fuel pod (get_reference_key sys target)
    new_pod ← get_pod sys pod.name pod.namespace
    branch (has_ref new_pod) (pure tt) (delete_mount_pod pod.name pod.namespace)

  -- PodMount.JUmount
  unfoldable pub j_umount : Config → ℕ → String → String → Io (Unit {0})
  j_umount cfg fuel volume_id target = do
    r ← attempt (get_pod sys (generate_pod_name cfg volume_id) cfg.namespace)
    on_result r (λ pod. drop_ref fuel pod target) (λ e. branch (is_not_found e) (pure tt) (fail e))

  -- The round of AddRefOfMount's loop, under JLock. An error other than a conflict is dropped.
  unfoldable pub add_ref : Config → String → String → String → Io (Unit {0})
  unfolding lookup insert erase
  add_ref cfg key target pod_name = do
    exist ← get_pod sys pod_name cfg.namespace
    on_option (lookup key exist.annotations)
        (do
          r ← attempt (
              replace_pod_annotation sys exist
                (erase delete_delay_at_key (insert key target exist.annotations)))
          on_result r (λ _. pure tt) (λ e. branch (is_conflict e) (fail e) (pure tt)))
        (λ _. pure tt)

  unfoldable pub add_ref_loop : Config → ℕ → String → String → String → Io (Unit {0})
  add_ref_loop cfg zero key target pod_name = hang
  add_ref_loop cfg (suc fuel) key target pod_name = do
    r ← attempt (add_ref cfg key target pod_name)
    on_result r (λ _. pure tt)
        (λ e. branch (is_conflict e) (do sleep; add_ref_loop cfg fuel key target pod_name) (fail e))

  -- PodMount.AddRefOfMount
  unfoldable pub add_ref_of_mount : Config → ℕ → String → String → Io (Unit {0})
  unfolding get_reference_key
  add_ref_of_mount cfg fuel target pod_name =
      add_ref_loop cfg fuel (get_reference_key sys target) target pod_name
