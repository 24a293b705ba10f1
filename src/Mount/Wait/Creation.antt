-- ===== src/Mount/Wait/Creation.antt =====
-- Which pods JMount of a mount pod creates.
use dfs_csi.Prelude.{
  ℕ, zero, suc, ◌≡◌, refl, String, false, some, List, [], ◌∷◌, ◌==◌, eq_refl, arith,
}
use dfs_csi.Prelude.Dict.{lookup, insert, lookup-insert}
use dfs_csi.Config.{Config, finalizer, delete_delay_time_key}
use dfs_csi.Config.Setting.{JfsSetting}
use dfs_csi.Kube.{Pod}
use dfs_csi.System.{System, Trace, is_conflict, is_not_found}
use dfs_csi.System.Io.{trace_of, sleep}
use dfs_csi.System.Keeps.{
  Keeps, Keeps-bind, Keeps-then, Keeps-on_result, Keeps-branch, Keeps-pure, Keeps-fail, keeps_rules,
}
use dfs_csi.System.Traces.{Creates, Creates-Ignores, Creates-create_pod, trace_rules}
use dfs_csi.K8sClient
use dfs_csi.Util.Patches.{replace_pod_annotation, get_reference_key}
use dfs_csi.Mount.Builder.{Resources, generate_pod_name, new_mount_pod}
use dfs_csi.Mount.{mount_command, j_mount}
use dfs_csi.Mount.Refs.{add_ref, add_ref_loop, add_ref_of_mount}
use dfs_csi.Mount.Wait.Objects.{ready-Keeps, resources-Keeps}
use dfs_csi.Mount.Wait.{Fuel, first_pod, use_pod, wait_loop, wait_until_mount}

-- A pod with the name of the volume's mount pod, the finalizer, and the reference to the target.
pub record IsMountPodOf (sys : System) (cfg : Config) (volume_id target : String) (pod : Pod)
    : Type 0 where
  pub name : pod.name ≡ generate_pod_name cfg volume_id
  pub finalizers : pod.finalizers ≡ finalizer ∷ []
  pub reference : lookup (get_reference_key sys target) pod.annotations ≡ some target

module _ (sys : System) (cfg : Config) (p : Pod → Type 0) where
  slept : Keeps (Creates p) sleep
  slept = search (keeps_rules, trace_rules)

  client-Creates : (pod : Pod) → p pod → Keeps (Creates p) (K8sClient.create_pod sys pod)
  unfolding K8sClient.create_pod
  client-Creates pod fits = search (keeps_rules, trace_rules, Creates-create_pod)

  add_ref-Creates :
      (key target pod_name : String) → Keeps (Creates p) (add_ref sys cfg key target pod_name)
  unfolding add_ref replace_pod_annotation
  add_ref-Creates key target pod_name = search (keeps_rules, trace_rules) depth 8

  add_ref_loop-Creates :
      (fuel : ℕ) (key target pod_name : String)
      → Keeps (Creates p) (add_ref_loop sys cfg fuel key target pod_name)
  unfolding add_ref_loop
  add_ref_loop-Creates zero key target pod_name = search (keeps_rules, trace_rules)
  add_ref_loop-Creates (suc fuel) key target pod_name =
      Keeps-bind _ _ (search (keeps_rules, trace_rules, add_ref-Creates)) λ r.
        Keeps-on_result r _ _ (λ _. Keeps-pure tt)
          λ e.
            Keeps-branch (is_conflict e) _ _
              (λ _. Keeps-then _ _ slept (add_ref_loop-Creates fuel key target pod_name))
              (λ _. Keeps-fail e)

  use_pod-Creates :
      (fuel : Fuel) (pod_name path target : String)
      → Keeps (Creates p) (use_pod sys cfg fuel pod_name path target)
  unfolding use_pod add_ref_of_mount
  use_pod-Creates fuel pod_name path target =
      search
        (
          keeps_rules,
          trace_rules,
          add_ref_loop-Creates,
          ready-Keeps sys cfg (Creates p) (Creates-Ignores p),
        )
        depth 8

  wait_loop-Creates :
      (fuel : Fuel) (pod : Pod) (pod_name path target : String) (rounds : ℕ)
      → p pod
      → Keeps (Creates p) (wait_loop sys cfg fuel pod pod_name path target rounds)
  unfolding wait_loop
  wait_loop-Creates fuel pod pod_name path target zero fits = search (keeps_rules, trace_rules)
  wait_loop-Creates fuel pod pod_name path target (suc rounds) fits =
      Keeps-bind _ _ (search (keeps_rules, trace_rules)) λ r.
        Keeps-on_result r _ _
          (λ po.
            Keeps-branch po.deleting _ _
              (λ _.
                Keeps-then _ _ slept (wait_loop-Creates fuel pod pod_name path target rounds fits))
              (λ _. use_pod-Creates fuel pod_name path target))
          (λ e.
            Keeps-branch (is_not_found e) _ _
              (λ _.
                Keeps-then _ _ (client-Creates pod fits)
                  (wait_loop-Creates fuel pod pod_name path target rounds fits))
              (λ _. Keeps-fail e))

  wait_until_mount-Creates :
      (fuel : Fuel) (setting : JfsSetting) (volume_id target path cmd : String)
      → ((r : Resources)
          → p (first_pod sys cfg setting r (generate_pod_name cfg volume_id) cmd path target))
      → Keeps (Creates p) (wait_until_mount sys cfg fuel setting volume_id target path cmd)
  unfolding wait_until_mount
  wait_until_mount-Creates fuel setting volume_id target path cmd fits =
      Keeps-bind _ _ (resources-Keeps sys cfg (Creates p) (Creates-Ignores p) _ _ _ _)
        λ r. wait_loop-Creates fuel _ _ path target _ (fits r)

-- The pod that waitUntilMount creates is one for the volume and the target.
first_pod-IsMountPodOf :
    (sys : System) (cfg : Config) (setting : JfsSetting) (r : Resources)
    → (volume_id target path cmd : String)
    → (delete_delay_time_key == get_reference_key sys target) ≡ false
    → IsMountPodOf sys cfg volume_id target
        (first_pod sys cfg setting r (generate_pod_name cfg volume_id) cmd path target)
unfolding first_pod new_mount_pod
first_pod-IsMountPodOf sys cfg setting r volume_id target path cmd other = record {
  name = refl;
  finalizers = refl;
  reference = ground (
    arith,
    lookup-insert (get_reference_key sys target) (get_reference_key sys target) target [],
    eq_refl (get_reference_key sys target),
    lookup-insert delete_delay_time_key (get_reference_key sys target) setting.deleted_delay
        (insert (get_reference_key sys target) target []),
  );
}

-- If the key of the reference is not that of the delay, and the calls before created only pods
-- with the name of the volume's mount pod, the finalizer and the reference to the target, so do
-- the calls with those of JMount of a mount pod.
pub j_mount-Creates :
    (sys : System) (cfg : Config) (fuel : Fuel) (setting : JfsSetting)
    → (volume_id path target : String) (options : List String) (t : Trace)
    → (delete_delay_time_key == get_reference_key sys target) ≡ false
    → Creates (IsMountPodOf sys cfg volume_id target) t
    → Creates
        (IsMountPodOf sys cfg volume_id target)
        (trace_of (j_mount sys cfg fuel setting volume_id path target options t))
unfolding j_mount
j_mount-Creates sys cfg fuel setting volume_id path target options t other h =
    (wait_until_mount-Creates sys cfg (IsMountPodOf sys cfg volume_id target) fuel setting volume_id
        target path (mount_command setting path options)
        λ r.
          first_pod-IsMountPodOf sys cfg setting r volume_id target path
            (mount_command setting path options) other).at
      t h
