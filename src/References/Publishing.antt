-- ===== src/References/Publishing.antt =====
-- NodePublishVolume for another target keeps the reference of a target.
use dfs_csi.Prelude.{ℕ, zero, suc, ◌≡◌, refl, String, true, false, Option, List, ◌==◌}
use dfs_csi.Prelude.Dict.{Dict}
use dfs_csi.Config.{Config}
use dfs_csi.Config.Setting.{JfsSetting}
use dfs_csi.Kube.{Pod}
use dfs_csi.System.{System}
use dfs_csi.System.Io.{sleep}
use dfs_csi.System.Keeps.{
  Keeps, Keeps-bind, Keeps-then, Keeps-branch, Keeps-fail, Keeps-attempt, Keeps-on_result,
  Keeps-pure, keeps_rules,
}
use dfs_csi.K8sClient
use dfs_csi.Util.{umount_path}
use dfs_csi.Util.Patches.{get_reference_key}
use dfs_csi.Mount
use dfs_csi.Mount.Wait.{Fuel, first_pod, use_pod, wait_loop, wait_until_mount}
use dfs_csi.Mount.Wait.Objects.{ready-Keeps, resources-Keeps}
use dfs_csi.Mount.Builder.{new_mount_pod}
use dfs_csi.Juicefs.ConsoleApi.{Codec}
use dfs_csi.Juicefs.Mounting.{mount_fs, jfs_mount}
use dfs_csi.Juicefs.Objects.{
  get_unique_id-Keeps, get_console-Keeps, auth_source-Keeps, format_source-Keeps, process-Keeps,
  create_vol-Keeps,
}
use dfs_csi.Driver.Node.{bind, check_bind_and_mount, create_target}
use dfs_csi.Driver.Publish.{NodePublishRequest, VolumeCapability, publish, node_publish_volume}
use dfs_csi.References.{Place, IsApi, IsHeld, IsHeld-Ignores, is_at}
use dfs_csi.References.Rules.{Keeps-looked, Keeps-create}
use dfs_csi.References.Targets.{IsReference, add_ref_of_mount-Keeps}

module _ (sys : System) (place : Place) (old : Option String) (target : String)
    (api : IsApi sys place old) (ref : IsReference place) (cfg : Config) where
  slept : Keeps (IsHeld place old target) sleep
  slept = search (keeps_rules, IsHeld-Ignores)

  umount_path-Keeps : (path : String) → Keeps (IsHeld place old target) (umount_path sys path)
  unfolding umount_path
  umount_path-Keeps path = search (keeps_rules, IsHeld-Ignores) depth 8

  create_target-Keeps :
      (fuel : ℕ) (path : String) → Keeps (IsHeld place old target) (create_target sys fuel path)
  unfolding create_target
  create_target-Keeps zero path = search (keeps_rules)
  create_target-Keeps (suc fuel) path =
      search (keeps_rules, IsHeld-Ignores, umount_path-Keeps, create_target-Keeps fuel) depth 10

  bind-Keeps : (source other : String) → Keeps (IsHeld place old target) (bind sys source other)
  unfolding bind
  bind-Keeps source other = search (keeps_rules, IsHeld-Ignores) depth 10

  check_bind-Keeps :
      (path source other : String)
      → Keeps (IsHeld place old target) (check_bind_and_mount sys path source other)
  unfolding check_bind_and_mount
  check_bind-Keeps path source other =
      search (keeps_rules, IsHeld-Ignores, umount_path-Keeps, bind-Keeps) depth 10

  create_pod-Keeps :
      (pod : Pod)
      → is_at place pod ≡ false
      → Keeps (IsHeld place old target) (K8sClient.create_pod sys pod)
  unfolding K8sClient.create_pod
  create_pod-Keeps pod elsewhere = search (keeps_rules, Keeps-create) depth 8

  module _ (fuel : Fuel) (other : String)
      (differs : (get_reference_key sys other == place.key) ≡ false) where
    use_pod-Keeps :
        (pod_name path : String)
        → Keeps (IsHeld place old target) (use_pod sys cfg fuel pod_name path other)
    unfolding use_pod
    use_pod-Keeps pod_name path =
        Keeps-bind _ _
          (Keeps-attempt _ (
            add_ref_of_mount-Keeps sys place old target api ref cfg fuel.retries other pod_name
              differs))
          λ r.
            Keeps-on_result r _ _
              (λ _.
                ready-Keeps sys cfg (IsHeld place old target) (IsHeld-Ignores place old target)
                  fuel.checks pod_name path)
              (λ _. Keeps-fail _)

    -- The pod that is created has the name of the pod that was not found.
    wait_loop-Keeps :
        (pod : Pod) (pod_name path : String) (rounds : ℕ)
        → pod.name ≡ pod_name
        → pod.namespace ≡ cfg.namespace
        → Keeps (IsHeld place old target) (wait_loop sys cfg fuel pod pod_name path other rounds)
    unfolding wait_loop
    wait_loop-Keeps pod pod_name path zero named at_home = search (keeps_rules)
    wait_loop-Keeps pod pod_name path (suc rounds) named at_home =
        Keeps-looked sys place old target pod_name cfg.namespace _ _ api
          (λ po.
            Keeps-branch po.deleting _ _
              (λ _. Keeps-then _ _ slept (wait_loop-Keeps pod pod_name path rounds named at_home))
              (λ _. use_pod-Keeps pod_name path))
          (λ e elsewhere.
            Keeps-branch _ _ _
              (λ absent.
                Keeps-then _ _ (create_pod-Keeps pod (elsewhere absent pod named at_home))
                  (wait_loop-Keeps pod pod_name path rounds named at_home))
              (λ _. Keeps-fail e))

    j_mount-Keeps :
        (setting : JfsSetting) (volume_id path : String) (options : List String)
        → Keeps
            (IsHeld place old target)
            (Mount.j_mount sys cfg fuel setting volume_id path other options)
    unfolding Mount.j_mount wait_until_mount first_pod new_mount_pod
    j_mount-Keeps setting volume_id path options =
        Keeps-bind _ _
          (resources-Keeps sys cfg (IsHeld place old target) (IsHeld-Ignores place old target) _ _ _
            _)
          λ r. wait_loop-Keeps _ _ path _ refl refl

    mount_fs-Keeps :
        (volume_id : String) (options : List String) (setting : JfsSetting)
        → Keeps (IsHeld place old target) (mount_fs sys cfg fuel volume_id other options setting)
    unfolding mount_fs
    mount_fs-Keeps volume_id options setting =
        Keeps-bind _ _
          (Keeps-attempt _ (
            Keeps-branch setting.use_pod _ _ (λ _. j_mount-Keeps setting volume_id _ options)
              (λ _.
                process-Keeps sys (IsHeld place old target) (IsHeld-Ignores place old target)
                  setting setting.storage _ options)))
          λ r. Keeps-on_result r _ _ (λ _. Keeps-pure _) (λ _. Keeps-fail _)

    jfs_mount-Keeps :
        (volume_id : String) (secrets ctx : Dict String) (options : List String)
        → Keeps
            (IsHeld place old target)
            (jfs_mount sys cfg fuel volume_id other secrets ctx options true)
    unfolding jfs_mount
    jfs_mount-Keeps volume_id secrets ctx options =
        search
          (
            keeps_rules, IsHeld-Ignores, get_unique_id-Keeps, get_console-Keeps, auth_source-Keeps,
            format_source-Keeps, mount_fs-Keeps,
          )
          depth 12

  publish-Keeps :
      (codec : Codec) (fuel : Fuel) (req : NodePublishRequest) (capability : VolumeCapability)
      → (get_reference_key sys req.target_path == place.key) ≡ false
      → Keeps (IsHeld place old target) (publish sys codec cfg fuel req capability)
  unfolding publish
  publish-Keeps codec fuel req capability differs =
      search
        (
          keeps_rules,
          IsHeld-Ignores,
          create_target-Keeps,
          jfs_mount-Keeps fuel req.target_path differs,
          create_vol-Keeps,
          check_bind-Keeps,
        )
        depth 12

  pub node_publish_volume-Keeps :
      (codec : Codec) (fuel : Fuel) (req : NodePublishRequest)
      → (get_reference_key sys req.target_path == place.key) ≡ false
      → Keeps (IsHeld place old target) (node_publish_volume sys codec cfg fuel req)
  unfolding node_publish_volume
  node_publish_volume-Keeps codec fuel req differs =
      search (keeps_rules, publish-Keeps codec fuel req) depth 8
