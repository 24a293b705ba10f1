-- ===== src/References/Sharing.antt =====
-- A target keeps its mount pod while the node service and the reconciler work for other targets.
use dfs_csi.Prelude.{
  ℕ, zero, suc, ◌≡◌, refl, String, Bool, true, false, Option, List, [], ◌∷◌, ◌==◌,
}
use dfs_csi.Config.{Config, delete_delay_at_key}
use dfs_csi.Kube.{Pod}
use dfs_csi.System.{System, Trace}
use dfs_csi.System.Io.{Io, trace_of}
use dfs_csi.System.Keeps.{Keeps, keeps_rules}
use dfs_csi.Util.Patches.{get_reference_key}
use dfs_csi.Util.Patches.Keys.{get_reference_key-starts_with}
use dfs_csi.Mount.Wait.{Fuel}
use dfs_csi.Juicefs.ConsoleApi.{Codec}
use dfs_csi.Juicefs.Objects.{get_unique_id-Keeps}
use dfs_csi.Driver.Node.{unmount_all, node_unpublish_volume}
use dfs_csi.Driver.Publish.{NodePublishRequest, node_publish_volume}
use dfs_csi.Controller.MountInfo.{MountInfoTable}
use dfs_csi.Controller.Driver.{run}
use dfs_csi.References.{place_of, IsApi, IsHeld, IsHeld-Ignores, is_at}
use dfs_csi.References.Targets.{IsReference, j_umount-Keeps}
use dfs_csi.References.Publishing.{node_publish_volume-Keeps}
use dfs_csi.References.Reconciling.{IsListed, run-Keeps}
use dfs_csi.References.Elsewhere.{run-elsewhere-Keeps}

-- What is done to mount pods: NodePublishVolume, NodeUnpublishVolume, and the reconciler's Run.
pub data Use : Type 0 where
  publish : Fuel → NodePublishRequest → Use
  unpublish : ℕ → String → String → Use
  check : MountInfoTable → Pod → Use

module _ (sys : System) (codec : Codec) (cfg : Config) where
  unfoldable pub perform : Use → Io (Unit {0})
  perform (publish fuel req) = node_publish_volume sys codec cfg fuel req
  perform (unpublish fuel volume_id target) = node_unpublish_volume sys cfg fuel volume_id target
  perform (check mit pod) = run sys mit pod

  -- The calls behind some uses, whatever the outcome of each.
  unfoldable pub after_uses : List Use → Trace → Trace
  unfolding perform
  after_uses [] t = t
  after_uses (use_of ∷ uses) t = after_uses uses (trace_of (perform use_of t))

module _ (sys : System) (target name ns : String) where
  -- The uses for other targets. A check of the pod itself has it listed as ready, with the reference, and
  -- finds the target in its table.
  abbrev pub IsOther : Use → Type 0
  IsOther (publish fuel req) =
      (get_reference_key sys req.target_path == get_reference_key sys target) ≡ false
  IsOther (unpublish fuel volume_id other) =
      (get_reference_key sys other == get_reference_key sys target) ≡ false
  IsOther (check mit pod) =
      is_at (place_of sys target name ns) pod ≡ true → IsListed sys mit target pod

  abbrev pub AreOther : List Use → Type 0
  AreOther [] = Unit {0}
  AreOther (use_of ∷ uses) = IsOther use_of × AreOther uses

module _ (sys : System) (codec : Codec) (cfg : Config) (target name ns : String)
    (old : Option String) (api : IsApi sys (place_of sys target name ns) old)
    (apart : (get_reference_key sys target == delete_delay_at_key) ≡ false) where
  is_reference : IsReference (place_of sys target name ns)
  is_reference = record { prefixed = get_reference_key-starts_with sys target; not_time = apart }

  unmount_all-Keeps :
      (fuel : ℕ) (path : String)
      → Keeps (IsHeld (place_of sys target name ns) old target) (unmount_all sys fuel path)
  unfolding unmount_all
  unmount_all-Keeps zero path = search (keeps_rules)
  unmount_all-Keeps (suc fuel) path =
      search (keeps_rules, IsHeld-Ignores, unmount_all-Keeps fuel) depth 8

  unpublish-Keeps :
      (fuel : ℕ) (volume_id other : String)
      → (get_reference_key sys other == get_reference_key sys target) ≡ false
      → Keeps
          (IsHeld (place_of sys target name ns) old target)
          (node_unpublish_volume sys cfg fuel volume_id other)
  unfolding node_unpublish_volume
  unpublish-Keeps fuel volume_id other differs =
      search
        (
          keeps_rules,
          IsHeld-Ignores,
          unmount_all-Keeps,
          get_unique_id-Keeps,
          j_umount-Keeps sys _ old target api is_reference cfg,
        )
        depth 8

  check-Keeps :
      (mit : MountInfoTable) (pod : Pod)
      → (is_at (place_of sys target name ns) pod ≡ true → IsListed sys mit target pod)
      → Keeps (IsHeld (place_of sys target name ns) old target) (run sys mit pod)
  check-Keeps mit pod listed = by_place (is_at (place_of sys target name ns) pod) refl
    where
      by_place :
          (here : Bool)
          → is_at (place_of sys target name ns) pod ≡ here
          → Keeps (IsHeld (place_of sys target name ns) old target) (run sys mit pod)
      by_place true here = run-Keeps sys _ old target refl apart mit pod (listed here)
      by_place false elsewhere = run-elsewhere-Keeps sys _ old target pod elsewhere mit

  perform-Keeps :
      (use_of : Use)
      → IsOther sys target name ns use_of
      → Keeps (IsHeld (place_of sys target name ns) old target) (perform sys codec cfg use_of)
  unfolding perform
  perform-Keeps (publish fuel req) differs =
      node_publish_volume-Keeps sys _ old target api is_reference cfg codec fuel req differs
  perform-Keeps (unpublish fuel volume_id other) differs =
      unpublish-Keeps fuel volume_id other differs
  perform-Keeps (check mit pod) listed = check-Keeps mit pod listed

  -- Let the API server answer with the pod that is asked for, find a pod that has the one annotation,
  -- and answer with this annotation as the calls so far leave it, while others may do anything else.
  -- Let a mount pod refer to a target. Then it still does behind any sequence of NodePublishVolume and
  -- NodeUnpublishVolume for targets with other keys and of Run on mount pods, whatever becomes of each,
  -- and none of these asked to delete it; a Run on this pod has it listed as ready, with the
  -- reference, and finds the target.
  pub after_uses-IsHeld :
      (uses : List Use) (t : Trace)
      → AreOther sys target name ns uses
      → IsHeld (place_of sys target name ns) old target t
      → IsHeld (place_of sys target name ns) old target (after_uses sys codec cfg uses t)
  unfolding after_uses
  after_uses-IsHeld [] t other h = h
  after_uses-IsHeld (use_of ∷ uses) t (one, rest) h =
      after_uses-IsHeld uses (trace_of (perform sys codec cfg use_of t)) rest
        ((perform-Keeps use_of one).at t h)
