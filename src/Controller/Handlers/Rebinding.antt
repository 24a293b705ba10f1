-- ===== src/Controller/Handlers/Rebinding.antt =====
-- podReadyHandler changes no object of the API server.
use dfs_csi.Prelude.{String, List, [], ◌∷◌}
use dfs_csi.Kube.{Pod}
use dfs_csi.System.{System, Trace}
use dfs_csi.System.Keeps.{Keeps, Keeps-then, Ignores, keeps_rules}
use dfs_csi.Controller.Handlers.{
  mount_source, bind_source, rebind, rebind_all, rebind_pod, pod_ready_handler,
}

module _ {ℓ} (sys : System) (P : Trace → Type ℓ) (ig : Ignores P) where
  rebind-Keeps : (source target : String) → Keeps P (rebind sys source target)
  unfolding rebind
  rebind-Keeps source target = search (keeps_rules, ig) depth 8

  rebind_all-Keeps :
      (source : String) (targets : List String) → Keeps P (rebind_all sys source targets)
  unfolding rebind_all
  rebind_all-Keeps source [] = search (keeps_rules)
  rebind_all-Keeps source (target ∷ targets) =
      Keeps-then _ _ (rebind-Keeps source target) (rebind_all-Keeps source targets)

  bind_source-Keeps : (path volume : String) → Keeps P (bind_source sys path volume)
  unfolding bind_source mount_source
  bind_source-Keeps path volume = search (keeps_rules, ig) depth 8

  pub ready-Keeps : (pod : Pod) → Keeps P (pod_ready_handler sys pod)
  unfolding pod_ready_handler rebind_pod
  ready-Keeps pod = search (keeps_rules, bind_source-Keeps, rebind_all-Keeps) depth 8
