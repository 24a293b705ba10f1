-- ===== src/Mount/Wait/Objects.antt =====
-- The wait for a mount point changes no object of the API server.
use dfs_csi.Prelude.{ℕ, zero, suc, String, true, false, List, eqb}
use dfs_csi.Config.{Config}
use dfs_csi.Kube.{Pod, ContainerStatus}
use dfs_csi.System.{System, Trace}
use dfs_csi.System.Io.{sleep}
use dfs_csi.System.Keeps.{
  Keeps, Keeps-bind, Keeps-then, Keeps-on_result, Keeps-branch, Keeps-pure, Ignores, keeps_rules,
}
use dfs_csi.Mount.Builder.{parse_pod_resources}
use dfs_csi.Mount.Wait.{
  is_context_error, log_of, get_err_container_log, ready_loop, wait_until_mount_ready,
}

module _ {ℓ} (sys : System) (cfg : Config) (P : Trace → Type ℓ) (ig : Ignores P) where
  slept : Keeps P sleep
  slept = search (keeps_rules, ig)

  log_of-Keeps :
      (pod : Pod) (statuses : List ContainerStatus) → Keeps P (log_of sys cfg pod statuses)
  unfolding log_of
  log_of-Keeps pod statuses = search (keeps_rules, ig)

  err_log-Keeps : (pod_name : String) → Keeps P (get_err_container_log sys cfg pod_name)
  unfolding get_err_container_log
  err_log-Keeps pod_name = search (keeps_rules, ig, log_of-Keeps) depth 8

  ready_loop-Keeps : (checks : ℕ) (path : String) → Keeps P (ready_loop sys cfg checks path)
  unfolding ready_loop
  ready_loop-Keeps zero path = search (keeps_rules)
  ready_loop-Keeps (suc checks) path = Keeps-bind _ _ (search (keeps_rules, ig)) λ r.
      Keeps-on_result r _ _
        (λ info.
          Keeps-branch (eqb info.ino 1) _ _ (λ _. Keeps-pure true)
            (λ _. Keeps-then _ _ slept (ready_loop-Keeps checks path)))
        (λ e.
          Keeps-branch (is_context_error e) _ _ (λ _. Keeps-pure false)
            (λ _. Keeps-then _ _ slept (ready_loop-Keeps checks path)))

  pub ready-Keeps :
      (checks : ℕ) (pod_name path : String)
      → Keeps P (wait_until_mount_ready sys cfg checks pod_name path)
  unfolding wait_until_mount_ready
  ready-Keeps checks pod_name path = search (keeps_rules, ready_loop-Keeps, err_log-Keeps) depth 8

  pub resources-Keeps : (a b c d : String) → Keeps P (parse_pod_resources sys a b c d)
  unfolding parse_pod_resources
  resources-Keeps a b c d = search (keeps_rules) depth 14
