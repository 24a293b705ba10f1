-- ===== src/Commands/WarmUp.antt =====
-- cmd/warmup/main.go and pkg/warmup/warmup.go: the start of the warm-up's manager. The flag package and
-- the logger are left out.
pub mod Order
use dfs_csi.Prelude.{ℕ, String, Bool, true, false, [], ◌∷◌}
use dfs_csi.Strings.{join_path}
use dfs_csi.System.{System, Failure, ManagerCall, ManagerOptions}
use dfs_csi.System.Io.{Io, pure, fail, attempt, manage, home_dir, ◌>>=◌, ◌>>◌, on_result}
use dfs_csi.Commands.{Start, started, exited}

-- The flags of Run.
pub record WarmUpFlags : Type 0 where
  pub metrics_addr : String
  pub probe_addr : String
  pub enable_leader_election : Bool

abbrev pub default_flags : WarmUpFlags
default_flags = record {
  metrics_addr = ":8080";
  probe_addr = ":8081";
  enable_leader_election = true;
}

abbrev pub manager_options : WarmUpFlags → ManagerOptions
manager_options flags = record {
  metrics_bind_address = flags.metrics_addr;
  health_probe_bind_address = flags.probe_addr;
  port = 9443;
  leader_election = flags.enable_leader_election;
  leader_election_id = "db069dfd.sandstone.com";
  pod_labels = [];
}

-- `if err != nil { os.Exit(1) }` behind a call.
unfoldable pub or_exit : Io (Unit {0}) → Io (Start (Unit {0})) → Io (Start (Unit {0}))
or_exit m rest = do r ← attempt m; on_result r (λ _. rest) (λ e. pure (exited 1))

module _ (sys : System) where
  -- initClientGo: the configuration of the cluster, or else the one of the home directory.
  unfoldable pub init_client_go : Io (Unit {0})
  unfolding join_path
  init_client_go = do
    r ← attempt (manage sys ManagerCall.in_cluster_config)
    on_result r (λ _. pure tt)
        (λ e. do
          dirname ← home_dir sys
          manage sys (
              ManagerCall.build_config_from_flags (join_path (join_path dirname ".kube") "config")))
    c ← attempt (manage sys ManagerCall.new_for_config)
    on_result c pure (λ e. fail (Failure.message "new k8s clientset error"))

  -- CacheReconciler.SetupWithManager
  unfoldable pub setup_cache_reconciler : Io (Unit {0})
  setup_cache_reconciler = manage sys (ManagerCall.build_controller "Cache")

  -- Run, which ends where the manager ends
  unfoldable pub run_warm_up : WarmUpFlags → Io (Start (Unit {0}))
  unfolding or_exit init_client_go setup_cache_reconciler
  run_warm_up flags = or_exit (manage sys ManagerCall.get_config) (
      or_exit (manage sys (ManagerCall.new_manager (manager_options flags))) (
        or_exit init_client_go (
          or_exit setup_cache_reconciler (
            or_exit (manage sys (ManagerCall.add_healthz_check "healthz")) (
              or_exit (manage sys (ManagerCall.add_readyz_check "readyz"))
                (or_exit (manage sys ManagerCall.start_manager) (pure (started tt))))))))

  -- main
  unfoldable pub main_warm_up : Io (Start (Unit {0}))
  unfolding run_warm_up
  main_warm_up = run_warm_up default_flags
