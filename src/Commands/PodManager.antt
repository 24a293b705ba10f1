-- ===== src/Commands/PodManager.antt =====
-- cmd/app/pod_manager.go: the manager that watches the mount pods at the API server.
use dfs_csi.Prelude.{false, [], ◌∷◌}
use dfs_csi.Config.{pod_type_key, pod_type_value}
use dfs_csi.System.{System, ManagerCall, ManagerOptions}
use dfs_csi.System.Io.{Io, pure, attempt, on_result, manage, ◌>>=◌, ◌>>◌}
use dfs_csi.Commands.{Start, started, exited, fatal}
use dfs_csi.K8sClient.Methods.{K8sClient, new_k8s_client}
use dfs_csi.Controller.PodController.Watch.{setup_with_manager}

-- The options of the manager. Its cache holds the pods with the label of mount pods.
abbrev pub pod_manager_options : ManagerOptions
pod_manager_options = record {
  metrics_bind_address = "0.0.0.0:8082";
  health_probe_bind_address = "";
  port = 9442;
  leader_election = false;
  leader_election_id = "pod.juicefs.com";
  pod_labels = (pod_type_key, pod_type_value) ∷ [];
}

module _ (sys : System) where
  -- NewPodManager, of which the client is kept
  unfoldable pub new_pod_manager : Io K8sClient
  unfolding new_k8s_client
  new_pod_manager = do
    manage sys ManagerCall.get_config
    manage sys (ManagerCall.new_manager pod_manager_options)
    new_k8s_client sys

  -- PodManager.Start
  unfoldable pub start_pod_manager : Io (Unit {0})
  unfolding setup_with_manager
  start_pod_manager = do setup_with_manager sys; manage sys ManagerCall.start_manager

  -- The goroutine of main that runs the manager: its failure is the end of the process.
  unfoldable pub run_pod_manager : Io (Start (Unit {0}))
  unfolding new_pod_manager start_pod_manager
  run_pod_manager = do
    r ← attempt (do new_pod_manager; start_pod_manager)
    on_result r (λ _. pure (started tt)) (λ e. pure (exited fatal))
