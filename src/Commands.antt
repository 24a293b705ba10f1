-- ===== src/Commands.antt =====
-- cmd/driver/main.go: the start of the driver.
pub mod PodManager
pub mod Starting
pub mod WarmUp
use dfs_csi.Prelude.{
  ℕ, String, Bool, true, false, not, ◌&&◌, ◌||◌, Option, none, some, List, [], ◌∷◌, ◌==◌,
  find_first, if◌then◌else◌,
}
use dfs_csi.Prelude.Int.{ℤ, pos, ltb_ℤ}
use dfs_csi.Kube.{Pod, Container}
use dfs_csi.System.{System, environment, ok, err}
use dfs_csi.System.Io.{
  Io, pure, attempt, get_pod, new_client, ◌>>=◌, ◌>>◌, on_result, on_option, branch,
}
use dfs_csi.K8sClient.Kubelet.{Tls, KubeletClient}
use dfs_csi.Controller.Reconciler.{start_reconciler}
use dfs_csi.Driver.Server.{new_driver, run_driver}

-- The flags of the command.
pub record Flags : Type 0 where
  pub endpoint : String
  pub version : Bool
  pub node_id : String
  pub enable_manager : Bool

-- The variables of the package config that init sets.
pub record Variables : Type 0 where
  pub node_name : String
  pub namespace : String
  pub pod_name : String
  pub mount_point_path : String
  pub jfs_config_path : String
  pub host_ip : String
  pub kubelet_port : String
  pub reconcile_timeout : ℤ
  pub mount_image : String

-- config.ReconcileTimeout before init: five minutes, in nanoseconds
abbrev pub reconcile_timeout : ℤ
reconcile_timeout = pos 300000000000

-- A process that goes on, or the code that it exits with.
pub data Start {ℓ} (A : Type ℓ) : Type ℓ where
  started : A → Start A
  exited : ℕ → Start A

-- The code of klog.Fatalln.
abbrev pub fatal : ℕ
fatal = 255

-- What looks after the mount pods: the loop over the kubelet's pods, the pod manager, or nothing.
pub data Manager : Type 0 where
  polling : KubeletClient → Manager
  pod_manager no_manager : Manager

-- The image of the first container `mosfs-plugin`.
unfoldable pub plugin_image : List Container → Option String
plugin_image containers =
    elim (find_first (λ (c : Container). c.name == "mosfs-plugin") containers) [
      | none ↦ none
      | some c ↦ some c.image
    ]

module _ (sys : System) where
  -- The timeout that init sets: an error of time.ParseDuration leaves 0.
  unfoldable pub timeout_of : String → ℤ
  timeout_of text =
      let duration : ℤ = elim (sys.parse_duration text) [ ok d ↦ d | err e ↦ pos 0 ] in
      if text == ""
      then reconcile_timeout
      else if ltb_ℤ reconcile_timeout duration
      then duration
      else reconcile_timeout

  -- The variables that init reads from the environment, with an image.
  unfoldable pub variables : String → Variables
  unfolding environment timeout_of
  variables image = record {
    node_name = environment sys "NODE_NAME";
    namespace = environment sys "MOSFS_MOUNT_NAMESPACE";
    pod_name = environment sys "POD_NAME";
    mount_point_path = environment sys "MOSFS_MOUNT_PATH";
    jfs_config_path = environment sys "MOSFS_CONFIG_PATH";
    host_ip = environment sys "HOST_IP";
    kubelet_port = environment sys "KUBELET_PORT";
    reconcile_timeout = timeout_of (environment sys "MOSFS_RECONCILE_TIMEOUT");
    mount_image = image;
  }

  -- The end of init, with the driver's own pod.
  unfoldable pub with_image : Pod → Io (Start Variables)
  unfolding plugin_image variables
  with_image pod =
      on_option (plugin_image pod.spec.containers) (pure (exited 0))
        (λ image. pure (started (variables image)))

  -- init
  unfoldable pub init : Io (Start Variables)
  unfolding environment with_image
  init =
      branch (environment sys "POD_NAME" == "" || environment sys "MOSFS_MOUNT_NAMESPACE" == "")
        (pure (exited fatal))
        (do
          client ← attempt (new_client sys)
          on_result client
              (λ _. do
                r ← attempt (
                    get_pod sys (environment sys "POD_NAME")
                      (environment sys "MOSFS_MOUNT_NAMESPACE"))
                on_result r with_image (λ e. pure (exited 0)))
              (λ e. pure (exited 0)))

  module _ (tls : Tls) where
    -- What main starts for the mount pods.
    unfoldable pub start_manager : Flags → Variables → Io Manager
    unfolding start_reconciler
    start_manager flags vars =
        branch (flags.enable_manager)
          (branch (not (vars.kubelet_port == "") && not (vars.host_ip == ""))
            (do
              r ← attempt (start_reconciler tls sys vars.host_ip vars.kubelet_port)
              on_result r (λ kc. pure (polling kc)) (λ e. pure pod_manager))
            (pure pod_manager))
          (pure no_manager)

    -- main: the manager that runs beside the driver when it ends to serve, or the code of the exit.
    -- GetVersionJSON, which prints, is left out.
    unfoldable pub main : Flags → Variables → Io (Start Manager)
    unfolding start_manager
    main flags vars = branch flags.version (pure (exited 0)) (
        branch (flags.node_id == "") (pure (exited fatal)) (do
          manager ← start_manager flags vars
          r ← attempt (do d ← new_driver sys flags.endpoint flags.node_id; run_driver sys d)
          on_result r (λ _. pure (started manager)) (λ e. pure (exited fatal))))
