-- ===== src/Driver/Server.antt =====
-- pkg/driver: making the driver and its services (driver.go, controller.go, node.go), and serving.
use dfs_csi.Prelude.{String, [], ◌∷◌}
use dfs_csi.Config.{cli_path}
use dfs_csi.System.{System, Output}
use dfs_csi.System.Io.{
  Io, pure, panic, attempt, new_client, command, serve, ◌>>=◌, ◌>>◌, on_result, on_option,
}
use dfs_csi.Util.Endpoint.{parse_endpoint}
use dfs_csi.Util.Locks.{new_obj_locks}
use dfs_csi.Driver.Controller.{ControllerService}

-- Driver, with the node service's id of the node.
pub record Driver : Type 0 where
  pub controller : ControllerService
  pub node_id : String
  pub endpoint : String

module _ (sys : System) where
  -- Version of the provider
  unfoldable pub version : Io Output
  version = command sys (cli_path ∷ "version" ∷ []) []

  -- NewJfsProvider of no mounter: the mounter and its commands are those of System
  unfoldable pub new_jfs_provider : Io (Unit {0})
  new_jfs_provider = new_client sys

  -- What newControllerService and newNodeService do first: NewJfsProvider and Version, whose errors
  -- are panics.
  unfoldable pub new_provider : Io (Unit {0})
  unfolding version new_jfs_provider
  new_provider = do
    r ← attempt new_jfs_provider
    on_result r (λ _. do out ← version; on_option out.error (pure tt) (λ e. panic "version"))
        (λ e. panic "new provider")

  -- newControllerService
  unfoldable pub new_controller_service : Io ControllerService
  unfolding new_provider
  new_controller_service = do new_provider; pure (record { vols = []; snap_locks = new_obj_locks })

  -- newNodeService, of which the id of the node is kept
  unfoldable pub new_node_service : String → Io String
  unfolding new_provider
  new_node_service node_id = do new_provider; new_client sys; pure node_id

  -- NewDriver
  unfoldable pub new_driver : String → String → Io Driver
  unfolding new_controller_service new_node_service
  new_driver endpoint node_id = do
    controller ← new_controller_service
    node ← new_node_service node_id
    pure (record { controller = controller; node_id = node; endpoint = endpoint })

  -- Driver.Run
  unfoldable pub run_driver : Driver → Io (Unit {0})
  unfolding parse_endpoint
  run_driver d = do (scheme, addr) ← parse_endpoint sys d.endpoint; serve sys scheme addr
