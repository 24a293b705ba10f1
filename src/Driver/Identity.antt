-- ===== src/Driver/Identity.antt =====
-- pkg/driver/identity.go and version.go, and the methods of the two services that have constant answers
-- (controller.go, node.go). The variables of the build and of the package runtime are parameters.
use dfs_csi.Prelude.{String, ◌<>◌, List, [], ◌∷◌, map}
use dfs_csi.System.{Result, Code, Failure}
use dfs_csi.System.Io.{Io, pure, fail, lift}
use dfs_csi.Controller.PodController.{driver_name}

-- What the linker sets, and the package runtime.
pub record Build : Type 0 where
  pub driver_version : String
  pub git_commit : String
  pub build_date : String
  pub go_version : String
  pub compiler : String
  pub goos : String
  pub goarch : String

-- VersionInfo
pub record VersionInfo : Type 0 where
  pub driver_version : String
  pub git_commit : String
  pub build_date : String
  pub go_version : String
  pub compiler : String
  pub platform : String

-- GetVersion
unfoldable pub get_version : Build → VersionInfo
get_version b = record {
  driver_version = b.driver_version;
  git_commit = b.git_commit;
  build_date = b.build_date;
  go_version = b.go_version;
  compiler = b.compiler;
  platform = b.goos <> ("/" <> b.goarch);
}

-- GetVersionJSON, of json.MarshalIndent
unfoldable pub get_version_json : (VersionInfo → Result String) → Build → Io String
unfolding get_version
get_version_json marshal b = lift (marshal (get_version b))

pub record PluginInfo : Type 0 where
  pub name : String
  pub vendor_version : String

pub data PluginCapability : Type 0 where
  controller_service : PluginCapability

-- GetPluginInfo, GetPluginCapabilities and Probe
unfoldable pub get_plugin_info : Build → Io PluginInfo
get_plugin_info b = pure (record { name = driver_name; vendor_version = b.driver_version })

unfoldable pub get_plugin_capabilities : Io (List PluginCapability)
get_plugin_capabilities = pure (controller_service ∷ [])

unfoldable pub probe : Io (Unit {0})
probe = pure tt

-- csi.ControllerServiceCapability_RPC_Type, with the types that the service has
pub data ControllerRpc : Type 0 where
  create_delete_volume create_delete_snapshot clone_volume expand_volume : ControllerRpc

pub data ControllerCapability : Type 0 where
  controller_rpc : ControllerRpc → ControllerCapability

-- controllerCaps
abbrev pub controller_caps : List ControllerRpc
controller_caps = create_delete_volume ∷ create_delete_snapshot ∷ clone_volume ∷ expand_volume ∷ []

-- ControllerGetCapabilities
unfoldable pub controller_get_capabilities : Io (List ControllerCapability)
controller_get_capabilities = pure (map controller_rpc controller_caps)

-- csi.NodeServiceCapability_RPC_Type, of which the service has none
pub data NodeRpc : Type 0 where
  stage_unstage_volume get_volume_stats expand_node_volume : NodeRpc

-- nodeCaps
abbrev pub node_caps : List NodeRpc
node_caps = []

pub data NodeCapability : Type 0 where
  node_rpc : NodeRpc → NodeCapability

-- NodeGetCapabilities
unfoldable pub node_get_capabilities : Io (List NodeCapability)
node_get_capabilities = pure (map node_rpc node_caps)

-- NodeGetInfo
unfoldable pub node_get_info : String → Io String
node_get_info node_id = pure node_id

-- The methods that are not implemented: GetCapacity, ListVolumes, ListSnapshots,
-- ControllerPublishVolume and ControllerUnpublishVolume; NodeStageVolume, NodeUnstageVolume,
-- NodeExpandVolume and NodeGetVolumeStats.
module _ {A : Type 0} where
  abbrev unimplemented : String → Io A
  unimplemented text = fail (Failure.status Code.unimplemented text)

  unfoldable pub get_capacity : Io A
  get_capacity = unimplemented ""

  unfoldable pub list_all_volumes : Io A
  list_all_volumes = unimplemented ""

  unfoldable pub list_snapshots : Io A
  list_snapshots = unimplemented ""

  unfoldable pub controller_publish_volume : Io A
  controller_publish_volume = unimplemented ""

  unfoldable pub controller_unpublish_volume : Io A
  controller_unpublish_volume = unimplemented ""

  unfoldable pub node_stage_volume : Io A
  node_stage_volume = unimplemented ""

  unfoldable pub node_unstage_volume : Io A
  node_unstage_volume = unimplemented ""

  unfoldable pub node_expand_volume : Io A
  node_expand_volume = unimplemented ""

  unfoldable pub node_get_volume_stats : Io A
  node_get_volume_stats = unimplemented "NodeGetVolumeStats is not implemented yet"
