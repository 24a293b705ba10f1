-- ===== src/Driver/Publish.antt =====
-- pkg/driver/node.go: NodePublishVolume.
pub mod Bound
pub mod Options
use dfs_csi.Prelude.{
  String, Bool, true, false, Option, none, some, List, [], ◌∷◌, ◌++◌, ◌==◌, ◌||◌, map,
  if◌then◌else◌,
}
use dfs_csi.Prelude.Dict.{Dict, lookup, insert, value_of}
use dfs_csi.Strings.{split}
use dfs_csi.Config.{Config}
use dfs_csi.System.{System, Code, Failure}
use dfs_csi.System.Io.{Io, fail, ◌>>=◌, ◌>>◌, on_option, branch}
use dfs_csi.Mount.Wait.{Fuel}
use dfs_csi.Juicefs.{or_internal, create_vol}
use dfs_csi.Juicefs.Mounting.{jfs_mount}
use dfs_csi.Juicefs.ConsoleApi.{Codec}
use dfs_csi.Driver.Capability.{AccessMode, multi_node_reader_only, is_valid_volume_capabilities}
use dfs_csi.Driver.Node.{create_target, check_bind_and_mount}

-- csi.VolumeCapability: the access mode, and the flags of a mount.
pub record VolumeCapability : Type 0 where
  pub mode : AccessMode
  pub mount_flags : List String

pub record NodePublishRequest : Type 0 where
  pub volume_id : String
  pub target_path : String
  pub capability : Option VolumeCapability
  pub readonly : Bool
  pub volume_context : Dict String
  pub secrets : Dict String

abbrev is_reader_only : AccessMode → Bool
is_reader_only multi_node_reader_only = true
is_reader_only _ = false

-- The keys of `options`. A flag that stands twice is one key.
unfoldable pub flag_keys : Dict String → List String → Dict String
unfolding insert
flag_keys options [] = options
flag_keys options (f ∷ flags) = flag_keys (insert f "" options) flags

-- The options of the mount: those of the volume context, and then the keys of `options`, whose values
-- are empty.
unfoldable pub mount_options : NodePublishRequest → VolumeCapability → List String
unfolding flag_keys lookup split
mount_options req capability =
    let options = if req.readonly || is_reader_only capability.mode then ("ro", "") ∷ [] else [] in
    let from_context : List String = elim (lookup "mountOptions" req.volume_context) [
      | none ↦ []
      | some opts ↦ split opts ","
    ] in
    from_context ++ map (λ (k, v). k) (flag_keys options capability.mount_flags)

abbrev invalid : String → Failure
invalid text = Failure.status Code.invalid_argument text

module _ (sys : System) (codec : Codec) (cfg : Config) (fuel : Fuel) where
  -- NodePublishVolume of a request whose capability is supported
  unfoldable pub publish : NodePublishRequest → VolumeCapability → Io (Unit {0})
  unfolding mount_options value_of
  publish req capability = do
    or_internal (create_target sys fuel.checks req.target_path) "Could not create dir"
    fs ←
        or_internal
          (jfs_mount sys cfg fuel req.volume_id req.target_path req.secrets req.volume_context
            (mount_options req capability) true)
          "Could not mount juicefs"
    bind_source ←
        or_internal (create_vol sys codec fs (value_of req.volume_context "subPath") 0 "")
          "Could not create volume"
    or_internal (check_bind_and_mount sys fs.mount_path bind_source req.target_path)
        "Could not bind"

  -- NodePublishVolume
  unfoldable pub node_publish_volume : NodePublishRequest → Io (Unit {0})
  unfolding is_valid_volume_capabilities
  node_publish_volume req =
      branch (req.target_path == "") (fail (invalid "Target path not provided")) (
        on_option req.capability (fail (invalid "Volume capability not provided")) λ capability.
          branch (is_valid_volume_capabilities (capability.mode ∷ [])) (publish req capability)
            (fail (invalid "Volume capability not supported")))
