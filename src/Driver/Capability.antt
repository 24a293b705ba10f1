-- ===== src/Driver/Capability.antt =====
-- pkg/driver/controller.go: the access modes of volumes.
use dfs_csi.Prelude.{
  ◌≡◌, ◌↔◌, ℕ, String, Bool, true, false, not, ◌&&◌, Option, none, some, List, ◌==◌, all, is_empty,
  is_some, arith, if◌then◌else◌,
}
use dfs_csi.Prelude.Dict.{Dict, lookup}
use dfs_csi.System.{Code, Failure, Result, ok, err}

-- csi.VolumeCapability_AccessMode
pub data AccessMode : Type 0 where
  unknown_mode single_node_writer single_node_reader_only : AccessMode
  multi_node_reader_only multi_node_single_writer multi_node_multi_writer : AccessMode

-- hasSupport, the search in `volumeCaps`
abbrev pub has_support : AccessMode → Bool
has_support single_node_writer = true
has_support multi_node_multi_writer = true
has_support multi_node_reader_only = true
has_support _ = false

-- isValidVolumeCapabilities
unfoldable pub is_valid_volume_capabilities : List AccessMode → Bool
is_valid_volume_capabilities modes = all has_support modes

-- ValidateVolumeCapabilities, with the recorded volumes: the capabilities that are confirmed, if any.
unfoldable pub validate_volume_capabilities :
    Dict ℕ → String → List AccessMode → Result (Option (List AccessMode))
unfolding is_valid_volume_capabilities lookup
validate_volume_capabilities vols volume_id modes =
    if volume_id == ""
    then err (Failure.status Code.invalid_argument "Volume ID not provided")
    else if is_empty modes
    then err (Failure.status Code.invalid_argument "Volume capabilities not provided")
    else if not (is_some (lookup volume_id vols))
    then err (Failure.status Code.not_found_code "Could not get volume by ID")
    else ok (if is_valid_volume_capabilities modes then some modes else none)

-- ValidateVolumeCapabilities confirms exactly the capabilities of the request, and confirms them
-- exactly if the id and the capabilities are given, the volume is recorded, and each access mode is
-- one writer on one node, readers on many nodes, or writers on many nodes.
pub validate_volume_capabilities_iff :
    (vols : Dict ℕ) (volume_id : String) (modes confirmed : List AccessMode)
    → (validate_volume_capabilities vols volume_id modes ≡ ok (some confirmed)) ↔ (
        (confirmed ≡ modes)
        × ((not (volume_id == "")
              && not (is_empty modes)
              && is_some (lookup volume_id vols)
              && all has_support modes)
            ≡ true))
unfolding validate_volume_capabilities is_valid_volume_capabilities
validate_volume_capabilities_iff vols volume_id modes confirmed = ground arith
