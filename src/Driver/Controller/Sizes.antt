-- ===== src/Driver/Controller/Sizes.antt =====
-- The sizes that the controller service remembers.
use dfs_csi.Prelude.{ℕ, ◌≡◌, ◌∙◌, ◌<◌, true, false, none, some, [], ◌==◌, eq_refl, arith}
use dfs_csi.Prelude.Dict.{lookup, lookup-insert}
use dfs_csi.Config.{Config}
use dfs_csi.System.{System, Trace, Failure, Code}
use dfs_csi.System.Io.{fails}
use dfs_csi.Util.Locks.{has, try_acquire}
use dfs_csi.Mount.Wait.{Fuel}
use dfs_csi.Juicefs.ConsoleApi.{Codec}
use dfs_csi.Driver.Controller.{
  ControllerService, CreateVolumeRequest, locked, is_smaller, create_locked, create_volume,
}
use dfs_csi.Driver.Controller.Releases.{handlers-LeavesLocks}

-- A request of CreateVolume that has a name, capabilities and no running operation.
pub record IsAdmitted (d : ControllerService) (req : CreateVolumeRequest) : Type 0 where
  pub named : (req.name == "") ≡ false
  pub capable : req.has_capabilities ≡ true
  pub free : has d.snap_locks req.name ≡ false

module _ (sys : System) (codec : Codec) (cfg : Config) (fuel : Fuel) where
  pub size-create_volume :
      (req : CreateVolumeRequest) (d : ControllerService) (t : Trace)
      → IsAdmitted d req
      → is_smaller d req ≡ false
      → lookup req.name (create_volume sys codec cfg fuel req d t).0.vols ≡ some req.required_bytes
  unfolding create_volume locked create_locked try_acquire
  size-create_volume req d t admitted fits = ground (
    arith,
    admitted.named,
    admitted.capable,
    admitted.free,
    lookup-insert req.name req.name req.required_bytes d.vols,
    eq_refl req.name,
  )

  refused :
      (req : CreateVolumeRequest) (d : ControllerService) (t : Trace) (size : ℕ)
      → IsAdmitted d req
      → lookup req.name d.vols ≡ some size
      → size < req.required_bytes
      → (create_volume sys codec cfg fuel req d t).1
        ≡ fails (Failure.status Code.already_exists_code "Volume") t
  unfolding create_volume locked create_locked try_acquire is_smaller
  refused req d t size admitted known less =
      ground (arith, admitted.named, admitted.capable, admitted.free)

  -- Let CreateVolume get a request that has a name and capabilities, whose name is not locked, and
  -- that asks for no more bytes than the service remembers for the name. Whatever becomes of it,
  -- also when it fails, a later request with capabilities of the same name for more bytes is
  -- refused with AlreadyExists and makes no call, if the service did nothing between.
  pub create_volume-larger :
      (req larger : CreateVolumeRequest) (d : ControllerService) (t u : Trace)
      → IsAdmitted d req
      → is_smaller d req ≡ false
      → larger.name ≡ req.name
      → larger.has_capabilities ≡ true
      → req.required_bytes < larger.required_bytes
      → (create_volume sys codec cfg fuel larger (create_volume sys codec cfg fuel req d t).0 u).1
        ≡ fails (Failure.status Code.already_exists_code "Volume") u
  create_volume-larger req larger d t u admitted fits same capable less =
      refused larger (create_volume sys codec cfg fuel req d t).0 u req.required_bytes
        (record {
          named = rw same admitted.named;
          capable = capable;
          free = rw same (
              (handlers-LeavesLocks sys codec cfg fuel req "" "" none []).0 d t req.name
              ∙ admitted.free);
        })
        (rw same (size-create_volume req d t admitted fits)) less
