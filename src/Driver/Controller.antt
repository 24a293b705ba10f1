-- ===== src/Driver/Controller.antt =====
-- pkg/driver/controller.go: the volumes and snapshots of the CSI controller service.
pub mod Releases
pub mod Sizes
pub mod Created
use dfs_csi.Prelude.{
  ℕ, String, ◌<>◌, Bool, true, false, Option, none, some, List, [], ◌∷◌, ◌==◌, ltb, ◌&&◌,
  if◌then◌else◌,
}
use dfs_csi.Prelude.Dict.{Dict, lookup, insert, erase}
use dfs_csi.Config.{Config}
use dfs_csi.Config.Setting.{parse_setting}
use dfs_csi.System.{System, Code, Failure, Trace, ok, err}
use dfs_csi.System.Io.{
  Io, Outcome, done, fails, pure, fail, attempt, lift, ◌>>=◌, ◌>>◌, on_option, on_result, branch,
}
use dfs_csi.Util.{parse_qos_params}
use dfs_csi.Util.Locks.{ObjLocks, try_acquire, release}
use dfs_csi.Mount.Wait.{Fuel}
use dfs_csi.Juicefs.{
  Jfs, or_internal, create_vol, create_vol_from, delete_vol, delete_snap, create_snap, jfs_unmount,
}
use dfs_csi.Juicefs.Mounting.{jfs_mount, get_console}
use dfs_csi.Juicefs.ConsoleApi.{Codec, get_quota, create_quota, update_quota}

-- controllerService
pub record ControllerService : Type 0 where
  pub vols : Dict ℕ
  pub snap_locks : ObjLocks

pub data ContentSource : Type 0 where
  snapshot_source : String → ContentSource
  volume_source : String → ContentSource
  other_content : ContentSource

-- csi.CreateVolumeRequest, without the capabilities but whether there are some
pub record CreateVolumeRequest : Type 0 where
  pub name : String
  pub has_capabilities : Bool
  pub required_bytes : ℕ
  pub parameters : Dict String
  pub secrets : Dict String
  pub content_source : Option ContentSource

-- csi.Volume
pub record CsiVolume : Type 0 where
  pub volume_id : String
  pub capacity_bytes : ℕ
  pub volume_context : Dict String
  pub content_source : Option ContentSource

-- A handler runs on the service's state, and leaves another.
abbrev pub Handler : Type 0 → Type 0
Handler A = ControllerService → Trace → ControllerService × Outcome A

-- A handler that leaves the state as it is.
abbrev pub stay : {A : Type 0} → Io A → Handler A
stay m d t = (d, m t)

abbrev pub aborted : Failure
aborted = Failure.status Code.aborted "An operation with the given id already exists"

-- A handler under the lock of a name. `defer` releases the name whatever the body does; the state
-- behind a run that is hung has no meaning.
unfoldable pub locked : {A : Type 0} → String → Handler A → Handler A
unfolding try_acquire release
locked id body d t =
    let acquired = try_acquire id d.snap_locks in
    if acquired.0
    then (let r = body (record d { snap_locks = acquired.1 }) t in
        (record r.0 { snap_locks = release id r.0.snap_locks }, r.1))
    else (record d { snap_locks = acquired.1 }, fails aborted t)

abbrev invalid : String → Failure
invalid text = Failure.status Code.invalid_argument text

-- A handler after the check that a name is not empty.
abbrev pub named : {A : Type 0} → String → String → Handler A → Handler A
named id text body d t = if id == "" then (d, fails (invalid text) t) else body d t

-- `capa, ok := d.vols[req.Name]; ok && capa < requiredCap`
unfoldable pub is_smaller : ControllerService → CreateVolumeRequest → Bool
unfolding lookup
is_smaller d req = elim (lookup req.name d.vols) [
  | none ↦ false
  | some size ↦ ltb size req.required_bytes
]

module _ (sys : System) (codec : Codec) (cfg : Config) (fuel : Fuel) where
  -- The directory of a new volume, by its source.
  unfoldable pub make_volume : Jfs → CreateVolumeRequest → String → Io (Unit {0})
  make_volume fs req qos =
      on_option req.content_source
        (do create_vol sys codec fs req.name req.required_bytes qos; pure tt)
        λ source. elim source [
          | snapshot_source id ↦ (do
            create_vol_from sys codec fs req.name id req.required_bytes qos
            pure tt)
          | volume_source id ↦ (do
            create_vol_from sys codec fs req.name id req.required_bytes qos
            pure tt)
          | other_content ↦ pure tt
        ]

  -- CreateVolume behind the record of the size
  unfoldable pub provision : CreateVolumeRequest → Io CsiVolume
  unfolding parse_qos_params insert
  provision req = do
    fs ←
        or_internal (jfs_mount sys cfg fuel req.name "" req.secrets [] [] false)
          "Could not mount juicefs"
    or_internal (make_volume fs req (parse_qos_params req.parameters)) "Could not create volume"
    or_internal (jfs_unmount sys fs.mount_path) "Could not unmount volume"
    pure (record {
      volume_id = req.name;
      capacity_bytes = req.required_bytes;
      volume_context = insert "subPath" req.name req.parameters;
      content_source = req.content_source;
    })

  -- CreateVolume under the lock
  unfoldable pub create_locked : CreateVolumeRequest → Handler CsiVolume
  unfolding is_smaller insert
  create_locked req d t =
      if is_smaller d req
      then (d, fails (Failure.status Code.already_exists_code "Volume") t)
      else (record d { vols = insert req.name req.required_bytes d.vols }, provision req t)

  -- CreateVolume
  unfoldable pub create_volume : CreateVolumeRequest → Handler CsiVolume
  create_volume req = named req.name "Volume Name cannot be empty" λ d t.
      if req.has_capabilities
      then locked req.name (create_locked req) d t
      else (d, fails (invalid "Volume Capabilities cannot be empty") t)

  -- DeleteVolume before the record of the size is dropped, and behind that
  unfoldable pub remove_volume : String → Dict String → Io Jfs
  remove_volume volume_id secrets = do
    fs ←
        or_internal (jfs_mount sys cfg fuel volume_id "" secrets [] [] false)
          "Could not mount juicefs"
    or_internal (delete_vol sys codec fs volume_id) "Could not delete volume"
    pure fs

  unfoldable pub unmount_after : Jfs → Io (Unit {0})
  unmount_after fs = or_internal (jfs_unmount sys fs.mount_path) "Could not unmount volume"

  -- The state and the answer of DeleteVolume, by what became of the volume's directory.
  unfoldable pub forget :
      String → ControllerService → Outcome Jfs → ControllerService × Outcome (Unit {0})
  unfolding erase
  forget volume_id d (done fs t) = (record d { vols = erase volume_id d.vols }, unmount_after fs t)
  forget volume_id d (Outcome.fails e t) = (d, fails e t)
  forget volume_id d (Outcome.panics s t) = (d, Outcome.panics s t)
  forget volume_id d (Outcome.hung t) = (d, Outcome.hung t)

  -- DeleteVolume
  unfoldable pub delete_volume : String → Dict String → Handler (Unit {0})
  delete_volume volume_id secrets =
      named volume_id "Volume ID not provided"
        (locked volume_id (λ d t. forget volume_id d (remove_volume volume_id secrets t)))

  -- CreateSnapshot, which answers with the name of the snapshot's directory
  unfoldable pub create_snapshot : String → String → Dict String → Handler String
  create_snapshot volume_id name secrets = named volume_id "Volume ID not provided" (
      locked name (
        stay (do
          fs ←
              or_internal (jfs_mount sys cfg fuel volume_id "" secrets [] [] false)
                "Could not mount juicefs"
          dir ← or_internal (create_snap sys fs volume_id name) "Could not CreateSnap volume"
          unmount_after fs
          pure dir)))

  -- DeleteSnapshot
  unfoldable pub delete_snapshot : String → Dict String → Handler (Unit {0})
  delete_snapshot snap_id secrets = named snap_id "snapID ID not provided" (
      locked snap_id (
        stay (do
          fs ←
              or_internal (jfs_mount sys cfg fuel snap_id "" secrets [] [] false)
                "Could not mount juicefs"
          or_internal (delete_snap sys fs snap_id) "Could not delete snapshot"
          unmount_after fs)))

  -- ControllerExpandVolume under the lock
  unfoldable pub expand : String → ℕ → Dict String → Io ℕ
  expand volume_id required_bytes secrets = do
    setting ← lift (parse_setting sys secrets [] false)
    console ← get_console sys setting secrets
    quota ← get_quota sys codec console setting.name ("/" <> volume_id)
    on_option quota
        (create_quota sys codec console setting.name ("/" <> volume_id) 0 required_bytes)
        (λ q. update_quota sys codec console (record q { size = required_bytes }))
    pure required_bytes

  -- ControllerExpandVolume
  unfoldable pub controller_expand_volume : String → Option ℕ → Dict String → Handler ℕ
  controller_expand_volume volume_id capacity secrets =
      named volume_id "volume ID cannot be empty" λ d t. elim capacity [
        | none ↦ (d, fails (invalid "capacityRange cannot be empty") t)
        | some required_bytes ↦
            locked volume_id (stay (expand volume_id required_bytes secrets)) d t
      ]
