-- ===== src/Driver/Controller/Releases.antt =====
-- The handlers of the controller service release what they lock.
use dfs_csi.Prelude.{ℕ, ◌≡◌, refl, String, Option, none, some, ◌∷◌, eq_iff, arith}
use dfs_csi.Prelude.Dict.{Dict}
use dfs_csi.Config.{Config}
use dfs_csi.System.{System, Trace}
use dfs_csi.System.Io.{Outcome, done, fails, panics, hung}
use dfs_csi.Util.Locks.{has, try_acquire}
use dfs_csi.Util.Locks.Exclusion.{has-release}
use dfs_csi.Mount.Wait.{Fuel}
use dfs_csi.Juicefs.{Jfs}
use dfs_csi.Juicefs.ConsoleApi.{Codec}
use dfs_csi.Driver.Controller.{
  ControllerService, CreateVolumeRequest, Handler, named, locked, create_locked, create_volume,
  forget, delete_volume, create_snapshot, delete_snapshot, controller_expand_volume,
}

-- The handler leaves each name locked that was, and no other.
abbrev pub LeavesLocks : {A : Type 0} → Handler A → Type 0
LeavesLocks h =
    (d : ControllerService) (t : Trace) (j : String)
    → has (h d t).0.snap_locks j ≡ has d.snap_locks j

module _ {A : Type 0} where
  locked-LeavesLocks :
      (id : String) (body : Handler A)
      → ((d : ControllerService) (t : Trace) → (body d t).0.snap_locks ≡ d.snap_locks)
      → LeavesLocks (locked id body)
  unfolding locked try_acquire
  locked-LeavesLocks id body same d t j = ground (
    arith,
    same (record d { snap_locks = id ∷ d.snap_locks }) t,
    has-release id j (id ∷ d.snap_locks),
    eq_iff id j,
  )

  named-LeavesLocks :
      (id text : String) (body : Handler A) → LeavesLocks body → LeavesLocks (named id text body)
  named-LeavesLocks id text body leaves d t j = ground (arith, leaves d t j)

module _ (sys : System) (codec : Codec) (cfg : Config) (fuel : Fuel) where
  forget-locks :
      (volume_id : String) (d : ControllerService) (o : Outcome Jfs)
      → (forget sys codec cfg fuel volume_id d o).0.snap_locks ≡ d.snap_locks
  unfolding forget
  forget-locks volume_id d (done fs t) = refl
  forget-locks volume_id d (fails e t) = refl
  forget-locks volume_id d (panics s t) = refl
  forget-locks volume_id d (hung t) = refl

  create_locked-locks :
      (req : CreateVolumeRequest) (d : ControllerService) (t : Trace)
      → (create_locked sys codec cfg fuel req d t).0.snap_locks ≡ d.snap_locks
  unfolding create_locked
  create_locked-locks req d t = ground arith

  create_volume-LeavesLocks :
      (req : CreateVolumeRequest) → LeavesLocks (create_volume sys codec cfg fuel req)
  unfolding create_volume
  create_volume-LeavesLocks req d t j = ground (
    arith,
    locked-LeavesLocks req.name (create_locked sys codec cfg fuel req) (create_locked-locks req) d t
        j,
  )

  delete_volume-LeavesLocks :
      (volume_id : String) (secrets : Dict String)
      → LeavesLocks (delete_volume sys codec cfg fuel volume_id secrets)
  unfolding delete_volume
  delete_volume-LeavesLocks volume_id secrets =
      named-LeavesLocks volume_id _ _
        (locked-LeavesLocks volume_id _ (λ d t. forget-locks volume_id d _))

  create_snapshot-LeavesLocks :
      (volume_id name : String) (secrets : Dict String)
      → LeavesLocks (create_snapshot sys codec cfg fuel volume_id name secrets)
  unfolding create_snapshot
  create_snapshot-LeavesLocks volume_id name secrets =
      named-LeavesLocks volume_id _ _ (locked-LeavesLocks name _ (λ d t. refl))

  delete_snapshot-LeavesLocks :
      (snap_id : String) (secrets : Dict String)
      → LeavesLocks (delete_snapshot sys codec cfg fuel snap_id secrets)
  unfolding delete_snapshot
  delete_snapshot-LeavesLocks snap_id secrets =
      named-LeavesLocks snap_id _ _ (locked-LeavesLocks snap_id _ (λ d t. refl))

  expand-LeavesLocks :
      (volume_id : String) (capacity : Option ℕ) (secrets : Dict String)
      → LeavesLocks (controller_expand_volume sys codec cfg fuel volume_id capacity secrets)
  unfolding controller_expand_volume
  expand-LeavesLocks volume_id none secrets = named-LeavesLocks volume_id _ _ (λ d t j. refl)
  expand-LeavesLocks volume_id (some n) secrets =
      named-LeavesLocks volume_id _ _ (locked-LeavesLocks volume_id _ (λ d t. refl))

  -- Each of CreateVolume, DeleteVolume, CreateSnapshot, DeleteSnapshot and ControllerExpandVolume leaves,
  -- whatever its request and its outcome, the names locked that were and no other.
  pub handlers-LeavesLocks :
      (req : CreateVolumeRequest) (id name : String) (capacity : Option ℕ) (secrets : Dict String)
      → LeavesLocks (create_volume sys codec cfg fuel req)
        × LeavesLocks (delete_volume sys codec cfg fuel id secrets)
        × LeavesLocks (create_snapshot sys codec cfg fuel id name secrets)
        × LeavesLocks (delete_snapshot sys codec cfg fuel id secrets)
        × LeavesLocks (controller_expand_volume sys codec cfg fuel id capacity secrets)
  handlers-LeavesLocks req id name capacity secrets = (
    create_volume-LeavesLocks req,
    delete_volume-LeavesLocks id secrets,
    create_snapshot-LeavesLocks id name secrets,
    delete_snapshot-LeavesLocks id secrets,
    expand-LeavesLocks id capacity secrets,
  )
