-- ===== src/Tests/Serving.antt =====
-- The CSI services and the console at concrete inputs.
use dfs_csi.Strings.{join_path}
use dfs_csi.Config.Setting.{no_setting}
use dfs_csi.Juicefs.{Jfs, create_vol}
use dfs_csi.Juicefs.Modes.{Opens, create_vol-Opens}
use dfs_csi.Prelude.{ℕ, ◌≡◌, refl, true, false, none, some, [], ◌∷◌, arith}
use dfs_csi.System.{Code, System, Event, Failure, ok}
use dfs_csi.System.Io.{fails, done}
use dfs_csi.Util.Locks.{try_acquire}
use dfs_csi.Util.Locks.Exclusion.{
  State, initial, acquired, Reach, start, next, IsExclusive, Reach-IsExclusive,
}
use dfs_csi.Driver.Node.{check_bind_and_mount}
use dfs_csi.Driver.Node.Bind.{check_bind_and_mount_lem}
use dfs_csi.Driver.Controller.{
  ControllerService, CreateVolumeRequest, is_smaller, create_volume, delete_volume, create_snapshot,
  delete_snapshot, controller_expand_volume,
}
use dfs_csi.Driver.Controller.Releases.{LeavesLocks, handlers-LeavesLocks}
use dfs_csi.Driver.Controller.Sizes.{IsAdmitted, create_volume-larger}
use dfs_csi.Tests.{bare, calm, fuel, system, config, mount_line, codec}

-- The mount path has minor 1 and the target 2, but the last line has minor 1.
abbrev lines : System
lines = system bare (mount_line "/mosfs/vol" 1 ∷ mount_line "/t" 2 ∷ mount_line "/x" 1 ∷ []) (ok tt)

check_bind_and_mount_lem_example :
    check_bind_and_mount lines "/mosfs/vol" "/mosfs/vol/d" "/t" []
    ≡ done tt (
        Event.read_mounts
          (ok (mount_line "/mosfs/vol" 1 ∷ mount_line "/t" 2 ∷ mount_line "/x" 1 ∷ []))
        ∷ [])
check_bind_and_mount_lem_example =
    check_bind_and_mount_lem lines "/mosfs/vol" "/mosfs/vol/d" "/t" []
      (mount_line "/mosfs/vol" 1 ∷ mount_line "/t" 2 ∷ mount_line "/x" 1 ∷ []) refl

abbrev one_op : State
one_op = record { locks = (try_acquire "v" initial.locks).1; holders = (4, "v") ∷ [] }

one_op-Reach : Reach one_op
unfolding try_acquire
one_op-Reach = next start (acquired initial 4 "v" refl)

Reach-IsExclusive_example : IsExclusive one_op
Reach-IsExclusive_example = Reach-IsExclusive one_op-Reach

abbrev request_of : ℕ → CreateVolumeRequest
request_of size = record {
  name = "v";
  has_capabilities = true;
  required_bytes = size;
  parameters = [];
  secrets = ("name", "fs") ∷ [];
  content_source = none;
}

handlers-LeavesLocks_example :
    LeavesLocks (create_volume calm codec config fuel (request_of 5))
    × LeavesLocks (delete_volume calm codec config fuel "v" [])
    × LeavesLocks (create_snapshot calm codec config fuel "v" "s" [])
    × LeavesLocks (delete_snapshot calm codec config fuel "v" [])
    × LeavesLocks (controller_expand_volume calm codec config fuel "v" (some 9) [])
handlers-LeavesLocks_example =
    handlers-LeavesLocks calm codec config fuel (request_of 5) "v" "s" (some 9) []

abbrev fresh : ControllerService
fresh = record { vols = []; snap_locks = [] }

fresh-IsAdmitted : IsAdmitted fresh (request_of 5)
fresh-IsAdmitted = record { named = refl; capable = refl; free = refl }

fresh-fits : is_smaller fresh (request_of 5) ≡ false
unfolding is_smaller
fresh-fits = refl

create_volume-larger_example :
    (create_volume calm codec config fuel
      (request_of 6)
      (create_volume calm codec config fuel (request_of 5) fresh []).0
      []).1
    ≡ fails (Failure.status Code.already_exists_code "Volume") []
create_volume-larger_example =
    create_volume-larger calm codec config fuel (request_of 5) (request_of 6) fresh [] []
      fresh-IsAdmitted fresh-fits refl refl (omega arith)

abbrev mounted_fs : Jfs
mounted_fs = record {
  console = record { addr = "console"; token = "t" };
  name = "fs";
  mount_path = "/mosfs/vol";
  setting = no_setting;
}

create_vol-Opens_example :
    Opens (join_path "/mosfs/vol" "d") (create_vol calm codec mounted_fs "d" 0 "" [])
create_vol-Opens_example = create_vol-Opens calm codec mounted_fs "d" []
