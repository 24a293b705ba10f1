-- ===== src/Driver/Node/Bind.antt =====
-- What checkBindAndMount compares and mounts.
use dfs_csi.Prelude.{
  ℕ, ◌≡◌, refl, String, Bool, not, ◌||◌, Option, none, some, List, [], ◌∷◌, ◌==◌, eqb, any, arith,
  if◌then◌else◌,
}
use dfs_csi.System.{System, Event, Failure, MountInfo, Trace, ok}
use dfs_csi.System.Io.{done, fails, parse_mount_info, ◌>>=◌, ◌>>◌}
use dfs_csi.Util.{umount_path}
use dfs_csi.Driver.Node.{Scan, new_scan, scan, scan_round, bind, check_bind_and_mount}

abbrev pub is_mounted : String → List MountInfo → Bool
is_mounted path infos = any (λ mi. mi.mount_point == path) infos

-- The minor number of the last mount at a path.
abbrev pub minor_at : String → List MountInfo → Option ℕ
minor_at path [] = none
minor_at path (mi ∷ infos) = elim (minor_at path infos) [
  | some m ↦ some m
  | none ↦ if mi.mount_point == path then some mi.minor else none
]

-- The minor number of the last line of the table, which has any mount point.
abbrev pub last_minor : ℕ → List MountInfo → ℕ
last_minor m [] = m
last_minor m (mi ∷ infos) = last_minor mi.minor infos

abbrev or_else : Option ℕ → Option ℕ → Option ℕ
or_else (some m) n = some m
or_else none n = n

mount_minor-scan :
    (path target : String) (s : Scan) (infos : List MountInfo)
    → (scan path target s infos).mount_minor ≡ or_else (minor_at path infos) s.mount_minor
unfolding scan
mount_minor-scan path target s [] = refl
mount_minor-scan path target s (mi ∷ infos) =
    ground (arith, mount_minor-scan path target (scan_round path target s mi) infos)

pub has_target-scan :
    (path target : String) (s : Scan) (infos : List MountInfo)
    → (scan path target s infos).has_target ≡ (is_mounted target infos || s.has_target)
unfolding scan
has_target-scan path target s [] = refl
has_target-scan path target s (mi ∷ infos) =
    ground (arith, has_target-scan path target (scan_round path target s mi) infos)

loop_minor-scan :
    (path target : String) (s : Scan) (infos : List MountInfo)
    → (scan path target s infos).loop_minor ≡ last_minor s.loop_minor infos
unfolding scan
loop_minor-scan path target s [] = refl
loop_minor-scan path target s (mi ∷ infos) =
    loop_minor-scan path target (scan_round path target s mi) infos

-- On a mount table that is read, checkBindAndMount fails if the mount path is not mounted. Otherwise it
-- leaves a target that is mounted as it is exactly when the last line of the table, whatever its mount
-- point, has the minor number of the mount path; it unmounts such a target first if not; and it binds
-- the source at a target that is not mounted.
pub check_bind_and_mount_lem :
    (sys : System) (path source target : String) (t : Trace) (infos : List MountInfo)
    → sys.parse_mount_info t ≡ ok infos
    → check_bind_and_mount sys path source target t ≡ (elim (minor_at path infos) [
      | none ↦
          fails
            (Failure.message "BindTarget: mountPath not mounted")
            (Event.read_mounts (ok infos) ∷ t)
      | some m ↦
          if not (is_mounted target infos)
          then bind sys source target (Event.read_mounts (ok infos) ∷ t)
          else if eqb (last_minor 0 infos) m
          then done tt (Event.read_mounts (ok infos) ∷ t)
          else (umount_path sys target >> bind sys source target) (Event.read_mounts (ok infos) ∷ t)
    ])
unfolding check_bind_and_mount parse_mount_info ◌>>=◌ ◌>>◌
check_bind_and_mount_lem sys path source target t infos h = ground (
  arith,
  mount_minor-scan path target new_scan infos,
  has_target-scan path target new_scan infos,
  loop_minor-scan path target new_scan infos,
)
