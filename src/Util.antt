-- ===== src/Util.antt =====
-- pkg/util: util.go and pod.go.
pub mod Status
pub mod Patches
pub mod Paths
pub mod Delay
pub mod Locks
pub mod Endpoint
use dfs_csi.Prelude.{
  ℕ, String, ◌<>◌, Bool, true, false, not, ◌&&◌, ◌||◌, Option, none, some, List, [], ◌∷◌, ◌==◌,
  contains_text, any, if◌then◌else◌,
}
use dfs_csi.Prelude.Dict.{Dict, value_of}
use dfs_csi.Prelude.Int.{pos_part}
use dfs_csi.Strings.{atoi}
use dfs_csi.System.{System, Output}
use dfs_csi.System.Io.{Io, pure, command, ◌>>=◌, ◌>>◌, on_option, branch}

-- ParseQosParams
unfoldable pub parse_qos_params : Dict String → String
unfolding value_of
parse_qos_params params =
    let upload = value_of params "upload-limit" in
    let download = value_of params "download-limit" in
    if upload == "" && download == "" then "0:0" else upload <> (":" <> download)

-- ContainsString
unfoldable pub contains_string : List String → String → Bool
contains_string slice s = any (λ item. item == s) slice

-- The outputs of `umount` that say that there is nothing to unmount.
abbrev pub is_not_mounted : String → Bool
is_not_mounted out =
    contains_text out "not mounted"
    || contains_text out "mountpoint not found"
    || contains_text out "no mount point specified"

module _ (sys : System) where
  -- GetLoopTimeout. A negative number makes no round, as 0 does.
  unfoldable pub get_loop_timeout : ℕ
  unfolding atoi
  get_loop_timeout = elim (sys.getenv "LOOP_TIMEOUT") [
    | none ↦ 60
    | some s ↦ if s == "" then 60 else elim (atoi s) [ none ↦ 60 | some n ↦ pos_part n ]
  ]

  -- UmountPath
  unfoldable pub umount_path : String → Io (Unit {0})
  umount_path path = do
    out ← command sys ("umount" ∷ path ∷ []) []
    on_option out.error (pure tt) (λ e.
        branch (is_not_mounted out.text) (pure tt)
          (do command sys ("umount" ∷ "-l" ∷ path ∷ []) []; pure tt))
