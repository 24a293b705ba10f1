-- ===== src/Juicefs/Mounting.antt =====
-- pkg/juicefs/juicefs.go: JfsMount.
pub mod Seen
use dfs_csi.Prelude.{String, ◌<>◌, Bool, ◌||◌, List, [], ◌∷◌, ◌==◌, contains_text, if◌then◌else◌}
use dfs_csi.Prelude.Dict.{Dict, lookup, value_of}
use dfs_csi.Strings.{join_path}
use dfs_csi.Config.{Config, cli_path, mount_base, pod_mount_base}
use dfs_csi.Config.Setting.{JfsSetting, parse_setting}
use dfs_csi.System.{System, Failure}
use dfs_csi.System.Io.{
  Io, pure, fail, attempt, lift, command, ◌>>=◌, ◌>>◌, on_result, on_option, branch,
}
use dfs_csi.Juicefs.{Jfs, get_unique_id, or_internal, check_output, internal}
use dfs_csi.Juicefs.Auth.{auth_fs, ce_format, is_enabled}
use dfs_csi.Juicefs.ConsoleApi.{Console}
use dfs_csi.Mount
use dfs_csi.Mount.Process
use dfs_csi.Mount.Wait.{Fuel}

module _ (sys : System) where
  -- GetConsole
  unfoldable pub get_console : JfsSetting → Dict String → Io Console
  unfolding lookup
  get_console setting secrets =
      on_option (lookup "BASE_URL" setting.envs) (fail (internal "base url not found")) λ base. do
        host ← lift (sys.parse_url_host base)
        on_option (lookup "consoleToken" secrets) (fail (internal "consoleToken not found"))
            λ token. pure (record { addr = host; token = token })

  -- Upgrade, whose failure is only logged
  unfoldable pub upgrade : Io (Unit {0})
  unfolding is_enabled
  upgrade =
      branch (is_enabled sys "JFS_AUTO_UPGRADE")
        (do command sys (cli_path ∷ "version" ∷ "-u" ∷ []) []; pure tt) (pure tt)

  -- Authentication, without a metaurl. The result is the source of the mount.
  unfoldable pub auth_source : Dict String → JfsSetting → Io String
  unfolding value_of
  auth_source secrets setting = do
    upgrade
    branch (value_of secrets "token" == "") (pure tt) (
        or_internal (do out ← auth_fs sys secrets setting.envs; check_output out)
          "Could not auth juicefs")
    pure (value_of secrets "name")

  -- Formatting, with a metaurl.
  unfoldable pub format_source : Dict String → String → Io String
  unfolding value_of
  format_source secrets source = do
    or_internal
        (do
          out ←
              ce_format sys secrets
                (value_of secrets "storage" == "" || value_of secrets "bucket" == "")
          check_output out)
        "Could not format juicefs"
    pure (if contains_text source "://" then source else "redis://" <> source)

  module _ (cfg : Config) (fuel : Fuel) where
    -- MountFs
    unfoldable pub mount_fs : String → String → List String → JfsSetting → Io String
    unfolding join_path
    mount_fs volume_id target options setting = do
      let mount_path = join_path (if setting.use_pod then pod_mount_base else mount_base) volume_id
      r ← attempt (
          branch setting.use_pod
            (Mount.j_mount sys cfg fuel setting volume_id mount_path target options)
            (Process.j_mount sys setting setting.storage mount_path options))
      on_result r (λ _. pure mount_path) (λ _. fail (Failure.message "could not mount"))

    -- JfsMount
    unfoldable pub jfs_mount :
        String → String → Dict String → Dict String → List String → Bool → Io Jfs
    unfolding parse_setting lookup value_of
    jfs_mount volume_id target secrets ctx options use_pod = do
      unique_id ← get_unique_id sys volume_id
      setting ← lift (parse_setting sys secrets ctx use_pod)
      console ← get_console setting secrets
      source ←
          on_option (lookup "metaurl" secrets) (auth_source secrets setting)
            λ metaurl. format_source secrets metaurl
      mount_path ← mount_fs unique_id target options (record setting { source = source })
      pure (record {
        console = console;
        name = value_of secrets "name";
        mount_path = mount_path;
        setting = record setting { source = source };
      })
