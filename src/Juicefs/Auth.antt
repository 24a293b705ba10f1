-- ===== src/Juicefs/Auth.antt =====
-- pkg/juicefs/juicefs.go: the commands that authenticate and format a file system.
use dfs_csi.Prelude.{
  String, ◌<>◌, Bool, true, false, not, ◌||◌, List, [], ◌∷◌, ◌++◌, ◌==◌, none, some, is_empty,
  if◌then◌else◌,
}
use dfs_csi.Prelude.Dict.{Dict, value_of}
use dfs_csi.Strings.{join_path}
use dfs_csi.Config.{cli_path, ce_cli_path}
use dfs_csi.System.{System, Code, Failure, Output, is_not_exist}
use dfs_csi.System.Io.{
  Io, pure, fail, attempt, stat, write_file, command, ◌>>=◌, ◌>>◌, on_result, branch,
}
use dfs_csi.Juicefs.{or_internal}

abbrev invalid : String → Failure
invalid text = Failure.status Code.invalid_argument text

-- The options of a list of keys, each with whether it may be left out.
unfoldable pub options_of : Dict String → List (String × Bool) → List String
unfolding value_of
options_of secrets [] = []
options_of secrets ((k, optional) ∷ keys) =
    let rest = options_of secrets keys in
    if not optional || not (value_of secrets k == "")
    then ("--" <> (k <> ("=" <> value_of secrets k))) ∷ rest
    else rest

-- The keys of AuthFs and of ceFormat, in their order.
abbrev pub auth_keys : List (String × Bool)
auth_keys =
    ("accesskey", false)
    ∷ ("accesskey2", true)
    ∷ ("bucket", true)
    ∷ ("bucket2", true)
    ∷ ("token", false)
    ∷ ("secretkey", false)
    ∷ ("secretkey2", true)
    ∷ ("passphrase", true)
    ∷ []

abbrev pub format_keys : List (String × Bool)
format_keys =
    ("storage", false)
    ∷ ("bucket", false)
    ∷ ("access-key", false)
    ∷ ("block-size", true)
    ∷ ("compress", true)
    ∷ ("secret-key", false)
    ∷ []

module _ (sys : System) where
  -- `v, ok := os.LookupEnv(name); ok && v == "enabled"`
  unfoldable pub is_enabled : String → Bool
  is_enabled name = elim (sys.getenv name) [ none ↦ false | some v ↦ v == "enabled" ]

  -- The configuration file of AuthFs, which is written if it is not there.
  unfoldable pub write_config : String → String → Io (Unit {0})
  write_config path text = do
    r ← attempt (stat sys path)
    on_result r (λ _. pure tt)
        (λ e.
          branch (is_not_exist e)
            (or_internal (write_file sys path text) "Create config file failed") (pure tt))

  -- The checks of AuthFs where JFS_NO_UPDATE_CONFIG is set.
  unfoldable pub check_config : Dict String → Io (Unit {0})
  unfolding value_of join_path
  check_config secrets =
      branch (value_of secrets "bucket" == "")
        (fail (invalid "bucket argument is required when --no-update option is provided"))
        (branch (value_of secrets "initconfig" == "") (pure tt) (
          write_config (join_path "/root/.juicefs" (value_of secrets "name" <> ".conf"))
            (value_of secrets "initconfig")))

  -- AuthFs
  unfoldable pub auth_fs : Dict String → Dict String → Io Output
  unfolding value_of options_of is_enabled
  auth_fs secrets envs = branch (is_empty secrets) (fail (invalid "Nil secrets")) (
      branch (value_of secrets "name" == "") (fail (invalid "Empty name")) (do
        branch (is_enabled "JFS_NO_UPDATE_CONFIG") (check_config secrets) (pure tt)
        command sys
            (cli_path ∷ "auth" ∷ value_of secrets "name" ∷ options_of secrets auth_keys
              ++ (if is_enabled "JFS_NO_UPDATE_CONFIG" then "--no-update" ∷ [] else []))
            envs))

  -- The variable that ceFormat sets.
  unfoldable pub format_env : String → Dict String
  format_env storage =
      if storage == "ceph" || storage == "gs" then ("JFS_NO_CHECK_OBJECT_STORAGE", "1") ∷ [] else []

  -- ceFormat. The variable that it sets for the process is passed to its own command only.
  unfoldable pub ce_format : Dict String → Bool → Io Output
  unfolding value_of options_of format_env
  ce_format secrets no_update = branch (is_empty secrets) (fail (invalid "Nil secrets")) (
      branch (value_of secrets "name" == "") (fail (invalid "Empty name")) (
        branch (value_of secrets "metaurl" == "") (fail (invalid "Empty metaurl")) (
          command sys
            (ce_cli_path ∷ "format" ∷ (if no_update then "--no-update" ∷ [] else [])
              ++ options_of secrets format_keys
              ++ value_of secrets "metaurl" ∷ value_of secrets "name" ∷ [])
            (format_env (value_of secrets "storage")))))
