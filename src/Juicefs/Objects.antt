-- ===== src/Juicefs/Objects.antt =====
-- What the file system provider and the node service do beside the mount pod changes no object of the API
-- server.
use dfs_csi.Prelude.{ℕ, zero, suc, String, List}
use dfs_csi.Prelude.Dict.{Dict}
use dfs_csi.Config.Setting.{JfsSetting}
use dfs_csi.System.{System, Trace, Request}
use dfs_csi.System.Keeps.{
  Keeps, Keeps-bind, Keeps-then, Keeps-branch, Keeps-pure, Ignores, keeps_rules,
}
use dfs_csi.Mount.Process
use dfs_csi.Mount.Process.{ensure_dir, clear_mount, wait_mounted}
use dfs_csi.Juicefs.{Jfs, get_unique_id, open_mode, set_limits, create_vol}
use dfs_csi.Juicefs.Auth.{write_config, check_config, auth_fs, ce_format}
use dfs_csi.Juicefs.Http.{run_http_request_raw}
use dfs_csi.Juicefs.ConsoleApi.{
  Codec, Console, get_volumes, volume, get_quotas, create_quota, get_quota, delete_quota,
  get_acl_list, update_qos, set_qos,
}
use dfs_csi.Juicefs.Mounting.{get_console, upgrade, auth_source, format_source}

module _ {ℓ} (sys : System) (P : Trace → Type ℓ) (ig : Ignores P) where
  pub get_unique_id-Keeps : (volume_id : String) → Keeps P (get_unique_id sys volume_id)
  unfolding get_unique_id
  get_unique_id-Keeps volume_id = search (keeps_rules, ig) depth 8

  pub get_console-Keeps :
      (setting : JfsSetting) (secrets : Dict String) → Keeps P (get_console sys setting secrets)
  unfolding get_console
  get_console-Keeps setting secrets = search (keeps_rules) depth 8

  write_config-Keeps : (path text : String) → Keeps P (write_config sys path text)
  unfolding write_config
  write_config-Keeps path text = search (keeps_rules, ig) depth 10

  auth_fs-Keeps : (secrets envs : Dict String) → Keeps P (auth_fs sys secrets envs)
  unfolding auth_fs check_config
  auth_fs-Keeps secrets envs = search (keeps_rules, ig, write_config-Keeps) depth 10

  pub auth_source-Keeps :
      (secrets : Dict String) (setting : JfsSetting) → Keeps P (auth_source sys secrets setting)
  unfolding auth_source upgrade
  auth_source-Keeps secrets setting = search (keeps_rules, ig, auth_fs-Keeps) depth 12

  pub format_source-Keeps :
      (secrets : Dict String) (source : String) → Keeps P (format_source sys secrets source)
  unfolding format_source ce_format
  format_source-Keeps secrets source = search (keeps_rules, ig) depth 14

  wait_mounted-Keeps : (path : String) (rounds : ℕ) → Keeps P (wait_mounted sys path rounds)
  unfolding wait_mounted
  wait_mounted-Keeps path zero = search (keeps_rules)
  wait_mounted-Keeps path (suc rounds) = Keeps-bind _ _ (search (keeps_rules, ig) depth 8) λ info.
      Keeps-branch _ _ _ (λ _. Keeps-pure tt)
        λ _. Keeps-then _ _ (search (keeps_rules, ig)) (wait_mounted-Keeps path rounds)

  pub process-Keeps :
      (setting : JfsSetting) (storage path : String) (options : List String)
      → Keeps P (Process.j_mount sys setting storage path options)
  unfolding Process.j_mount ensure_dir clear_mount
  process-Keeps setting storage path options = search (keeps_rules, ig, wait_mounted-Keeps) depth 12

  request-Keeps : (req : Request) → Keeps P (run_http_request_raw sys req)
  unfolding run_http_request_raw
  request-Keeps req = search (keeps_rules, ig) depth 8

  module _ (codec : Codec) (cs : Console) where
    volume-Keeps : (name : String) → Keeps P (volume sys codec cs name)
    unfolding volume get_volumes
    volume-Keeps name = search (keeps_rules, request-Keeps) depth 8

    create_quota-Keeps :
        (name path : String) (inodes size : ℕ)
        → Keeps P (create_quota sys codec cs name path inodes size)
    unfolding create_quota
    create_quota-Keeps name path inodes size = search (keeps_rules, request-Keeps, volume-Keeps)

    delete_quota-Keeps : (name path : String) → Keeps P (delete_quota sys codec cs name path)
    unfolding delete_quota get_quota get_quotas
    delete_quota-Keeps name path = search (keeps_rules, request-Keeps, volume-Keeps) depth 10

    set_qos-Keeps : (name qos : String) → Keeps P (set_qos sys codec cs name qos)
    unfolding set_qos get_acl_list update_qos
    set_qos-Keeps name qos = search (keeps_rules, request-Keeps, volume-Keeps) depth 12

  module _ (codec : Codec) (fs : Jfs) where
    pub create_vol-Keeps :
        (sub_path : String) (size : ℕ) (qos : String)
        → Keeps P (create_vol sys codec fs sub_path size qos)
    unfolding create_vol open_mode set_limits
    create_vol-Keeps sub_path size qos =
        search (keeps_rules, ig, create_quota-Keeps, delete_quota-Keeps, set_qos-Keeps) depth 14
