-- ===== src/Tests/Creating.antt =====
-- A volume that the controller service creates, at a concrete input.
use dfs_csi.Prelude.{◌≡◌, refl, true, false, none, [], ◌∷◌}
use dfs_csi.System.{System, Trace, ok}
use dfs_csi.System.Io.{
  done, do_with_timeout, stat, chmod, http, path_exists, mount, unmount, cleanup_mount_point,
  branch, ◌>>=◌, ◌>>◌,
}
use dfs_csi.Util.Locks.{try_acquire, release}
use dfs_csi.Mount.Process.{j_mount}
use dfs_csi.Juicefs.{get_unique_id, create_vol, open_mode, set_limits, jfs_unmount}
use dfs_csi.Juicefs.Http.{run_http_request_raw}
use dfs_csi.Juicefs.ConsoleApi.{
  Codec, volume, get_volumes, get_quotas, get_quota, delete_quota, create_quota, get_acl_list,
  update_qos, set_qos,
}
use dfs_csi.Juicefs.Mounting.{get_console, auth_source, upgrade, mount_fs, jfs_mount}
use dfs_csi.Driver.Controller.{
  ControllerService, CreateVolumeRequest, CsiVolume, locked, is_smaller, make_volume, provision,
  create_locked, create_volume,
}
use dfs_csi.Driver.Controller.Created.{IsCreated, create_volume-IsCreated}
use dfs_csi.Tests.{calm, codec, config, fuel}

-- A system whose API server is not asked and whose secrets can be read.
abbrev readable : System
readable = record calm { unmarshal_yaml = λ s. ok (("BASE_URL", "http://console") ∷ []) }

-- A console that knows the file system and its default rule.
abbrev knowing : Codec
knowing = record codec {
  volumes = λ s. ok (record { id = 1; name = "fs"; size = 100 } ∷ []);
  acls = λ s. ok (
      record {
        id = 2;
        desc = "default";
        iprange = "*";
        apionly = false;
        readonly = false;
        appendonly = false;
        token = "";
        qos = "";
        extend = "";
      }
      ∷ []);
}

abbrev unused : ControllerService
unused = record { vols = []; snap_locks = "other" ∷ [] }

abbrev wanted : CreateVolumeRequest
wanted = record {
  name = "pvc-1";
  has_capabilities = true;
  required_bytes = 10;
  parameters = ("path", "x") ∷ [];
  secrets = ("name", "fs") ∷ ("envs", "{}") ∷ ("consoleToken", "token") ∷ [];
  content_source = none;
}

created :
    (v : CsiVolume) × (u : Trace) × ((create_volume readable knowing config fuel wanted unused []).1
      ≡ done v u)
unfolding create_volume locked try_acquire release create_locked is_smaller provision make_volume
    jfs_mount get_unique_id get_console auth_source upgrade mount_fs j_mount mount create_vol
    path_exists open_mode stat chmod set_limits jfs_unmount unmount cleanup_mount_point
    do_with_timeout branch volume get_volumes get_quotas get_quota delete_quota create_quota
    get_acl_list update_qos set_qos run_http_request_raw http ◌>>=◌ ◌>>◌
created = (_, _, refl)

create_volume-IsCreated_example :
    IsCreated readable knowing config fuel wanted unused created.0 [] created.1
create_volume-IsCreated_example =
    create_volume-IsCreated readable knowing config fuel wanted unused created.0 [] created.1
      created.2
