-- ===== src/Tests.antt =====
-- A small system to run the code on, and the theorems at concrete inputs.
pub mod Managing
pub mod Mounting
pub mod Polling
pub mod Promises
pub mod Reconciling
pub mod Serving
pub mod Counting
pub mod Sharing
pub mod Creating
pub mod Starting
pub mod Warming
use dfs_csi.Prelude.{ℕ, String, Bool, true, false, Option, none, some, List, [], ◌∷◌, ◌<>◌}
use dfs_csi.Prelude.Dict.{Dict}
use dfs_csi.Prelude.Int.{ℤ, pos}
use dfs_csi.Config.{Config, finalizer, delete_delay_time_key}
use dfs_csi.Kube.{
  PersistentVolumeClaim, Cache, Pod, Phase, Condition, ConditionStatus, ConditionType, Container,
}
use dfs_csi.Util.Patches.{get_reference_key}
use dfs_csi.Controller.MountInfo.{MountInfoTable}
use dfs_csi.Mount.Wait.{Fuel}
use dfs_csi.Juicefs.ConsoleApi.{Codec}
use dfs_csi.System.{System, Failure, Result, ok, err, FileInfo, MountInfo, Output}

abbrev pub file_of : FileInfo
file_of = record { ino = 1; perm = 0o755 }

abbrev pub no_output : Output
no_output = record { text = ""; error = none }

abbrev pub bound : PersistentVolumeClaim
bound = record { storage_class_name = some "class"; volume_name = "pv" }

abbrev pub cache : Cache
cache = record {
  name = "cache";
  namespace = "ns";
  deleting = false;
  pvc_name = "claim";
  path = "data";
  cached = false;
  message = "";
}

-- A system where each call succeeds, that has one pod, one mount table and one answer to a patch.
abbrev pub system : Pod → List MountInfo → Result (Unit {0}) → System
system pod mounts patched = record {
  get_pod = λ t name ns. ok pod;
  create_pod = λ t p. ok p;
  patch_pod = λ t p c. patched;
  delete_pod = λ t p. ok tt;
  get_volume = λ t name. err Failure.not_found;
  list_volumes = λ t. ok [];
  list_pods = λ t ns. ok [];
  get_claim = λ t ns name. ok bound;
  get_cache = λ t ns name. ok cache;
  delete_cache = λ t c. ok tt;
  update_status = λ t c. ok tt;
  exec = λ t ns pod args. ok tt;
  kubelet_get = λ t url. ok "";
  new_client = λ t. ok tt;
  manage = λ t c. ok tt;
  home_dir = λ t. ok "/root";
  serve = λ t scheme addr. ok tt;
  read_file = λ t path. ok "";
  unmarshal_pods = λ s. ok [];
  error_text = λ e. "failed";
  parse_url = λ s. ok ("unix", "", s);
  get_log = λ t p c. ok "";
  stat = λ t path. ok file_of;
  path_exists = λ t path. ok true;
  mkdir_all = λ t path m. ok tt;
  chmod = λ t path m. ok tt;
  remove = λ t path. ok tt;
  write_file = λ t path s. ok tt;
  parse_mount_info = λ t. ok mounts;
  not_mount_point = λ t path. ok false;
  mount = λ t source target fstype options. ok tt;
  unmount = λ t target. ok tt;
  cleanup_mount_point = λ t target. ok tt;
  is_corrupted = λ e. false;
  command = λ t args env. no_output;
  getenv = λ name. none;
  http = λ t req. ok (record { status_code = 200; body = ok "" });
  now = λ t. pos 100;
  expired = λ t. none;
  parse_duration = λ s. ok (pos 30);
  format_time = λ x. "later";
  parse_time = λ s. ok (pos 130);
  sha256_hex = λ s. s;
  unmarshal_yaml = λ s. ok [];
  unmarshal_json = λ s. ok [];
  parse_quantity = λ s. ok s;
  parse_url_host = λ s. ok s;
}

abbrev pub config : Config
config = record {
  node_name = "node";
  namespace = "kube-system";
  mount_image = "image";
  mount_point_path = "/var/lib/mosfs/volume";
  jfs_config_path = "/var/lib/mosfs/config";
}

-- The target of a pod with the given uid.
abbrev pub target_of : String → String
target_of uid = "/pods/" <> (uid <> "/volumes/kubernetes.io~csi/pv/mount")

abbrev pub mount_container : Container
mount_container = record {
  name = "jfs-mount";
  image = "image";
  command = "sh" ∷ "-c" ∷ "/sbin/mount.juicefs source /mosfs/vol -o foreground" ∷ [];
  privileged = true;
  ports = [];
  pre_stop = [];
  requests = ("cpu", "1") ∷ [];
  limits = [];
  env = [];
  volume_mounts = [];
}

abbrev pub is_met : ConditionType → Condition
is_met type = record {
  status = ConditionStatus.condition_true;
  type = type;
  reason = "";
  message = "";
}

-- A running mount pod with the given annotations.
abbrev pub mount_pod : Dict String → Pod
mount_pod annotations = record {
  name = "mosfs-node-vol";
  namespace = "kube-system";
  uid = "u";
  labels = [];
  annotations = annotations;
  finalizers = finalizer ∷ [];
  deleting = false;
  spec = record {
    containers = mount_container ∷ [];
    volumes = [];
    node_name = "node";
    node_selector = [];
    restart_policy = "Never";
  };
  phase = Phase.running;
  reason = "";
  message = "";
  conditions = is_met ConditionType.containers_ready ∷ is_met ConditionType.pod_ready ∷ [];
  init_statuses = [];
  statuses = [];
}

abbrev pub mount_line : String → ℕ → MountInfo
mount_line path minor = record { mount_point = path; root = "/"; minor = minor }

abbrev pub with_delay : Pod
with_delay = mount_pod ((delete_delay_time_key, "30s") ∷ [])

-- Decoders that find nothing.
abbrev pub codec : Codec
codec = record {
  volumes = λ s. ok [];
  quotas = λ s. ok [];
  acls = λ s. ok [];
  new_quota = λ q. "";
  quota = λ q. "";
  update_body = λ b. "";
}

abbrev pub bare : Pod
bare = mount_pod []

abbrev pub calm : System
calm = system bare [] (ok tt)

abbrev pub delayed : System
delayed = system with_delay [] (ok tt)

abbrev pub broken : System
broken = system bare [] (err (Failure.message "patch failed"))

abbrev pub ref_a : System → String
ref_a sys = get_reference_key sys (target_of "a")

abbrev pub table : MountInfoTable
table = record {
  mis = mount_line "/t" 1 ∷ mount_line "/u" 2 ∷ mount_line "/t" 3 ∷ [];
  deleted_pods = ("a", false) ∷ [];
}

-- A mount pod with a reference of the pod `a`, which the table has, and one of a pod that is gone.
abbrev pub two_refs : Pod
two_refs =
    mount_pod
      ((ref_a calm, target_of "a") ∷ (get_reference_key calm (target_of "b"), target_of "b") ∷ [])

abbrev pub fuel : Fuel
fuel = record { retries = 1; checks = 1 }
