-- ===== src/System.antt =====
-- What lies outside the repository: the API server, the kernel, the command line tools, the console
-- and the clock. Each call has the calls made so far and their answers, newest first, as its first
-- argument, so an answer may depend on all that happened before and on what others do meanwhile.
pub mod Io
pub mod Keeps
pub mod Steps
pub mod Returns
pub mod Calls
pub mod Traces
use dfs_csi.Prelude.{ℕ, String, Bool, true, false, Option, none, some, List}
use dfs_csi.Prelude.Dict.{Dict}
use dfs_csi.Prelude.Int.{ℤ}
use dfs_csi.Kube.{Pod, PersistentVolume, PersistentVolumeClaim, Cache, Patch}

-- gRPC codes.
pub data Code : Type 0 where
  invalid_argument aborted already_exists_code not_found_code internal unimplemented : Code

-- Errors: those of the API server and of the kernel that the code tells apart, a gRPC status, and
-- any other. Of a message the fixed text is kept.
pub data Failure : Type 0 where
  not_found conflict already_exists deadline_exceeded canceled : Failure
  not_exist : Failure
  status : Code → String → Failure
  message : String → Failure
  errno : ℕ → Failure

-- k8serrors.IsNotFound, IsConflict and IsAlreadyExists, and os.IsNotExist
abbrev pub is_not_found : Failure → Bool
is_not_found not_found = true
is_not_found _ = false

abbrev pub is_conflict : Failure → Bool
is_conflict conflict = true
is_conflict _ = false

abbrev pub is_already_exists : Failure → Bool
is_already_exists already_exists = true
is_already_exists _ = false

abbrev pub is_not_exist : Failure → Bool
is_not_exist not_exist = true
is_not_exist _ = false

-- Go's pair of a value and an error.
pub data Result {ℓ} (A : Type ℓ) : Type ℓ where
  ok : A → Result A
  err : Failure → Result A

pub record FileInfo : Type 0 where
  pub ino : ℕ
  pub perm : ℕ

-- mount.MountInfo
pub record MountInfo : Type 0 where
  pub mount_point : String
  pub root : String
  pub minor : ℕ

-- The combined output of a command, and its error.
pub record Output : Type 0 where
  pub text : String
  pub error : Option Failure

pub data Method : Type 0 where
  get post put delete : Method

pub record Request : Type 0 where
  pub method : Method
  pub url : String
  pub body : String

-- http.Response: the status, and the body as it was read.
pub record Response : Type 0 where
  pub status_code : ℕ
  pub body : Result String

-- ctrl.Options, with the fields that the managers set. The cache of the manager holds the pods that
-- have the labels.
pub record ManagerOptions : Type 0 where
  pub metrics_bind_address : String
  pub health_probe_bind_address : String
  pub port : ℕ
  pub leader_election : Bool
  pub leader_election_id : String
  pub pod_labels : Dict String

-- The calls of controller-runtime and of client-go that make a manager and what it works with.
pub data ManagerCall : Type 0 where
  get_config : ManagerCall
  new_manager : ManagerOptions → ManagerCall
  new_controller : String → ManagerCall
  watch_pods : ManagerCall
  build_controller : String → ManagerCall
  add_healthz_check : String → ManagerCall
  add_readyz_check : String → ManagerCall
  start_manager : ManagerCall
  in_cluster_config : ManagerCall
  build_config_from_flags : String → ManagerCall
  new_for_config : ManagerCall

pub data Event : Type 0 where
  got_pod : String → String → Result Pod → Event
  created_pod : Pod → Result Pod → Event
  patched_pod : Pod → Patch → Result (Unit {0}) → Event
  deleted_pod : Pod → Result (Unit {0}) → Event
  got_volume : String → Result PersistentVolume → Event
  listed_volumes : Result (List PersistentVolume) → Event
  listed_pods : String → Result (List Pod) → Event
  got_log : String → String → Result String → Event
  statted : String → Result FileInfo → Event
  checked_path : String → Result Bool → Event
  made_dir : String → ℕ → Result (Unit {0}) → Event
  changed_mode : String → ℕ → Result (Unit {0}) → Event
  removed_file : String → Result (Unit {0}) → Event
  wrote_file : String → String → Result (Unit {0}) → Event
  read_mounts : Result (List MountInfo) → Event
  checked_mount : String → Result Bool → Event
  mounted : String → String → String → List String → Result (Unit {0}) → Event
  unmounted : String → Result (Unit {0}) → Event
  cleaned_mount : String → Result (Unit {0}) → Event
  ran : List String → Dict String → Output → Event
  started : List String → Dict String → Event
  requested : Request → Result Response → Event
  read_clock : ℤ → Event
  timer : Option Failure → Event
  slept : Event
  got_claim : String → String → Result PersistentVolumeClaim → Event
  got_cache : String → String → Result Cache → Event
  deleted_cache : Cache → Result (Unit {0}) → Event
  updated_status : Cache → Result (Unit {0}) → Event
  executed : String → String → List String → Result (Unit {0}) → Event
  read_file : String → Result String → Event
  got_kubelet : String → Result String → Event
  made_client : Result (Unit {0}) → Event
  served : String → String → Result (Unit {0}) → Event
  managed : ManagerCall → Result (Unit {0}) → Event
  looked_home : Result String → Event

abbrev pub Trace : Type 0
Trace = List Event

pub record System : Type 0 where
  -- the Kubernetes API
  pub get_pod : Trace → String → String → Result Pod
  pub create_pod : Trace → Pod → Result Pod
  pub patch_pod : Trace → Pod → Patch → Result (Unit {0})
  pub delete_pod : Trace → Pod → Result (Unit {0})
  pub get_volume : Trace → String → Result PersistentVolume
  pub list_volumes : Trace → Result (List PersistentVolume)
  pub list_pods : Trace → String → Result (List Pod)
  pub get_log : Trace → String → String → Result String
  -- the API as the cache controller uses it; `exec` runs a command in a pod of a namespace
  pub get_claim : Trace → String → String → Result PersistentVolumeClaim
  pub get_cache : Trace → String → String → Result Cache
  pub delete_cache : Trace → Cache → Result (Unit {0})
  pub update_status : Trace → Cache → Result (Unit {0})
  pub exec : Trace → String → String → List String → Result (Unit {0})
  -- a GET of the kubelet: the body of the answer, whatever its status; and the client of the API
  -- server that the configuration of the pod gives
  pub kubelet_get : Trace → String → Result String
  pub new_client : Trace → Result (Unit {0})
  -- the managers of controllers, and os.UserHomeDir
  pub manage : Trace → ManagerCall → Result (Unit {0})
  pub home_dir : Trace → Result String
  -- net.Listen and the loop of the gRPC server
  pub serve : Trace → String → String → Result (Unit {0})
  -- the kernel and k8s.io/utils/mount
  pub stat : Trace → String → Result FileInfo
  pub path_exists : Trace → String → Result Bool
  pub mkdir_all : Trace → String → ℕ → Result (Unit {0})
  pub chmod : Trace → String → ℕ → Result (Unit {0})
  pub remove : Trace → String → Result (Unit {0})
  pub write_file : Trace → String → String → Result (Unit {0})
  pub read_file : Trace → String → Result String
  pub parse_mount_info : Trace → Result (List MountInfo)
  pub not_mount_point : Trace → String → Result Bool
  pub mount : Trace → String → String → String → List String → Result (Unit {0})
  pub unmount : Trace → String → Result (Unit {0})
  pub cleanup_mount_point : Trace → String → Result (Unit {0})
  pub is_corrupted : Failure → Bool
  -- commands, the environment, the console and the clock
  pub command : Trace → List String → Dict String → Output
  pub getenv : String → Option String
  pub http : Trace → Request → Result Response
  pub now : Trace → ℤ
  -- the error of a context that ends before the call that it guards
  pub expired : Trace → Option Failure
  -- time.ParseDuration in nanoseconds, time.Time.Format in the local zone and time.Parse, both with
  -- the layout "2006-01-02 15:04:05", and the hexadecimal digits of SHA-256
  pub parse_duration : String → Result ℤ
  pub format_time : ℤ → String
  pub parse_time : String → Result ℤ
  pub sha256_hex : String → String
  -- yaml.Unmarshal and json.Unmarshal into a map of texts, and resource.ParseQuantity
  pub unmarshal_yaml : String → Result (Dict String)
  pub unmarshal_json : String → Result (Dict String)
  pub parse_quantity : String → Result String
  -- json.Unmarshal into a list of pods
  pub unmarshal_pods : String → Result (List Pod)
  -- the text of an error: its method Error
  pub error_text : Failure → String
  -- url.Parse: the host, and the scheme, the host and the path
  pub parse_url_host : String → Result String
  pub parse_url : String → Result (String × String × String)

-- os.Getenv: a variable that is not set is empty.
unfoldable pub environment : System → String → String
environment sys name = elim (sys.getenv name) [ none ↦ "" | some s ↦ s ]
