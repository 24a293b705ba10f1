-- ===== src/Mount/Builder.antt =====
-- pkg/juicefs/mount/pod.go: the mount pod.
pub mod Reading
use dfs_csi.Prelude.{
  ℕ, ◌+◌, Char, String, ◌<>◌, Bool, true, false, Option, none, some, List, [], ◌∷◌, ◌++◌, map, ◌==◌,
  starts_with, contains_text, any, if◌then◌else◌,
}
use dfs_csi.Prelude.Dict.{Dict}
use dfs_csi.Strings.{decimal, split, trim_space, trim_prefix, replace_char, chars, text}
use dfs_csi.Config.{Config, pod_mount_base, pod_type_key, pod_type_value, finalizer}
use dfs_csi.Kube.{Pod, Volume, VolumeMount, VolumeSource, Phase}
use dfs_csi.System.{System}
use dfs_csi.System.Io.{Io, pure, panic, ◌>>=◌, on_result, branch}

-- GeneratePodNameByVolumeId
abbrev pub generate_pod_name : Config → String → String
generate_pod_name cfg volume_id = "mosfs-" <> (cfg.node_name <> ("-" <> volume_id))

-- hasRef
unfoldable pub has_ref : Pod → Bool
has_ref pod = any (λ (k, v). starts_with k "mosfs-") pod.annotations

-- strings.ReplaceAll of a text of one character
abbrev pub replace_all : String → Char → String → String
replace_all s c new = text (replace_char c (chars new) (chars s))

-- quoteForShell
unfoldable pub quote_for_shell : String → String
unfolding replace_char
quote_for_shell cmd =
    let cmd1 = if contains_text cmd "(" then replace_all cmd "(" "\\(" else cmd in
    if contains_text cmd1 ")" then replace_all cmd1 ")" "\\)" else cmd1

abbrev bidirectional : Option String
bidirectional = some "Bidirectional"

abbrev dir_or_create : String
dir_or_create = "DirectoryOrCreate"

-- A volume and its mount for a directory of the host.
abbrev host_dir : String → String → String → Volume × VolumeMount
host_dir name host path = (
  record { name = name; source = VolumeSource.host_path host dir_or_create },
  record { name = name; mount_path = path; propagation = bidirectional },
)

-- The loop over the directories of one `cache-dir` option.
cache_volumes : List String → List (Volume × VolumeMount)
unfolding replace_char trim_prefix
cache_volumes [] = []
cache_volumes (dir ∷ dirs) =
    host_dir (replace_all (trim_prefix dir "/") "/" "-") dir dir ∷ cache_volumes dirs

-- The value of `cache-dir=value`.
cache_dirs_of : List String → List (Volume × VolumeMount)
unfolding cache_volumes split trim_space
cache_dirs_of (key ∷ value ∷ []) = cache_volumes (split (trim_space value) ":")
cache_dirs_of _ = []

-- The loop over the options.
cache_options : List String → List (Volume × VolumeMount)
unfolding cache_dirs_of
cache_options [] = []
cache_options (opt ∷ opts) =
    let value = trim_space opt in
    (if starts_with value "cache-dir" then cache_dirs_of (split value "=") else [])
    ++ cache_options opts

options_of_command : List String → List (Volume × VolumeMount)
unfolding cache_options
options_of_command (cmd ∷ opts ∷ []) = cache_options (split opts ",")
options_of_command _ = []

-- getCacheDirVolumes
unfoldable pub get_cache_dir_volumes : String → List (Volume × VolumeMount)
unfolding options_of_command
get_cache_dir_volumes cmd = options_of_command (split cmd " -o ")

-- The volume of a secret of the setting, and where it is mounted.
abbrev config_volume : String → String → String → Volume × VolumeMount
config_volume name secret path = (
  record { name = name; source = VolumeSource.secret secret },
  record { name = name; mount_path = path; propagation = none },
)

-- The loop over the secrets.
config_volumes : ℕ → Dict String → List (Volume × VolumeMount)
unfolding decimal
config_volumes i [] = []
config_volumes i ((secret, path) ∷ configs) =
    config_volume ("config-" <> decimal i) secret path ∷ config_volumes (i + 1) configs

-- The directories that every mount pod mounts, and its caches.
base_volumes : Config → String → List (Volume × VolumeMount)
unfolding get_cache_dir_volumes
base_volumes cfg cmd =
    host_dir "jfs-dir" cfg.mount_point_path pod_mount_base
    ∷ host_dir "jfs-root-dir" cfg.jfs_config_path "/root/.juicefs"
    ∷ (if contains_text cmd "cache-dir"
        then get_cache_dir_volumes cmd
        else host_dir "jfs-default-cache" "/var/jfsCache" "/var/jfsCache" ∷ [])

-- corev1.ResourceRequirements
pub record Resources : Type 0 where
  pub limits : Dict String
  pub requests : Dict String

-- NewMountPod
unfoldable pub new_mount_pod :
    Config → String → String → String → Resources → Dict String → Dict String → Pod
unfolding base_volumes config_volumes quote_for_shell
new_mount_pod cfg pod_name command mount_path resources configs env =
    let cmd = quote_for_shell command in
    let pairs = base_volumes cfg cmd ++ config_volumes 1 configs in
    record {
      name = pod_name;
      namespace = cfg.namespace;
      uid = "";
      labels = (pod_type_key, pod_type_value) ∷ [];
      annotations = [];
      finalizers = finalizer ∷ [];
      deleting = false;
      spec = record {
        containers =
            record {
              name = "jfs-mount";
              image = cfg.mount_image;
              command = "sh" ∷ "-c" ∷ cmd ∷ [];
              privileged = true;
              ports = ("metrics", 9567) ∷ [];
              pre_stop = "sh" ∷ "-c" ∷ ("umount " <> mount_path) ∷ [];
              requests = resources.requests;
              limits = resources.limits;
              env = ("JFS_FOREGROUND", "1") ∷ env;
              volume_mounts = map (λ (v, m). m) pairs;
            }
            ∷ [];
        volumes = map (λ (v, m). v) pairs;
        node_name = cfg.node_name;
        node_selector = [];
        restart_policy = "Never";
      };
      phase = Phase.pending;
      reason = "";
      message = "";
      conditions = [];
      init_statuses = [];
      statuses = [];
    }

module _ (sys : System) where
  -- One quantity: nothing for the empty text, and a panic of resource.MustParse if it is malformed.
  quantity : String → String → Io (Dict String)
  quantity name s = branch (s == "") (pure []) (
      on_result (sys.parse_quantity s) (λ q. pure ((name, q) ∷ []))
        (λ _. panic "cannot parse quantity"))

  -- parsePodResources
  unfoldable pub parse_pod_resources : String → String → String → String → Io Resources
  unfolding quantity
  parse_pod_resources cpu_limit mem_limit cpu_request mem_request = do
    cl ← quantity "cpu" cpu_limit
    ml ← quantity "memory" mem_limit
    cr ← quantity "cpu" cpu_request
    mr ← quantity "memory" mem_request
    pure (record { limits = cl ++ ml; requests = cr ++ mr })
