-- ===== src/Kube.antt =====
-- The Kubernetes objects that the driver reads and writes, with the fields that it uses.
-- They are the API types of k8s.io/api/core/v1, and k8sclient/client.go's patch payloads.
use dfs_csi.Prelude.{ℕ, String, Bool, Option, List}
use dfs_csi.Prelude.Dict.{Dict}

pub data Phase : Type 0 where
  pending running succeeded failed unknown : Phase

pub data ConditionStatus : Type 0 where
  condition_true condition_false condition_unknown : ConditionStatus

pub data ConditionType : Type 0 where
  containers_ready pod_ready pod_scheduled : ConditionType
  other_type : String → ConditionType

pub record Condition : Type 0 where
  pub status : ConditionStatus
  pub type : ConditionType
  pub reason : String
  pub message : String

-- The state of a container: the reason of `Waiting` and the exit code of `Terminated`, if set.
pub record ContainerStatus : Type 0 where
  pub name : String
  pub ready : Bool
  pub waiting : Option String
  pub exit_code : Option ℕ

pub record VolumeMount : Type 0 where
  pub name : String
  pub mount_path : String
  pub propagation : Option String

pub record Container : Type 0 where
  pub name : String
  pub image : String
  pub command : List String
  pub privileged : Bool
  pub ports : List (String × ℕ)
  pub pre_stop : List String
  pub requests : Dict String
  pub limits : Dict String
  pub env : Dict String
  pub volume_mounts : List VolumeMount

pub data VolumeSource : Type 0 where
  host_path : String → String → VolumeSource
  secret : String → VolumeSource
  claim : String → VolumeSource
  other_source : VolumeSource

pub record Volume : Type 0 where
  pub name : String
  pub source : VolumeSource

pub record PodSpec : Type 0 where
  pub containers : List Container
  pub volumes : List Volume
  pub node_name : String
  pub node_selector : Dict String
  pub restart_policy : String

-- `deleting` says that the deletion timestamp is set.
pub record Pod : Type 0 where
  pub name : String
  pub namespace : String
  pub uid : String
  pub labels : Dict String
  pub annotations : Dict String
  pub finalizers : List String
  pub deleting : Bool
  pub spec : PodSpec
  pub phase : Phase
  pub reason : String
  pub message : String
  pub conditions : List Condition
  pub init_statuses : List ContainerStatus
  pub statuses : List ContainerStatus

-- `driver` is the CSI driver, if the volume has one, and `claim_namespace` that of its claim.
pub record PersistentVolume : Type 0 where
  pub storage_class_name : String
  pub driver : Option String
  pub claim_namespace : Option String

-- A PersistentVolumeClaim; its storage class is a pointer, which may be nil.
pub record PersistentVolumeClaim : Type 0 where
  pub storage_class_name : Option String
  pub volume_name : String

-- Cache of pkg/warmup/api/v1alpha1/cache_types.go
pub record Cache : Type 0 where
  pub name : String
  pub namespace : String
  pub deleting : Bool
  pub pvc_name : String
  pub path : String
  pub cached : Bool
  pub message : String

-- The payloads that pkg/util/pod.go sends.
pub data Patch : Type 0 where
  replace_finalizers : List String → Patch
  add_labels : Dict String → Patch
  add_annotations : Dict String → Patch
  remove_annotations : List String → Patch
  replace_annotations : Dict String → Patch
