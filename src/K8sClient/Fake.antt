-- ===== src/K8sClient/Fake.antt =====
-- pkg/juicefs/k8sclient/fake_client.go: the client in memory that stands for the API server in the tests.
-- A pod of the map is the caller's object in Go; here it is a copy.
pub mod Store
use dfs_csi.Prelude.{String, true, Option, none, some, List, [], ◌∷◌}
use dfs_csi.Prelude.Dict.{Dict, lookup, insert, erase}
use dfs_csi.Kube.{Pod, Phase, Condition, ConditionType, ConditionStatus, PersistentVolume, Patch}
use dfs_csi.System.{Failure, Result, ok, err}

-- FakeK8sClient
abbrev pub FakeK8sClient : Type 0
FakeK8sClient = Dict Pod

abbrev is_true : ConditionType → Condition
is_true kind = record {
  status = ConditionStatus.condition_true;
  type = kind;
  reason = "";
  message = "";
}

-- The status that CreatePod gives to a pod.
unfoldable pub running : Pod → Pod
running pod = record pod {
  phase = Phase.running;
  reason = "";
  message = "";
  conditions = is_true ConditionType.pod_ready ∷ is_true ConditionType.containers_ready ∷ [];
  init_statuses = [];
  statuses = [];
}

-- Flush, GetAllPod and GetPersistentVolume
unfoldable pub flush : FakeK8sClient → FakeK8sClient
flush f = []

unfoldable pub fake_get_all_pod : FakeK8sClient → List Pod
fake_get_all_pod f = []

unfoldable pub fake_get_persistent_volume : FakeK8sClient → String → Option PersistentVolume
fake_get_persistent_volume f name = none

-- CreatePod, also of a name that is taken
unfoldable pub fake_create_pod : FakeK8sClient → Pod → FakeK8sClient × Pod
unfolding insert running
fake_create_pod f pod = (insert pod.name (running pod) f, running pod)

-- GetPod, in whatever namespace
unfoldable pub fake_get_pod : FakeK8sClient → String → String → Result Pod
unfolding lookup
fake_get_pod f name namespace = elim (lookup name f) [
  | none ↦ err Failure.not_found
  | some pod ↦ ok pod
]

-- PatchPod, which changes nothing
unfoldable pub fake_patch_pod :
    FakeK8sClient → Option Pod → Patch → FakeK8sClient × Result (Unit {0})
fake_patch_pod f pod patch = (f, ok tt)

-- UpdatePod
unfoldable pub fake_update_pod : FakeK8sClient → Pod → FakeK8sClient × Result (Unit {0})
unfolding lookup insert
fake_update_pod f pod = elim (lookup pod.name f) [
  | none ↦ (f, err Failure.not_found)
  | some old ↦ (insert pod.name pod f, ok tt)
]

-- DeletePod
unfoldable pub fake_delete_pod : FakeK8sClient → Pod → FakeK8sClient × Result (Unit {0})
unfolding lookup erase
fake_delete_pod f pod = elim (lookup pod.name f) [
  | none ↦ (f, err Failure.not_found)
  | some old ↦ (erase pod.name f, ok tt)
]

-- GetPodLog
unfoldable pub fake_get_pod_log : FakeK8sClient → String → Result String
fake_get_pod_log f name = ok ""
