-- ===== src/Util/Status.antt =====
-- pkg/util/pod.go: what the status of a pod says.
pub mod Ready
use dfs_csi.Prelude.{
  ℕ, suc, Bool, true, false, not, ◌&&◌, ◌||◌, none, some, List, [], ◌∷◌, map, ◌==◌, contains_text,
  eqb, any, is_empty, if◌then◌else◌,
}
use dfs_csi.Kube.{
  Phase, failed, unknown, Condition, ConditionStatus, condition_true, condition_false,
  ConditionType, containers_ready, pod_ready, pod_scheduled, ContainerStatus, Container, Pod,
}

abbrev pub is_true : ConditionStatus → Bool
is_true condition_true = true
is_true _ = false

abbrev pub is_false : ConditionStatus → Bool
is_false condition_false = true
is_false _ = false

abbrev pub is_ready_type : ConditionType → Bool
is_ready_type containers_ready = true
is_ready_type pod_ready = true
is_ready_type _ = false

abbrev pub is_scheduled_type : ConditionType → Bool
is_scheduled_type pod_scheduled = true
is_scheduled_type _ = false

abbrev pub is_failed : Phase → Bool
is_failed failed = true
is_failed _ = false

abbrev pub is_unknown : Phase → Bool
is_unknown unknown = true
is_unknown _ = false

-- The loop of IsPodReady.
pub count_ready : List Condition → ℕ
count_ready [] = 0
count_ready (c ∷ cs) =
    if is_true c.status && is_ready_type c.type then suc (count_ready cs) else count_ready cs

-- IsPodReady
unfoldable pub is_pod_ready : Pod → Bool
unfolding count_ready
is_pod_ready pod = eqb (count_ready pod.conditions) 2

-- The test of containError on one status.
abbrev pub is_bad : ContainerStatus → Bool
is_bad s =
    (elim s.waiting [ none ↦ false | some reason ↦ not (reason == "ContainerCreating") ])
    || (elim s.exit_code [ none ↦ false | some code ↦ not (eqb code 0) ])

-- containError
unfoldable pub contain_error : List ContainerStatus → Bool
contain_error statuses = any is_bad statuses

-- IsPodError
unfoldable pub is_pod_error : Pod → Bool
unfolding contain_error
is_pod_error pod =
    if is_failed pod.phase || is_unknown pod.phase then true else contain_error pod.statuses

-- The test of IsPodResourceError on one condition.
abbrev pub is_unschedulable : Condition → Bool
is_unschedulable c =
    is_false c.status
    && is_scheduled_type c.type
    && c.reason == "Unschedulable"
    && (contains_text c.message "Insufficient cpu" || contains_text c.message "Insufficient memory")

-- IsPodResourceError
unfoldable pub is_pod_resource_error : Pod → Bool
is_pod_resource_error pod =
    (is_failed pod.phase
      && (contains_text pod.reason "OutOf"
          || (pod.reason == "UnexpectedAdmissionError"
              && contains_text pod.message "to reclaim resources")))
    || any is_unschedulable pod.conditions

abbrev pub drop_resources : Container → Container
drop_resources c = record c { requests = []; limits = [] }

-- DeleteResourceOfPod
unfoldable pub delete_resource_of_pod : Pod → Pod
delete_resource_of_pod pod = record pod {
  spec = record pod.spec { containers = map drop_resources pod.spec.containers };
}

-- IsPodHasResource
unfoldable pub is_pod_has_resource : Pod → Bool
is_pod_has_resource pod = any (λ c. not (is_empty c.requests)) pod.spec.containers
