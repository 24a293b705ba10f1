-- ===== src/Util/Status/Ready.antt =====
-- IsPodReady counts conditions; what the count says.
use dfs_csi.Prelude.{ℕ, ◌+◌, ◌≡◌, refl, ◌↔◌, Bool, true, false, ◌&&◌, List, [], ◌∷◌, any, arith}
use dfs_csi.Kube.{Condition, ConditionType, containers_ready, pod_ready, Pod}
use dfs_csi.Util.Status.{is_true, count_ready, is_pod_ready}

abbrev pub is_containers_ready : ConditionType → Bool
is_containers_ready containers_ready = true
is_containers_ready _ = false

abbrev pub is_pod_ready_type : ConditionType → Bool
is_pod_ready_type pod_ready = true
is_pod_ready_type _ = false

-- Whether a condition of the type is true.
abbrev pub holds : (ConditionType → Bool) → List Condition → Bool
holds p cs = any (λ (c : Condition). is_true c.status && p c.type) cs

abbrev pub has_type : (ConditionType → Bool) → List Condition → Bool
has_type p cs = any (λ (c : Condition). p c.type) cs

-- No type stands twice, as Kubernetes keeps a pod's conditions.
abbrev pub AtMostOnce : (ConditionType → Bool) → List Condition → Type 0
AtMostOnce p [] = Unit
AtMostOnce p (c ∷ cs) = (p c.type ≡ true → has_type p cs ≡ false) × AtMostOnce p cs

abbrev one_if : Bool → ℕ
one_if true = 1
one_if false = 0

holds_needs_type :
    (p : ConditionType → Bool) (cs : List Condition) → has_type p cs ≡ false → holds p cs ≡ false
holds_needs_type p [] h = refl
holds_needs_type p (c ∷ cs) h = ground (arith, holds_needs_type p cs)

count_ready_lem :
    (cs : List Condition)
    → AtMostOnce is_containers_ready cs
    → AtMostOnce is_pod_ready_type cs
    → count_ready cs ≡ one_if (holds is_containers_ready cs) + one_if (holds is_pod_ready_type cs)
unfolding count_ready
count_ready_lem [] a b = refl
count_ready_lem (c ∷ cs) (a, more) (b, others) = ground (
  arith,
  count_ready_lem cs more others,
  holds_needs_type is_containers_ready cs,
  holds_needs_type is_pod_ready_type cs,
)

-- A pod whose conditions have each type once at most is ready exactly when its ContainersReady and
-- its Ready condition are both true.
pub is_pod_ready_iff :
    (pod : Pod)
    → AtMostOnce is_containers_ready pod.conditions
    → AtMostOnce is_pod_ready_type pod.conditions
    → (is_pod_ready pod ≡ true) ↔ (
        (holds is_containers_ready pod.conditions ≡ true)
        × (holds is_pod_ready_type pod.conditions ≡ true))
unfolding is_pod_ready
is_pod_ready_iff pod a b = ground (arith, count_ready_lem pod.conditions a b)
