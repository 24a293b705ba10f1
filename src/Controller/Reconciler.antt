-- ===== src/Controller/Reconciler.antt =====
-- pkg/controller/reconciler.go: the loop that runs the mount pod driver on the pods that the kubelet
-- lists. client-go's flowcontrol.Backoff is a parameter.
pub mod Rounds
use dfs_csi.Prelude.{
  ℕ, zero, suc, String, ◌<>◌, Bool, true, false, ◌&&◌, Option, none, some, List, [], ◌∷◌, ◌==◌,
  keep,
}
use dfs_csi.Prelude.Dict.{Dict, lookup}
use dfs_csi.Prelude.Int.{ℤ, pos}
use dfs_csi.Strings.{atoi}
use dfs_csi.Config.{Config, pod_type_key, pod_type_value}
use dfs_csi.Kube.{Pod}
use dfs_csi.System.{System, Failure, Event, Trace, Result}
use dfs_csi.System.Io.{
  Io, done, pure, fail, attempt, list_pods, new_client, now, sleep, ◌>>=◌, ◌>>◌, on_result,
  on_option, branch,
}
use dfs_csi.K8sClient.Methods.{get_all_pod}
use dfs_csi.K8sClient.Kubelet.{Tls, KubeletClient, new_kubelet_client, get_node_running_pods}
use dfs_csi.Controller.MountInfo.{
  MountInfoTable, new_mount_info_table, parse, pods_status, set_pods_status,
}
use dfs_csi.Controller.Driver.{run}

-- flowcontrol.Backoff. A time is in nanoseconds.
pub record BackOff (B : Type 0) : Type 0 where
  pub new_back_off : ℤ → ℤ → B
  pub is_in_back_off : B → String → ℤ → Bool
  pub next : B → String → ℤ → B
  pub reset : B → String → B
  pub gc : B → B

-- retryPeriod and maxRetryPeriod
abbrev pub retry_period : ℤ
retry_period = pos 5000000000

abbrev pub max_retry_period : ℤ
max_retry_period = pos 300000000000

abbrev pub back_off_id : Pod → String
back_off_id pod = "mountpod/" <> pod.name

-- The pods of the list that doReconcile does not pass over.
unfoldable pub is_mount_pod : Config → Pod → Bool
unfolding lookup
is_mount_pod cfg pod =
    pod.namespace == cfg.namespace
    && elim (lookup pod_type_key pod.labels) [ none ↦ false | some v ↦ v == pod_type_value ]

-- Whether the context of the round is over when a goroutine looks: after the timeout, or after the
-- error of another goroutine.
unfoldable pub is_over : System → Io Bool
is_over sys t = elim (sys.expired t) [
  | none ↦ done false (Event.timer none ∷ t)
  | some e ↦ done true (Event.timer (some e) ∷ t)
]

-- The look of a goroutine at the variable err.
unfoldable pub look_at_err :
    (Trace → Result (Unit {0}) → Result (Unit {0})) → Result (Unit {0}) → Io (Result (Unit {0}))
look_at_err shared r t = done (shared t r) t

-- `shared` is what the variable err holds where a goroutine looks at it, behind the calls that were made
-- and with what the goroutine wrote: err is one variable for all of them, and others may write it between.
module _ {B : Type 0} (back : BackOff B) (sys : System)
    (shared : Trace → Result (Unit {0}) → Result (Unit {0})) where
  -- The goroutine of a pod. Its error only ends the context.
  unfoldable pub visit : MountInfoTable → List Pod → B → Pod → Io B
  unfolding set_pods_status look_at_err
  visit mit pods b pod = do
    over ← is_over sys
    branch over (pure b) do
      time ← now sys
      branch (back.is_in_back_off b (back_off_id pod) time) (pure b) do
        r ← attempt (run sys (set_pods_status mit pods) pod)
        seen ← look_at_err shared r
        on_result seen (λ _. pure (back.reset b (back_off_id pod)))
            (λ e. do later ← now sys; pure (back.next b (back_off_id pod) later))

  -- The goroutines, in the order in which they run.
  unfoldable pub visit_all : MountInfoTable → List Pod → B → List Pod → Io B
  unfolding visit
  visit_all mit pods b [] = pure b
  visit_all mit pods b (pod ∷ rest) = do b' ← visit mit pods b pod; visit_all mit pods b' rest

  -- A round of doReconcile, with the order in which the scheduler runs the goroutines; GC is first.
  unfoldable pub round : Config → (List Pod → List Pod) → KubeletClient → B → Io B
  unfolding is_mount_pod
  round cfg order kc b = do
    listed ← attempt (get_node_running_pods sys kc)
    on_result listed
        (λ pods. do
          table ← attempt (parse sys new_mount_info_table)
          on_result table
              (λ mit. visit_all mit pods (back.gc b) (order (keep (is_mount_pod cfg) pods)))
              (λ e. pure b))
        (λ e. pure b)

  -- Some rounds of the loop of doReconcile, which has no end.
  unfoldable pub reconcile_rounds : Config → (List Pod → List Pod) → KubeletClient → ℕ → B → Io B
  unfolding round
  reconcile_rounds cfg order kc zero b = pure b
  reconcile_rounds cfg order kc (suc rounds) b = do
    b' ← round cfg order kc b
    sleep
    reconcile_rounds cfg order kc rounds b'

  -- doReconcile
  unfoldable pub do_reconcile : Config → (List Pod → List Pod) → KubeletClient → ℕ → Io B
  unfolding reconcile_rounds
  do_reconcile cfg order kc rounds =
      reconcile_rounds cfg order kc rounds (back.new_back_off retry_period max_retry_period)

-- StartReconciler, up to the start of doReconcile
unfoldable pub start_reconciler : Tls → System → String → String → Io KubeletClient
unfolding atoi
start_reconciler tls sys host_ip kubelet_port =
    on_option (atoi kubelet_port) (fail (Failure.message "Atoi: parsing")) λ port. do
      kc ← new_kubelet_client tls sys host_ip port
      get_node_running_pods sys kc
      new_client sys
      pure kc

-- PodReconciler.getClusterPodsStatus: the list and AllPodStatus.
unfoldable pub get_cluster_pods_status : System → Io (List Pod × Dict Bool)
unfolding pods_status get_all_pod
get_cluster_pods_status sys = do
  r ← attempt (get_all_pod sys)
  on_result r (λ pods. pure (pods, pods_status [] pods))
      (λ e. fail (Failure.message "set cluster pods status error"))
