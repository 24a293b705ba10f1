-- ===== src/Tests/Polling.antt =====
-- The loop over the kubelet's pods at concrete inputs.
use mathlib.Core.List.{Memᴰ}
use mathlib.Core.List.Memᴰ
use mathlib.Core.Path.{subst}
use dfs_csi.Prelude.{
  ◌≡◌, ◌<◌, ◌*◌, ◌^◌, ◌⊎◌, inl, inr, refl, ap, String, true, false, some, none, List, [], ◌∷◌, ◌==◌,
  arith, if◌then◌else◌,
}
use dfs_csi.Prelude.Int.{pos}
use dfs_csi.Strings.{atoi}
use dfs_csi.Config.{pod_type_key, pod_type_value}
use dfs_csi.Kube.{Pod}
use dfs_csi.System.{System, ok, environment, Trace}
use dfs_csi.System.Io.{done, trace_of, branch, kubelet_get, lift, read_file, ◌>>=◌, ◌>>◌}
use dfs_csi.System.Traces.{Deletes}
use dfs_csi.Util.Patches.{get_all_ref_keys, get_reference_key}
use dfs_csi.K8sClient.Kubelet.{
  Tls, TransportConfig, KubeletClient, get_node_running_pods, new_kubelet_client,
}
use dfs_csi.K8sClient.Kubelet.Options.{new_kubelet_client-timeout}
use dfs_csi.Controller.MountInfo.{get_pod_uid}
use dfs_csi.Controller.Handlers.{get_pod_status, ready_status}
use dfs_csi.Controller.Driver.Listed.{is_used}
use dfs_csi.Controller.Reconciler.{BackOff, is_mount_pod, do_reconcile}
use dfs_csi.Controller.Reconciler.Rounds.{IsInUse, IsOther, do_reconcile-in_use}
use dfs_csi.Tests.{bare, calm, config, two_refs}

abbrev pub tls : Tls
tls = record { has_ca = λ c. false; tls_config_for = λ c. ok true; wrappers_for = λ c. ok tt }

abbrev slow : System
slow = record calm { getenv = λ name. if name == "KUBELET_TIMEOUT" then some "60" else none }

abbrev seen : TransportConfig
seen = record {
  ca_file = "";
  ca_data = none;
  cert_file = "";
  cert_data = none;
  key_file = "";
  key_data = none;
  insecure = true;
  bearer_token = "";
}

abbrev client : KubeletClient
client = record {
  host = "host";
  port = pos 10250;
  transport = record { tls = some seen; wrapped = seen };
  timeout = 60000000000;
}

made : (u : Trace) × (new_kubelet_client tls slow "host" (pos 10250) [] ≡ done client u)
unfolding new_kubelet_client atoi environment read_file ◌>>=◌ ◌>>◌
made = (_, refl)

sixty : atoi (environment slow "KUBELET_TIMEOUT") ≡ some (pos 60)
unfolding atoi environment
sixty = refl

is_set : (environment slow "KUBELET_TIMEOUT" == "") ≡ false
unfolding environment
is_set = refl

new_kubelet_client-timeout_example : (client.timeout ≡ 60 * 1000000000) × (client.timeout < 2 ^ 63)
new_kubelet_client-timeout_example =
    new_kubelet_client-timeout tls slow "host" (pos 10250) client 60 [] made.0 is_set sixty
      (omega arith) made.1

-- A mount pod that the kubelet lists, and the pod that uses it.
abbrev mounted : Pod
mounted = record two_refs { labels = (pod_type_key, pod_type_value) ∷ [] }

abbrev user : Pod
user = record bare { uid = "a"; name = "app"; namespace = "default" }

-- A mount pod that nobody uses.
abbrev unused : Pod
unused = record bare { name = "mosfs-node-other"; labels = (pod_type_key, pod_type_value) ∷ [] }

abbrev polled : System
polled = record calm { unmarshal_pods = λ body. ok (mounted ∷ unused ∷ user ∷ []) }

abbrev never : BackOff (List String)
never = record {
  new_back_off = λ first last. [];
  is_in_back_off = λ b id time. false;
  next = λ b id time. id ∷ b;
  reset = λ b id. b;
  gc = λ b. b;
}

mounted-in_use :
    (get_pod_status mounted ≡ ready_status)
    × (is_used polled mounted (mounted ∷ unused ∷ user ∷ []) ≡ true)
unfolding get_pod_status get_all_ref_keys get_reference_key get_pod_uid
mounted-in_use = (refl, refl)

-- In the list, the pod of the name is in use.
list-IsInUse :
    (pod : Pod)
    → Memᴰ pod (mounted ∷ unused ∷ user ∷ [])
    → IsInUse polled "mosfs-node-vol" "kube-system" (mounted ∷ unused ∷ user ∷ []) pod
list-IsInUse pod m here = by_place (Memᴰ.cases_cons m)
  where
    Fits : Type 0
    Fits =
        (get_pod_status pod ≡ ready_status)
        × (is_used polled pod (mounted ∷ unused ∷ user ∷ []) ≡ true)

    other : (q : Pod) → (q.name == "mosfs-node-vol") ≡ false → pod ≡ q → Fits
    other q named e = absurd (ground (arith, named, ap (λ p. p.name) e, here))

    by_rest : (pod ≡ unused) ⊎ Memᴰ pod (user ∷ []) → Fits
    by_rest (inl e) = other unused refl e
    by_rest (inr rest) = by_user (Memᴰ.cases_cons rest)
      where
        by_user : (pod ≡ user) ⊎ Memᴰ pod [] → Fits
        by_user (inl e) = other user refl e
        by_user (inr none_left) = absurd (Memᴰ.not-nil none_left)

    by_place : (pod ≡ mounted) ⊎ Memᴰ pod (unused ∷ user ∷ []) → Fits
    by_place (inl e) = rw e mounted-in_use
    by_place (inr rest) = by_rest (Memᴰ.cases_cons rest)

one_list :
    (t u : Trace) (pods : List Pod)
    → get_node_running_pods polled client t ≡ done pods u
    → mounted ∷ unused ∷ user ∷ [] ≡ pods
unfolding get_node_running_pods branch kubelet_get lift ◌>>=◌
one_list t u pods eq = cc

lists-IsInUse :
    (t u : Trace) (pods : List Pod) (pod : Pod)
    → get_node_running_pods polled client t ≡ done pods u
    → Memᴰ pod pods
    → is_mount_pod config pod ≡ true
    → IsInUse polled "mosfs-node-vol" "kube-system" pods pod
lists-IsInUse t u pods pod listed =
    subst
      (λ ps.
        Memᴰ pod ps
        → is_mount_pod config pod ≡ true
        → IsInUse polled "mosfs-node-vol" "kube-system" ps pod)
      (one_list t u pods listed) (λ m is_mount. list-IsInUse pod m)

do_reconcile-in_use_example :
    Deletes
      (IsOther "mosfs-node-vol" "kube-system")
      (trace_of (do_reconcile never polled (λ t r. r) config (λ pods. pods) client 3 []))
do_reconcile-in_use_example =
    do_reconcile-in_use never polled (λ t r. r) config (λ pods. pods) client 3 "mosfs-node-vol"
      "kube-system" [] (λ pods pod m. m) lists-IsInUse tt
