-- ===== src/Controller/Reconciler/Rounds.antt =====
-- A pod in use through the rounds of the loop.
use mathlib.Core.List.{Memᴰ}
use mathlib.Core.List.Memᴰ
use dfs_csi.Prelude.{
  ℕ, zero, suc, ◌≡◌, ◌⊎◌, inl, inr, refl, String, ◌&&◌, Bool, true, false, List, [], ◌∷◌, keep,
  ◌==◌, arith, if◌then◌else◌,
}
use dfs_csi.Config.{Config}
use dfs_csi.Kube.{Pod}
use dfs_csi.System.{System, Trace, Result}
use dfs_csi.System.Io.{done, trace_of, attempt, pure, ◌>>=◌, on_result}
use dfs_csi.System.Keeps.{
  Keeps, Keeps-bind, Keeps-then, Keeps-attempt, Keeps-on_result, Keeps-attempted, Keeps-branch,
  Keeps-now, Keeps-sleep, keeps_rules,
}
use dfs_csi.System.Traces.{
  Deletes, Deletes-Ignores, Deletes-patch_pod, Deletes-delete_pod, trace_rules,
}
use dfs_csi.K8sClient
use dfs_csi.K8sClient.Kubelet.{KubeletClient, get_node_running_pods}
use dfs_csi.Util.Patches.{remove_finalizer}
use dfs_csi.Controller.MountInfo.{MountInfoTable, set_pods_status, parse, new_mount_info_table}
use dfs_csi.Controller.Handlers.{ready_status, get_pod_status}
use dfs_csi.Controller.Driver.{run}
use dfs_csi.Controller.Driver.Objects.{run-Keeps}
use dfs_csi.Controller.Driver.Listed.{is_used, listed-Keeps}
use dfs_csi.Controller.Reconciler.{
  BackOff, is_mount_pod, is_over, look_at_err, visit, visit_all, round, reconcile_rounds,
  do_reconcile,
}

keep-Mem :
    (p : Pod → Bool) (pods : List Pod) (pod : Pod)
    → Memᴰ pod (keep p pods)
    → Memᴰ pod pods × (p pod ≡ true)
keep-Mem p [] pod h = absurd (Memᴰ.not-nil h)
keep-Mem p (x ∷ pods) pod h = by_test (keep-Mem p pods pod) (p x) refl h
  where
    later : Memᴰ pod pods × (p pod ≡ true) → Memᴰ pod (x ∷ pods) × (p pod ≡ true)
    later (m, e) = (Memᴰ.tail m, e)

    either :
        (Memᴰ pod (keep p pods) → Memᴰ pod pods × (p pod ≡ true))
        → p x ≡ true
        → (pod ≡ x) ⊎ Memᴰ pod (keep p pods)
        → Memᴰ pod (x ∷ pods) × (p pod ≡ true)
    either rec e (inl same) = (Memᴰ.head same, rw same e)
    either rec e (inr m) = later (rec m)

    by_test :
        (Memᴰ pod (keep p pods) → Memᴰ pod pods × (p pod ≡ true))
        → (b : Bool) → p x ≡ b
        → Memᴰ pod (if b then x ∷ keep p pods else keep p pods)
        → Memᴰ pod (x ∷ pods) × (p pod ≡ true)
    by_test rec true e m = either rec e (Memᴰ.cases_cons m)
    by_test rec false e m = later (rec m)

-- Another pod than that of the name and the namespace.
abbrev pub IsOther : String → String → Pod → Type 0
IsOther name ns q = (q.name == name && q.namespace == ns) ≡ false

-- The mount pod of the name, where it is in the list, is ready, and a pod of the list has one of its targets.
abbrev pub IsInUse : System → String → String → List Pod → Pod → Type 0
IsInUse sys name ns pods pod =
    (pod.name == name && pod.namespace == ns) ≡ true
    → (get_pod_status pod ≡ ready_status) × (is_used sys pod pods ≡ true)

module _ {B : Type 0} (back : BackOff B) (sys : System)
    (shared : Trace → Result (Unit {0}) → Result (Unit {0})) (name ns : String) where
  abbrev Spares : Trace → Type 0
  Spares = Deletes (IsOther name ns)

  over-Spares : Keeps Spares (is_over sys)
  unfolding is_over
  over-Spares = record { at = λ t h. ground arith }

  finalizers-Spares :
      (po : Pod) (finalizer : String) → Keeps Spares (remove_finalizer sys po finalizer)
  unfolding remove_finalizer
  finalizers-Spares po finalizer = search (keeps_rules, trace_rules)

  creates-Spares : (q : Pod) → Keeps Spares (K8sClient.create_pod sys q)
  unfolding K8sClient.create_pod
  creates-Spares q = search (keeps_rules, trace_rules) depth 8

  run-Spares :
      (mit : MountInfoTable) (pods : List Pod) (pod : Pod)
      → IsInUse sys name ns pods pod
      → Keeps Spares (run sys (set_pods_status mit pods) pod)
  run-Spares mit pods pod used = by_name (pod.name == name && pod.namespace == ns) refl
    where
      by_name :
          (here : Bool)
          → (pod.name == name && pod.namespace == ns) ≡ here
          → Keeps (Deletes (IsOther name ns)) (run sys (set_pods_status mit pods) pod)
      by_name true here =
          listed-Keeps sys mit pods (Deletes (IsOther name ns)) pod
            (Deletes-Ignores (IsOther name ns)) (Deletes-patch_pod sys (IsOther name ns))
            (used here).0 (used here).1
      by_name false other =
          run-Keeps sys (Deletes (IsOther name ns)) (Deletes-Ignores (IsOther name ns)) pod
            finalizers-Spares (Deletes-patch_pod sys (IsOther name ns) pod)
            (Deletes-delete_pod sys (IsOther name ns) pod other) (creates-Spares _)
            (creates-Spares _) _

  look-Spares : (r : Result (Unit {0})) → Keeps Spares (look_at_err shared r)
  unfolding look_at_err
  look-Spares r = record { at = λ t h. h }

  visit-Spares :
      (mit : MountInfoTable) (pods : List Pod) (b : B) (pod : Pod)
      → IsInUse sys name ns pods pod
      → Keeps Spares (visit back sys shared mit pods b pod)
  unfolding visit
  visit-Spares mit pods b pod used = Keeps-bind _ _ over-Spares λ over.
      Keeps-branch over _ _ (λ _. search (keeps_rules))
        λ _. Keeps-bind _ _ (Keeps-now sys (Deletes-Ignores _)) λ time.
          Keeps-branch _ _ _ (λ _. search (keeps_rules))
            λ _. Keeps-bind _ _ (Keeps-attempt _ (run-Spares mit pods pod used)) λ r.
              Keeps-bind _ _ (look-Spares r) λ seen.
                Keeps-on_result seen _ _ (λ _. search (keeps_rules))
                  (λ e. search (keeps_rules, trace_rules) depth 6)

  visit_all-Spares :
      (mit : MountInfoTable) (pods : List Pod) (b : B) (visited : List Pod)
      → ((pod : Pod) → Memᴰ pod visited → IsInUse sys name ns pods pod)
      → Keeps Spares (visit_all back sys shared mit pods b visited)
  unfolding visit_all
  visit_all-Spares mit pods b [] h = search (keeps_rules)
  visit_all-Spares mit pods b (pod ∷ rest) h =
      Keeps-bind _ _ (visit-Spares mit pods b pod (h pod (Memᴰ.head refl)))
        λ b'. visit_all-Spares mit pods b' rest λ q m. h q (Memᴰ.tail m)

  module _ (cfg : Config) (order : List Pod → List Pod) (kc : KubeletClient)
      (orders : (pods : List Pod) (pod : Pod) → Memᴰ pod (order pods) → Memᴰ pod pods)
      (used : (t u : Trace) (pods : List Pod) (pod : Pod)
        → get_node_running_pods sys kc t ≡ done pods u
        → Memᴰ pod pods
        → is_mount_pod cfg pod ≡ true
        → IsInUse sys name ns pods pod) where
    lists-Spares : Keeps Spares (get_node_running_pods sys kc)
    unfolding get_node_running_pods
    lists-Spares = search (keeps_rules, trace_rules) depth 8

    tables-Spares :
        (pods : List Pod) (b : B)
        → ((pod : Pod) → Memᴰ pod pods → is_mount_pod cfg pod ≡ true → IsInUse sys name ns pods pod)
        → Keeps Spares (
            attempt (parse sys new_mount_info_table) >>= λ table.
            on_result table
              (λ mit.
                visit_all back sys shared mit pods
                  (back.gc b)
                  (order (keep (is_mount_pod cfg) pods)))
              (λ e. pure b))
    unfolding parse
    tables-Spares pods b fits = Keeps-bind _ _ (search (keeps_rules, trace_rules) depth 8) λ table.
        Keeps-on_result table _ _
          (λ mit. visit_all-Spares mit pods (back.gc b) _ λ pod m.
            fits pod (keep-Mem (is_mount_pod cfg) pods pod (orders _ pod m)).0
              (keep-Mem (is_mount_pod cfg) pods pod (orders _ pod m)).1)
          (λ e. search (keeps_rules))

    round-Spares : (b : B) → Keeps Spares (round back sys shared cfg order kc b)
    unfolding round
    round-Spares b =
        Keeps-attempted _ _ _ lists-Spares
          (λ pods t u listed h.
            (tables-Spares pods b (λ pod m mount. used t u pods pod listed m mount)).at u h)
          (λ e. search (keeps_rules))

    rounds-Spares :
        (rounds : ℕ) (b : B) → Keeps Spares (reconcile_rounds back sys shared cfg order kc rounds b)
    unfolding reconcile_rounds
    rounds-Spares zero b = search (keeps_rules)
    rounds-Spares (suc rounds) b =
        Keeps-bind _ _ (round-Spares b)
          λ b'. Keeps-then _ _ (Keeps-sleep (Deletes-Ignores _)) (rounds-Spares rounds b')

-- If a mount pod, in every list that GetNodeRunningPods may return and that has it, is ready and has a
-- target of a pod of that list, then doReconcile never deletes it, in any number of rounds, whatever the
-- state of the other mount pods: if the calls before deleted no pod of its name and namespace, so do the
-- calls with those of doReconcile. The goroutines run in any order, with any back-off, their contexts may
-- end at any time, and the error that one of them looks at may be that of another.
pub do_reconcile-in_use :
    {B : Type 0} (back : BackOff B) (sys : System)
    (shared : Trace → Result (Unit {0}) → Result (Unit {0})) (cfg : Config)
    (order : List Pod → List Pod) (kc : KubeletClient) (rounds : ℕ) (name ns : String) (t : Trace)
    → ((pods : List Pod) (pod : Pod) → Memᴰ pod (order pods) → Memᴰ pod pods)
    → ((s u : Trace) (pods : List Pod) (pod : Pod)
        → get_node_running_pods sys kc s ≡ done pods u
        → Memᴰ pod pods
        → is_mount_pod cfg pod ≡ true
        → IsInUse sys name ns pods pod)
    → Deletes (IsOther name ns) t
    → Deletes (IsOther name ns) (trace_of (do_reconcile back sys shared cfg order kc rounds t))
unfolding do_reconcile
do_reconcile-in_use back sys shared cfg order kc rounds name ns t orders used h =
    (rounds-Spares back sys shared name ns cfg order kc orders used rounds _).at t h
