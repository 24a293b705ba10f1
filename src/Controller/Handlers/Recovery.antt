-- ===== src/Controller/Handlers/Recovery.antt =====
-- Which pods the handlers create.
use dfs_csi.Prelude.{◌≡◌, refl, String, false, List, [], ◌∷◌, map}
use dfs_csi.Config.{finalizer}
use dfs_csi.Kube.{Pod, Container}
use dfs_csi.System.{System, Trace}
use dfs_csi.System.Io.{trace_of}
use dfs_csi.System.Keeps.{Keeps, keeps_rules}
use dfs_csi.System.Traces.{
  Creates, Creates-Ignores, Creates-delete_pod, Creates-create_pod, trace_rules,
}
use dfs_csi.K8sClient
use dfs_csi.Util.Patches.{remove_finalizer}
use dfs_csi.Util.Status.{delete_resource_of_pod, drop_resources}
use dfs_csi.Controller.Handlers.{successor, pod_error_handler, pod_deleted_handler}
use dfs_csi.Controller.Handlers.Objects.{deleted-Keeps, error-Keeps}

-- What does not differ in a pod that is created again.
pub record IsSame (pod q : Pod) : Type 0 where
  pub name : q.name ≡ pod.name
  pub namespace : q.namespace ≡ pod.namespace
  pub labels : q.labels ≡ pod.labels
  pub annotations : q.annotations ≡ pod.annotations
  pub finalizers : q.finalizers ≡ finalizer ∷ []
  pub stays : q.deleting ≡ false

-- The pod again, with its spec.
abbrev pub IsAgain : Pod → Pod → Type 0
IsAgain pod q = IsSame pod q × (q.spec ≡ pod.spec)

-- Two lists of the same containers, of which the second have no requests and no limits.
abbrev pub AreFreed : List Container → List Container → Type 0
AreFreed [] [] = Unit {0}
AreFreed (c ∷ cs) (d ∷ ds) =
    ((d.name ≡ c.name)
      × (d.image ≡ c.image)
      × (d.command ≡ c.command)
      × (d.privileged ≡ c.privileged)
      × (d.ports ≡ c.ports)
      × (d.pre_stop ≡ c.pre_stop)
      × (d.env ≡ c.env)
      × (d.volume_mounts ≡ c.volume_mounts)
      × (d.requests ≡ [])
      × (d.limits ≡ []))
    × AreFreed cs ds
AreFreed _ _ = ⊥

abbrev pub IsDeployedAgain : Pod → Pod → Type 0
IsDeployedAgain pod q =
    IsSame pod q
    × (record q.spec { containers = [] } ≡ record pod.spec { containers = [] })
    × AreFreed pod.spec.containers q.spec.containers

successor-IsSame : (pod : Pod) → IsSame pod (successor pod)
successor-IsSame pod = record {
  name = refl;
  namespace = refl;
  labels = refl;
  annotations = refl;
  finalizers = refl;
  stays = refl;
}

successor-IsAgain : (pod : Pod) → IsAgain pod (successor pod)
successor-IsAgain pod = (successor-IsSame pod, refl)

AreFreed-drop_resources : (cs : List Container) → AreFreed cs (map drop_resources cs)
AreFreed-drop_resources [] = tt
AreFreed-drop_resources (c ∷ cs) =
    ((refl, refl, refl, refl, refl, refl, refl, refl, refl, refl), AreFreed-drop_resources cs)

successor-IsDeployedAgain :
    (pod : Pod) → IsDeployedAgain pod (delete_resource_of_pod (successor pod))
unfolding delete_resource_of_pod
successor-IsDeployedAgain pod = (
  record {
    name = refl;
    namespace = refl;
    labels = refl;
    annotations = refl;
    finalizers = refl;
    stays = refl;
  },
  refl,
  AreFreed-drop_resources pod.spec.containers,
)

module _ (sys : System) where
  client-Creates :
      (p : Pod → Type 0) (pod : Pod) → p pod → Keeps (Creates p) (K8sClient.create_pod sys pod)
  unfolding K8sClient.create_pod
  client-Creates p pod fits = search (keeps_rules, trace_rules, Creates-create_pod)

  finalizers-Creates :
      (p : Pod → Type 0) (po : Pod) (finalizer : String)
      → Keeps (Creates p) (remove_finalizer sys po finalizer)
  unfolding remove_finalizer
  finalizers-Creates p po finalizer = search (keeps_rules, trace_rules)

  -- If the calls before created only pods that are the deleted one again, so do the calls with
  -- those of podDeletedHandler: each has its name, namespace, labels, annotations and spec, the
  -- finalizer alone, and no deletion under way.
  pub pod_deleted_handler-Creates :
      (pod : Pod) (t : Trace)
      → Creates (IsAgain pod) t
      → Creates (IsAgain pod) (trace_of (pod_deleted_handler sys pod t))
  pod_deleted_handler-Creates pod t h =
      (deleted-Keeps sys _ (Creates-Ignores _) pod (finalizers-Creates _)
          (Creates-delete_pod sys _ pod)
          (client-Creates (IsAgain pod) _ (successor-IsAgain pod))).at
        t h

  -- If the calls before created only pods that are the failed one again without resources, so do the
  -- calls with those of podErrorHandler: each has its name, namespace, labels and annotations, the
  -- finalizer alone, no deletion under way, and its spec with the same containers without requests and
  -- limits.
  pub pod_error_handler-Creates :
      (pod : Pod) (t : Trace)
      → Creates (IsDeployedAgain pod) t
      → Creates (IsDeployedAgain pod) (trace_of (pod_error_handler sys pod t))
  unfolding delete_resource_of_pod
  pod_error_handler-Creates pod t h =
      (error-Keeps sys _ (Creates-Ignores _) pod (finalizers-Creates _)
          (Creates-delete_pod sys _ pod)
          (client-Creates (IsDeployedAgain pod) _ (successor-IsDeployedAgain pod))).at
        t h
