-- ===== src/K8sClient/Methods.antt =====
-- pkg/juicefs/k8sclient/client.go: the methods that do more than to pass an answer on. Of
-- k8s.io/apimachinery the texts of selectors are parameters.
use dfs_csi.Prelude.{ℕ, arith, ◌≡◌, String, Bool, Option, none, some, List, ◌==◌, if◌then◌else◌}
use dfs_csi.Prelude.Dict.{Dict}
use dfs_csi.Kube.{Pod, PersistentVolume, Patch}
use dfs_csi.System.{System, Trace, Result, ok, err, environment}
use dfs_csi.System.Io as Api
use dfs_csi.System.Io.{
  Io, pure, fail, lift, attempt, list_pods, get_volume, new_client, ◌>>=◌, ◌>>◌, on_option,
  on_result,
}

-- metav1.ListOptions, with the fields that the client sets
pub record ListOptions : Type 0 where
  pub label_selector : String
  pub field_selector : String
  pub resource_version : String

-- k8sClient, with the field that its methods read
pub record K8sClient : Type 0 where
  pub enable_api_server_list_cache : Bool

-- The text of a metav1.LabelSelector by LabelSelectorAsMap and by LabelSelectorAsSelector, and that
-- of a set of fields.
pub record Selectors (L : Type 0) : Type 0 where
  pub map_text : L → Result String
  pub selector_text : L → Result String
  pub field_text : Dict String → String

-- NewClient
unfoldable pub new_k8s_client : System → Io K8sClient
unfolding environment
new_k8s_client sys = do
  new_client sys
  pure (record {
    enable_api_server_list_cache = environment sys "ENABLE_APISERVER_LIST_CACHE" == "true";
  })

module _ {L : Type 0} (sel : Selectors L) where
  -- The field selector that ListPersistentVolumes and ListPod set.
  unfoldable pub field_selector : Option (Dict String) → String
  field_selector none = ""
  field_selector (some fields) = sel.field_text fields

  -- The options of ListPersistentVolumes.
  unfoldable pub volume_options : Option L → Option (Dict String) → Result ListOptions
  unfolding field_selector
  volume_options none fields = ok (record {
    label_selector = "";
    field_selector = field_selector fields;
    resource_version = "";
  })
  volume_options (some labels) fields = elim (sel.map_text labels) [
    | ok text ↦ ok (record {
      label_selector = text;
      field_selector = field_selector fields;
      resource_version = "";
    })
    | err e ↦ err e
  ]

  -- The options of ListPod. With the cache, the answer may be the one that the API server has kept.
  unfoldable pub pod_options : K8sClient → Option L → Option (Dict String) → Result ListOptions
  unfolding field_selector
  pod_options k none fields = ok (record {
    label_selector = "";
    field_selector = field_selector fields;
    resource_version = if k.enable_api_server_list_cache then "0" else "";
  })
  pod_options k (some labels) fields = elim (sel.selector_text labels) [
    | ok text ↦ ok (record {
      label_selector = text;
      field_selector = field_selector fields;
      resource_version = if k.enable_api_server_list_cache then "0" else "";
    })
    | err e ↦ err e
  ]

  -- ListPersistentVolumes and ListPod, of an API that takes the options
  unfoldable pub list_persistent_volumes :
      (ListOptions → Io (List PersistentVolume))
      → Option L
      → Option (Dict String)
      → Io (List PersistentVolume)
  unfolding volume_options
  list_persistent_volumes api labels fields = do
    options ← lift (volume_options labels fields)
    api options

  unfoldable pub list_pod :
      (String → ListOptions → Io (List Pod))
      → K8sClient
      → String
      → Option L
      → Option (Dict String)
      → Io (List Pod)
  unfolding pod_options
  list_pod api k namespace labels fields = do
    options ← lift (pod_options k labels fields)
    api namespace options

  -- A list of pods without selectors, as ListAppPod asks for it, is the list of the namespace, of an
  -- API that answers so whatever the resource version.
  pub list_pod-plain :
      (sys : System) (api : String → ListOptions → Io (List Pod)) (k : K8sClient)
      (namespace : String)
      → ((ns version : String)
          → api ns (record { label_selector = ""; field_selector = ""; resource_version = version })
            ≡ list_pods sys ns)
      → list_pod api k namespace none none ≡ list_pods sys namespace
  unfolding list_pod ◌>>=◌ lift
  list_pod-plain sys api k namespace plain = plain namespace _

module _ (sys : System) where
  -- GetAllPod
  unfoldable pub get_all_pod : Io (List Pod)
  get_all_pod = list_pods sys ""

  -- PatchPod: a nil pod is passed over.
  unfoldable pub patch_pod : Option Pod → Patch → Io (Unit {0})
  patch_pod pod patch = on_option pod (pure tt) (λ p. Api.patch_pod sys p patch)

  -- GetPod, DeletePod and GetPersistentVolume pass the answer of the API on.
  unfoldable pub get_pod : String → String → Io Pod
  get_pod name namespace = do
    r ← attempt (Api.get_pod sys name namespace)
    on_result r (λ pod. pure pod) (λ e. fail e)

  unfoldable pub delete_pod : Pod → Io (Unit {0})
  delete_pod pod = Api.delete_pod sys pod

  unfoldable pub get_persistent_volume : String → Io PersistentVolume
  get_persistent_volume name = do
    r ← attempt (get_volume sys name)
    on_result r (λ pv. pure pv) (λ e. fail e)

-- UpdatePod, of an API that answers with the pod as it is then
unfoldable pub update_pod : (Pod → Io Pod) → Pod → Io (Unit {0})
update_pod api pod = do api pod; pure tt

-- corev1.PodLogOptions, with the fields that GetPodLog sets
pub record PodLogOptions : Type 0 where
  pub container : String
  pub tail_lines : ℕ

-- GetPodLog, of a stream that may break while it is read
unfoldable pub get_pod_log :
    (String → String → PodLogOptions → Io (Result String)) → String → String → String → Io String
get_pod_log stream pod_name namespace container = do
  pod_logs ← stream pod_name namespace (record { container = container; tail_lines = 20 })
  lift pod_logs

module _ {A : Type 0} where
  passed_on :
      (m : Io A) (t : Trace) → (attempt m >>= λ r. on_result r (λ a. pure a) (λ e. fail e)) t ≡ m t
  unfolding attempt pure fail on_result ◌>>=◌
  passed_on m t = ground arith

-- The other modules use the calls of the API in their place.
pub get_pod-passes :
    (sys : System) (name namespace : String) (t : Trace)
    → get_pod sys name namespace t ≡ Api.get_pod sys name namespace t
unfolding get_pod
get_pod-passes sys name namespace t = passed_on (Api.get_pod sys name namespace) t

pub get_persistent_volume-passes :
    (sys : System) (name : String) (t : Trace)
    → get_persistent_volume sys name t ≡ get_volume sys name t
unfolding get_persistent_volume
get_persistent_volume-passes sys name t = passed_on (get_volume sys name) t
