-- ===== src/K8sClient.antt =====
-- pkg/juicefs/k8sclient/client.go: the client of the API server. The other methods pass the API's
-- answer on, and are those of System.Io. The child is kubelet_client.go.
pub mod Fake
pub mod Kubelet
pub mod Methods
use dfs_csi.Kube.{Pod}
use dfs_csi.System.{System, is_already_exists}
use dfs_csi.System.Io as Api
use dfs_csi.System.Io.{Io, pure, fail, attempt, ◌>>=◌, on_result, branch}

module _ (sys : System) where
  -- k8sClient.CreatePod: that the pod exists already is no error. Its callers drop the pod.
  unfoldable pub create_pod : Pod → Io (Unit {0})
  create_pod pod = do
    r ← attempt (Api.create_pod sys pod)
    on_result r (λ created. pure tt) (λ e. branch (is_already_exists e) (pure tt) (fail e))
