-- ===== src/Tests/Starting.antt =====
-- The start of the driver at concrete inputs.
use dfs_csi.Prelude.{
  ℕ, ◌≡◌, ◌⊎◌, refl, true, false, some, none, [], ◌∷◌, ◌==◌, starts_with, if◌then◌else◌,
}
use dfs_csi.Prelude.Dict.{Dict}
use dfs_csi.Strings.{join_path}
use dfs_csi.Kube.{Pod}
use dfs_csi.System.{System, Trace, ok}
use dfs_csi.Driver.Server.{new_driver, run_driver}
use dfs_csi.System.Io.{done, branch, new_client, get_pod, command, remove, serve, ◌>>=◌, ◌>>◌}
use dfs_csi.Util.Endpoint.{to_lower, parse_endpoint, socket_outcome, parse_endpoint-unix}
use dfs_csi.Controller.Reconciler.{start_reconciler}
use dfs_csi.K8sClient.Kubelet.{KubeletClient}
use dfs_csi.Commands.{Flags, started, polling, pod_manager, init, main, variables}
use dfs_csi.Commands.Starting.{IsConfigured, init-IsConfigured, main-managed}
use dfs_csi.Tests.{bare, calm, system, mount_container}
use dfs_csi.Tests.Polling.{tls}

abbrev known : Dict ℕ
known = ("v", 1) ∷ []

lowered : to_lower "UNIX" ≡ "unix"
unfolding to_lower
lowered = refl

abbrev with_url : System
with_url = record calm { parse_url = λ s. ok ("UNIX", "tmp", "csi.sock") }

parse_endpoint-unix_example :
    (starts_with (join_path "/" (join_path "tmp" "csi.sock")) "/" ≡ true)
    × (parse_endpoint with_url "UNIX://tmp/csi.sock" []
        ≡ socket_outcome (join_path "/" (join_path "tmp" "csi.sock")) (ok tt) [])
parse_endpoint-unix_example =
    parse_endpoint-unix with_url "UNIX://tmp/csi.sock" "UNIX" "tmp" "csi.sock" [] refl lowered

-- The driver's own pod.
abbrev plugin : Pod
plugin = record bare {
  spec = record (bare.spec) { containers = record mount_container { name = "mosfs-plugin" } ∷ [] };
}

abbrev plugged : System
plugged = record (system plugin [] (ok tt)) {
  getenv = λ name.
      if name == "POD_NAME"
      then some "plugin"
      else if name == "MOSFS_MOUNT_NAMESPACE"
      then some "kube-system"
      else none;
  parse_url = λ s. ok ("unix", "tmp", "csi.sock");
}

goes_on : (u : Trace) × (init plugged [] ≡ done (started (variables plugged "image")) u)
unfolding init branch new_client get_pod ◌>>=◌
goes_on = (_, refl)

init-IsConfigured_example : IsConfigured plugged (variables plugged "image")
init-IsConfigured_example =
    init-IsConfigured plugged (variables plugged "image") [] goes_on.0 goes_on.1

abbrev flags : Flags
flags = record {
  endpoint = "unix://tmp/csi.sock";
  version = false;
  node_id = "n";
  enable_manager = true;
}

serves :
    (u : Trace) × (main plugged tls flags (variables plugged "image") []
      ≡ done (started pod_manager) u)
unfolding main branch variables new_driver new_client command run_driver remove serve ◌>>=◌ ◌>>◌
serves = (_, refl)

main-managed_example :
    (pod_manager ≡ pod_manager)
    ⊎ ((kc : KubeletClient) × (v : Trace) × (w : Trace) × (pod_manager ≡ polling kc)
        × (start_reconciler tls plugged
              (variables plugged "image").host_ip
              (variables plugged "image").kubelet_port
              v
            ≡ done kc w))
main-managed_example =
    main-managed plugged tls flags (variables plugged "image") pod_manager [] serves.0 serves.1 refl
