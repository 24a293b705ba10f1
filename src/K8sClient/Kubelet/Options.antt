-- ===== src/K8sClient/Kubelet/Options.antt =====
-- The transport and the timeout of the kubelet's client.
use dfs_csi.Prelude.{ℕ, ◌≡◌, ◌≤◌, ◌<◌, ◌*◌, ◌^◌, String, true, false, none, some, ◌==◌, arith}
use dfs_csi.Prelude.Int.{ℤ, pos}
use dfs_csi.Strings.{atoi}
use dfs_csi.System.{System, Trace, environment}
use dfs_csi.System.Io.{done, pure, lift, ◌>>=◌, ◌>>◌}
use dfs_csi.System.Steps.{bind-done}
use dfs_csi.K8sClient.Kubelet.{
  KubeletClientConfig, Transport, Tls, TransportConfig, KubeletClient, pre_tls_config,
  make_transport, to_word, seconds, kubelet_timeout, client_config, new_kubelet_client,
}

seconds-exact : (n : ℕ) → n ≤ 9223372036 → seconds (pos n) ≡ n * 1000000000
unfolding seconds to_word
seconds-exact n h = omega arith

module _ (tls : Tls) (sys : System) (host : String) (port : ℤ) where
  transport_of :
      (c : KubeletClientConfig) (trans : Transport) (cfg : TransportConfig) (t u : Trace)
      → make_transport tls c true t ≡ done trans u
      → trans.tls ≡ some cfg
      → (cfg.insecure ≡ true) × (cfg.ca_file ≡ "") × (cfg.ca_data ≡ none)
  unfolding make_transport pre_tls_config pure lift ◌>>=◌ ◌>>◌
  transport_of c trans cfg t u made own = grind arith

  -- A client that NewKubeletClient returns trusts no authority: a configuration of TLS that it has
  -- skips the verification of the kubelet's certificate.
  pub new_kubelet_client-insecure :
      (kc : KubeletClient) (cfg : TransportConfig) (t u : Trace)
      → new_kubelet_client tls sys host port t ≡ done kc u
      → kc.transport.tls ≡ some cfg
      → (cfg.insecure ≡ true) × (cfg.ca_file ≡ "") × (cfg.ca_data ≡ none)
  unfolding new_kubelet_client client_config pure
  new_kubelet_client-insecure kc cfg t u made own = bind-done _ _ t kc u made λ bearer v _ made_v.
      bind-done _ _ v kc u made_v λ timeout w _ made_w.
        bind-done _ _ w kc u made_w λ trans x own_x made_x.
          transport_of (client_config tls sys host port bearer timeout) trans cfg w x own_x
            (grind arith)

  timeout_of :
      (n : ℕ) (timeout : ℤ) (t u : Trace)
      → (environment sys "KUBELET_TIMEOUT" == "") ≡ false
      → atoi (environment sys "KUBELET_TIMEOUT") ≡ some (pos n)
      → kubelet_timeout tls sys t ≡ done timeout u
      → timeout ≡ pos n
  unfolding kubelet_timeout ◌>>=◌
  timeout_of n timeout t u set number made = grind arith

  -- The timeout of a client that NewKubeletClient returns is KUBELET_TIMEOUT in nanoseconds, if that
  -- is a number of seconds up to 9223372036; it is then the same as a signed number of 64 bits.
  pub new_kubelet_client-timeout :
      (kc : KubeletClient) (n : ℕ) (t u : Trace)
      → (environment sys "KUBELET_TIMEOUT" == "") ≡ false
      → atoi (environment sys "KUBELET_TIMEOUT") ≡ some (pos n)
      → n ≤ 9223372036
      → new_kubelet_client tls sys host port t ≡ done kc u
      → (kc.timeout ≡ n * 1000000000) × (kc.timeout < 2 ^ 63)
  unfolding new_kubelet_client client_config pure
  new_kubelet_client-timeout kc n t u set number small made =
      bind-done _ _ t kc u made λ bearer v _ made_v.
        bind-done _ _ v kc u made_v λ timeout w timed made_w.
          bind-done _ _ w kc u made_w λ trans x _ made_x.
            grind (arith, seconds-exact n small, timeout_of n timeout v w set number timed)
