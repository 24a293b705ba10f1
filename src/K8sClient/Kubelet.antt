-- ===== src/K8sClient/Kubelet.antt =====
-- pkg/juicefs/k8sclient/kubelet_client.go: the client of the node's kubelet. Of k8s.io/client-go the
-- functions of `Tls` are parameters.
pub mod Options
use dfs_csi.Prelude.{
  ℕ, suc, ◌+◌, ◌-◌, ◌*◌, ◌%◌, ◌^◌, String, ◌<>◌, Bool, true, false, not, ◌&&◌, ◌||◌, Option, none,
  some, List, ◌==◌, if◌then◌else◌,
}
use dfs_csi.Prelude.Int.{ℤ, pos, negsuc}
use dfs_csi.Strings.{atoi, decimal_ℤ}
use dfs_csi.Kube.{Pod}
use dfs_csi.System.{System, environment, Failure, Result, ok, err}
use dfs_csi.System.Io.{
  Io, pure, fail, attempt, lift, read_file, kubelet_get, ◌>>=◌, ◌>>◌, on_result, on_option, branch,
}

-- transport.Config, with the fields of its TLSConfig
pub record TransportConfig : Type 0 where
  pub ca_file : String
  pub ca_data : Option String
  pub cert_file : String
  pub cert_data : Option String
  pub key_file : String
  pub key_data : Option String
  pub insecure : Bool
  pub bearer_token : String

-- KubeletClientConfig, with the fields of its TLSClientConfig that the code reads or sets. The timeout is a
-- time.Duration: 64 bits of nanoseconds.
pub record KubeletClientConfig : Type 0 where
  pub address : String
  pub port : ℤ
  pub server_name : String
  pub skip_tls_verify : Bool
  pub ca_file : String
  pub ca_data : Option String
  pub cert_file : String
  pub cert_data : Option String
  pub key_file : String
  pub key_data : Option String
  pub bearer_token : String
  pub http_timeout : ℕ

-- A round tripper: the configuration of its TLS, if it has one of its own, and that of the wrappers
-- around it.
pub record Transport : Type 0 where
  pub tls : Option TransportConfig
  pub wrapped : TransportConfig

-- KubeletClient, with its http.Client
pub record KubeletClient : Type 0 where
  pub host : String
  pub port : ℤ
  pub transport : Transport
  pub timeout : ℕ

-- Of a configuration, HasCA, transport.TLSConfigFor, which answers whether there is a configuration
-- of TLS, and the error of transport.HTTPWrappersForConfig.
pub record Tls : Type 0 where
  pub has_ca : TransportConfig → Bool
  pub tls_config_for : TransportConfig → Result Bool
  pub wrappers_for : TransportConfig → Result (Unit {0})

abbrev pub token_file : String
token_file = "/var/run/secrets/kubernetes.io/serviceaccount/token"

abbrev pub default_kubelet_timeout : ℤ
default_kubelet_timeout = pos 10

-- The 64 bits of an `int`.
unfoldable pub to_word : ℤ → ℕ
to_word (pos n) = n % 2 ^ 64
to_word (negsuc n) = (2 ^ 64 - 1) - n % 2 ^ 64

-- `time.Duration(n) * time.Second`
unfoldable pub seconds : ℤ → ℕ
unfolding to_word
seconds n = to_word n * 1000000000 % 2 ^ 64

module _ (tls : Tls) where
  -- transportConfig
  unfoldable pub transport_config : KubeletClientConfig → TransportConfig
  transport_config c =
      let cfg : TransportConfig = record {
        ca_file = c.ca_file;
        ca_data = c.ca_data;
        cert_file = c.cert_file;
        cert_data = c.cert_data;
        key_file = c.key_file;
        key_data = c.key_data;
        insecure = false;
        bearer_token = c.bearer_token;
      } in
      if tls.has_ca cfg then cfg else record cfg { insecure = true }

  -- The configuration of TLS in makeTransport.
  unfoldable pub pre_tls_config : KubeletClientConfig → Bool → TransportConfig
  unfolding transport_config
  pre_tls_config c skip =
      let cfg = transport_config c in
      if skip then record cfg { insecure = true; ca_data = none; ca_file = "" } else cfg

  -- makeTransport
  unfoldable pub make_transport : KubeletClientConfig → Bool → Io Transport
  unfolding pre_tls_config
  make_transport c skip = do
    own ← lift (tls.tls_config_for (pre_tls_config c skip))
    lift (tls.wrappers_for (transport_config c))
    pure (record {
      tls = if own then some (pre_tls_config c skip) else none;
      wrapped = transport_config c;
    })

  module _ (sys : System) where
    -- The token of the service account, where no certificate is set.
    unfoldable pub token : Io String
    unfolding environment
    token =
        branch
          (environment sys "KUBELET_CLIENT_CERT" == ""
            && environment sys "KUBELET_CLIENT_KEY" == "")
          (do
            r ← attempt (read_file sys token_file)
            on_result r (λ bytes. pure bytes)
                (λ e. fail (Failure.message "in cluster mode, find token failed")))
          (pure "")

    -- The timeout of KUBELET_TIMEOUT, in seconds.
    unfoldable pub kubelet_timeout : Io ℤ
    unfolding environment atoi
    kubelet_timeout =
        branch (environment sys "KUBELET_TIMEOUT" == "") (pure default_kubelet_timeout) (
          on_option (atoi (environment sys "KUBELET_TIMEOUT"))
            (fail (Failure.message "got error when parsing kubelet timeout")) (λ n. pure n))

    -- The configuration that NewKubeletClient makes.
    unfoldable pub client_config : String → ℤ → String → ℤ → KubeletClientConfig
    unfolding environment seconds
    client_config host port bearer timeout = record {
      address = host;
      port = port;
      server_name = "kubelet";
      skip_tls_verify = true;
      ca_file = "";
      ca_data = none;
      cert_file = environment sys "KUBELET_CLIENT_CERT";
      cert_data = none;
      key_file = environment sys "KUBELET_CLIENT_KEY";
      key_data = none;
      bearer_token = bearer;
      http_timeout = seconds timeout;
    }

    -- NewKubeletClient
    unfoldable pub new_kubelet_client : String → ℤ → Io KubeletClient
    unfolding token kubelet_timeout client_config make_transport
    new_kubelet_client host port = do
      bearer ← token
      timeout ← kubelet_timeout
      let config = client_config host port bearer timeout
      trans ← make_transport config (config.skip_tls_verify)
      pure (record {
        host = config.address;
        port = config.port;
        transport = trans;
        timeout = config.http_timeout;
      })

module _ (sys : System) where
  -- KubeletClient.GetNodeRunningPods. The status of the answer is not looked at.
  unfoldable pub get_node_running_pods : KubeletClient → Io (List Pod)
  unfolding decimal_ℤ
  get_node_running_pods kc = do
    body ← kubelet_get sys ("https://" <> (kc.host <> (":" <> (decimal_ℤ kc.port <> "/pods/"))))
    branch (body == "Unauthorized") (fail (Failure.message "unauthorized"))
        (lift (sys.unmarshal_pods body))
