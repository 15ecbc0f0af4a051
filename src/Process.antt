-- ===== src/Process.antt =====
-- cmd/main.go and `SetupWithManager` of internal/controller/fastfunc_controller.go: how the process starts. The
-- libraries' calls are parameters with a state of their own, in which the manager lives.
use fa_st_gshare_autoscaler.Nodes.{NodeManager, new_node_manager}
use fa_st_gshare_autoscaler.Common.{Bool, List, String, [], false, if◌then◌else◌, pos, true, ℕ, ◌∷◌}

-- The flags of the command line, parsed.
pub record Flags : Type 0 where
  pub metrics_addr : String
  pub probe_addr : String
  pub enable_leader_election : Bool
  pub secure_metrics : Bool
  pub enable_http2 : Bool
  pub node_listener_address : String
  pub prometheus_url : String

-- Their values if they are not given.
abbrev pub default_flags : Flags
default_flags = record {
  metrics_addr = "0";
  probe_addr = ":8081";
  enable_leader_election = false;
  secure_metrics = true;
  enable_http2 = false;
  node_listener_address = "0.0.0.0:10088";
  prometheus_url = "http://prometheus.fast-gshare.svc.cluster.local:9090";
}

-- `InitConfig`
pub record InitConfig : Type 0 where
  pub prometheus_url : String
  pub node_listener_address : String

-- What the program sets of a `tls.Config`: the protocols that a server offers.
pub record TlsConfig : Type 0 where
  pub next_protos : List String

-- The options of the metrics server; the last says whether requests are authenticated and authorised.
pub record MetricsOptions : Type 0 where
  pub bind_address : String
  pub secure_serving : Bool
  pub tls_opts : List (TlsConfig → TlsConfig)
  pub filtered : Bool

-- The options of the manager, with those of its webhook server.
pub record ManagerOptions : Type 0 where
  pub metrics : MetricsOptions
  pub webhook_tls_opts : List (TlsConfig → TlsConfig)
  pub health_probe_address : String
  pub leader_election : Bool

abbrev pub disable_http2 : TlsConfig → TlsConfig
disable_http2 c = record { next_protos = "http/1.1" ∷ [] }

unfoldable pub tls_opts_of : Flags → List (TlsConfig → TlsConfig)
tls_opts_of fl = if fl.enable_http2 then [] else disable_http2 ∷ []

unfoldable pub manager_options : Flags → ManagerOptions
unfolding tls_opts_of
manager_options fl = record {
  metrics = record {
    bind_address = fl.metrics_addr;
    secure_serving = fl.secure_metrics;
    tls_opts = tls_opts_of fl;
    filtered = fl.secure_metrics;
  };
  webhook_tls_opts = tls_opts_of fl;
  health_probe_address = fl.probe_addr;
  leader_election = false;
}

-- An informer of the library client-go, with its factory: it is started, and waited for until its cache has
-- synced or the channel `stopCh` is closed, which the flag says.
pub record Informer (W : Type 0) : Type 0 where
  pub start : W → W
  pub wait_for_cache_sync : W → W × Bool

-- The calls of the libraries; the flag is `false` for an error. The acceptor of connections, for the node
-- manager that it is given, and the registration of the types of FaSTPods are run for their effects.
pub record Platform (W C V : Type 0) : Type 0 where
  pub new_manager : ManagerOptions → W → W × Bool
  pub new_prometheus : String → W → W × Bool
  pub accept_nodes : NodeManager C V → String → W → W
  pub fastpod_informer : String → Informer W
  pub node_informer : Informer W
  pub add_to_scheme : W → W
  pub complete : W → W × Bool
  pub add_healthz_check : W → W × Bool
  pub add_readyz_check : W → W × Bool
  pub start_manager : W → W × Bool

module _ {W : Type 0} where
  -- The rest is done only if there was no error.
  abbrev pub and_then : W × Bool → (W → W × Bool) → W × Bool
  and_then (w, true) rest = rest w
  and_then (w, false) rest = (w, false)

module _ {W C V : Type 0} (p : Platform W C V) where
  open p use {
    new_manager, new_prometheus, accept_nodes, fastpod_informer, node_informer, add_to_scheme,
    complete, add_healthz_check, add_readyz_check, start_manager,
  }

  -- `getFaSTPodLister`; the flag is `false` for a lister that is nil.
  unfoldable pub get_fast_pod_lister : String → W → W × Bool
  get_fast_pod_lister namespace w =
      let informer = fastpod_informer namespace in
      and_then (informer.wait_for_cache_sync (informer.start w)) (λ w'. (w', true))

  -- `getNodeLister`, with the same flag.
  unfoldable pub get_node_lister : W → W × Bool
  get_node_lister w =
      and_then (node_informer.wait_for_cache_sync (node_informer.start w)) (λ w'. (w', true))

  -- `SetupWithManager`. The listers are kept as they are, also if they are nil.
  unfoldable pub setup_with_manager : InitConfig → W → W × Bool
  unfolding new_node_manager get_fast_pod_lister get_node_lister
  setup_with_manager cfg w = and_then (new_prometheus cfg.prometheus_url w) (λ w'.
      let accepting = accept_nodes (new_node_manager (pos 5)) cfg.node_listener_address w' in
      let (w1, fastpod_lister) = get_fast_pod_lister "fast-gshare-fn" accepting in
      let (w2, nodes_lister) = get_node_lister w1 in complete (add_to_scheme w2))

  abbrev pub init_config : Flags → InitConfig
  init_config fl = record {
    prometheus_url = fl.prometheus_url;
    node_listener_address = fl.node_listener_address;
  }

  -- The stages of `main` in their order.
  abbrev pub stages : Flags → List (W → W × Bool)
  stages fl =
      new_manager (manager_options fl)
      ∷ setup_with_manager (init_config fl)
      ∷ add_healthz_check
      ∷ add_readyz_check
      ∷ start_manager
      ∷ []

  abbrev pub run_stages : List (W → W × Bool) → W → W × Bool
  run_stages [] w = (w, true)
  run_stages (s ∷ rest) w = and_then (s w) (run_stages rest)

  -- `main`, with the exit status of the process.
  unfoldable pub main : Flags → W → W × ℕ
  unfolding setup_with_manager manager_options
  main fl w = let (w', succeeded) = run_stages (stages fl) w in (w', if succeeded then 0 else 1)
