-- ===== src/Nodes.antt =====
-- internal/controller/node_manager.go: the nodes that the autoscaler knows, their heartbeats and the
-- handshake. The clock, the gRPC client and the virtual GPUs of the library FaST-GShare are parameters.
-- The calls that hold the mutex `nodesMtx` are one step each; times are in nanoseconds.
use fa_st_gshare_autoscaler.Common.{
  string_eq, Bool, Float, GoMap, List, Option, String, [], false, if◌then◌else◌, insert, lookup,
  ltb_ℤ, map_values, mul64, none, pos, quot64, some, true, ℕ, ℤ, ◌==◌, ◌∷◌,
}
pub mod Liveness
pub mod Connection
pub mod Listing
pub mod Acceptor

-- `NodeStatus`
pub data NodeStatus : Type 0 where
  ready not_ready : NodeStatus

-- `Node`, over the type of the gRPC client and that of a virtual GPU. The map of GPUs holds addresses.
pub record Node (C V : Type 0) : Type 0 where
  pub ip : String
  pub grpc_port : ℤ
  pub status : NodeStatus
  pub grpc_client : C
  pub last_heartbeat : ℤ
  pub node_name : String
  pub available_gpus : List V
  pub physical_gpus : GoMap String ℕ

abbrev pub Nodes : Type 0 → Type 0 → Type 0
Nodes C V = GoMap String (Node C V)

-- The part of `NodeManager` that these functions read: the map and the seconds between checks.
pub record NodeManager (C V : Type 0) : Type 0 where
  pub nodes : Nodes C V
  pub check_ticker_itv : ℤ

-- `NewNodeManager`: an interval under ten seconds is raised to ten. `time.Duration(n) * time.Second`
-- is a product of int64 nanoseconds; `Seconds` of a whole number of seconds is that number.
unfoldable pub new_node_manager : {C V : Type 0} → ℤ → NodeManager C V
new_node_manager check_interval =
    let interval = mul64 check_interval (pos 1_000_000_000) in
    let raised = if ltb_ℤ interval (pos 10_000_000_000) then pos 10_000_000_000 else interval in
    record { nodes = []; check_ticker_itv = quot64 raised (pos 1_000_000_000) }

module _ {C V : Type 0} where
  -- A change of the node that a name has in the map; the map holds pointers, so the entry changes.
  unfoldable pub adjust : String → (Node C V → Node C V) → Nodes C V → Nodes C V
  adjust name change [] = []
  adjust name change ((k, n) ∷ rest) =
      let others = adjust name change rest in
      if k == name then (k, change n) ∷ rest else (k, n) ∷ others

  abbrev pub beat : ℤ → Node C V → Node C V
  beat now n = record n { status = ready; last_heartbeat = now }

  -- `UpdateHeartbeat`; the flag is `false` for the error "node not found".
  unfoldable pub update_heartbeat : String → ℤ → NodeManager C V → NodeManager C V × Bool
  unfolding adjust lookup
  update_heartbeat name now nm = elim (lookup name nm.nodes) [
    | none ↦ (nm, false)
    | some n ↦ (record nm { nodes = adjust name (beat now) nm.nodes }, true)
  ]

  abbrev pub mark_not_ready : Node C V → Node C V
  mark_not_ready n = record n { status = not_ready }

  -- `GetNodeStatus`
  unfoldable pub get_node_status : String → NodeManager C V → NodeStatus
  unfolding lookup
  get_node_status name nm = elim (lookup name nm.nodes) [ none ↦ not_ready | some n ↦ n.status ]

  -- A loss of the connection, a message that does not decode, or one that says not alive.
  unfoldable pub lose_node : String → NodeManager C V → NodeManager C V
  unfolding adjust
  lose_node name nm = record nm { nodes = adjust name mark_not_ready nm.nodes }

-- `elapsed now then` is `now.Sub(then).Seconds()` of the package time.
module _ {C V F : Type 0} ⦃f : Float F⦄ (elapsed : ℤ → ℤ → F) where
  abbrev pub is_late : ℤ → ℤ → Node C V → Bool
  is_late now itv n = f.flt (f.of_int itv) (elapsed now n.last_heartbeat)

  abbrev pub check_node : ℤ → ℤ → Node C V → Node C V
  check_node now itv n = if is_late now itv n then mark_not_ready n else n

  -- `CheckNodeLiveness`
  unfoldable pub check_node_liveness : ℤ → NodeManager C V → NodeManager C V
  unfolding map_values
  check_node_liveness now nm = record nm {
    nodes = map_values (check_node now nm.check_ticker_itv) nm.nodes;
  }

-- What the handshake of `handleNodeConnection` is given, in the order of the code: the hello
-- message, the pod of the daemon, the acknowledgement and the answers of the node's gRPC server.
-- A failed `Connect` is only logged, and the client is used all the same.
pub record Handshake (C V : Type 0) : Type 0 where
  pub remote_ip : String
  -- `none` if the line cannot be read or decoded; else the host name and the port
  pub hello : Option (String × ℤ)
  -- the name of the daemon pod's node, which is empty if there is no such pod, and its address
  pub daemon_node_name : String
  pub daemon_host_ip : String
  pub ack_sent : Bool
  pub client : C
  -- `none` if the call fails
  pub health : Option Bool
  pub gpus : Option (List V)

module _ {C V : Type 0} where
  -- The node's name and address: those of the daemon pod, if it tells its node.
  unfoldable pub resolve : Handshake C V → String → String × String
  resolve h hostname =
      if h.daemon_node_name == ""
      then (hostname, h.remote_ip)
      else (h.daemon_node_name, h.daemon_host_ip)

  abbrev pub joined : Handshake C V → String → ℤ → ℤ → List V → Node C V
  joined h ip port now gpus = record {
    ip = ip;
    grpc_port = port;
    status = ready;
    grpc_client = h.client;
    last_heartbeat = now;
    node_name = "";
    available_gpus = gpus;
    physical_gpus = [];
  }

  -- The steps of the handshake, each given the answer that it waits for. `none` in the result is an
  -- early return.
  unfoldable pub store_node :
      Handshake C V
      → ℤ
      → NodeManager C V
      → String
      → String
      → ℤ
      → Option (List V)
      → NodeManager C V × Option String
  unfolding insert
  store_node h now nm name ip port none = (nm, none)
  store_node h now nm name ip port (some gpus) =
      let node = record (joined h ip port now gpus) { node_name = name } in
      (record nm { nodes = insert name node nm.nodes }, some name)

  unfoldable pub check_health :
      Handshake C V
      → ℤ
      → NodeManager C V
      → String
      → String
      → ℤ
      → Option Bool
      → NodeManager C V × Option String
  unfolding store_node
  check_health h now nm name ip port none = (nm, none)
  check_health h now nm name ip port (some false) = (nm, none)
  check_health h now nm name ip port (some true) = store_node h now nm name ip port h.gpus

  unfoldable pub acknowledge :
      Handshake C V
      → ℤ
      → NodeManager C V
      → String
      → String
      → ℤ
      → Bool
      → NodeManager C V × Option String
  unfolding check_health
  acknowledge h now nm name ip port false = (nm, none)
  acknowledge h now nm name ip port true = check_health h now nm name ip port h.health

  unfoldable pub greet :
      Handshake C V → ℤ → NodeManager C V → Option (String × ℤ) → NodeManager C V × Option String
  unfolding resolve acknowledge
  greet h now nm none = (nm, none)
  greet h now nm (some (hostname, port)) =
      acknowledge h now nm (resolve h hostname).0 (resolve h hostname).1 port h.ack_sent

  -- The part of `handleNodeConnection` before the heartbeats: the name under which the node is now
  -- stored. A node that was there is replaced, its GPUs forgotten.
  unfoldable pub shake_hands : Handshake C V → ℤ → NodeManager C V → NodeManager C V × Option String
  unfolding greet
  shake_hands h now nm = greet h now nm h.hello

-- What the heartbeat loop reads next, with the time at which it is handled.
pub data Beat : Type 0 where
  read_error decode_error not_alive : Beat
  alive : ℤ → Beat

module _ {C V : Type 0} where
  -- The heartbeat loop; it returns at the first line that is no good heartbeat.
  unfoldable pub heartbeats : String → List Beat → NodeManager C V → NodeManager C V
  unfolding lose_node update_heartbeat
  heartbeats name [] nm = nm
  heartbeats name (alive now ∷ rest) nm = heartbeats name rest (update_heartbeat name now nm).0
  heartbeats name (read_error ∷ rest) nm = lose_node name nm
  heartbeats name (decode_error ∷ rest) nm = lose_node name nm
  heartbeats name (not_alive ∷ rest) nm = lose_node name nm

  -- `handleNodeConnection`, with no other connection in between.
  unfoldable pub handle_node_connection :
      Handshake C V → ℤ → List Beat → NodeManager C V → NodeManager C V
  unfolding shake_hands heartbeats
  handle_node_connection h now beats nm =
      let (nm', r) = shake_hands h now nm in
      elim r [ none ↦ nm' | some name ↦ heartbeats name beats nm' ]
