-- ===== src/Tests/Reports.antt =====
-- The theorems on the nodes of internal/controller/node_manager.go and the store of internal/profiling on
-- concrete inputs, in hundredths for float64.
use fa_st_gshare_autoscaler.Nodes.Connection.{
  Connects, entry_after, handle_node_connection-Connects,
}
use fa_st_gshare_autoscaler.Nodes.Liveness.{status-heartbeats}
use fa_st_gshare_autoscaler.Nodes.{
  Handshake, Node, NodeManager, alive, decode_error, get_node_status, heartbeats, not_ready, ready,
  handle_node_connection, not_alive,
}
use fa_st_gshare_autoscaler.Profiling.Laws.{Covers, get-set, load_rows-Covers_row}
use fa_st_gshare_autoscaler.Profiling.{
  Parsers, ProfileKey, Row, get_qps, key_eq, load_rows, parse_row, rounded_key, set_qps,
}
use fa_st_gshare_autoscaler.Common.{
  string_eq, int_eq, String, [], ap, arith, if◌then◌else◌, leb_ℤ, lookup, not, pos, refl, some,
  true, ℕ, ℤ, ◌&&◌, ◌++◌, ◌==◌, ◌∷◌, ◌≡◌, ◌≢◌,
}
use mathlib.Core.Option
use fa_st_gshare_autoscaler.Common.Fixed.{fixed, fixed-IsComparable}

abbrev first : String
first = "node-1"

abbrev second : String
second = "node-2"

abbrev node : Node ℕ ℕ
node = record {
  ip = "10.0.0.1";
  grpc_port = pos 5000;
  status = ready;
  grpc_client = 0;
  last_heartbeat = pos 0;
  node_name = first;
  available_gpus = [];
  physical_gpus = [];
}

abbrev manager : NodeManager ℕ ℕ
manager = record { nodes = (first, node) ∷ []; check_ticker_itv = pos 10 }

other_node : second ≢ first
other_node = λ e. ground (arith, ap (λ (s : String). s == first) e)

status-heartbeats_example :
    get_node_status first (heartbeats first (alive (pos 3) ∷ decode_error ∷ []) manager) ≡ not_ready
unfolding lookup
status-heartbeats_example =
    status-heartbeats first (alive (pos 3) ∷ decode_error ∷ []) manager node refl refl

abbrev handshake : Handshake ℕ ℕ
handshake = record {
  remote_ip = "10.0.0.2";
  hello = some ("daemon-2", pos 5000);
  daemon_node_name = second;
  daemon_host_ip = "10.0.0.3";
  ack_sent = true;
  client = 1;
  health = some true;
  gpus = some (4 ∷ []);
}

handle_node_connection-Connects_example :
    Connects handshake (pos 9) (alive (pos 12) ∷ not_alive ∷ alive (pos 15) ∷ []) manager (
      handle_node_connection handshake
        (pos 9)
        (alive (pos 12) ∷ not_alive ∷ alive (pos 15) ∷ [])
        manager)
handle_node_connection-Connects_example =
    handle_node_connection-Connects handshake (pos 9)
      (alive (pos 12) ∷ not_alive ∷ alive (pos 15) ∷ []) manager

-- The node is let in, and lost at the line that says not alive.
joins_then_lost :
    lookup second
      (handle_node_connection handshake (pos 9) (alive (pos 12) ∷ not_alive ∷ []) manager).nodes
    ≡ some (
        entry_after handshake "daemon-2"
          (pos 5000)
          (4 ∷ [])
          (pos 9)
          (alive (pos 12) ∷ not_alive ∷ []))
unfolding handle_node_connection lookup
joins_then_lost = refl

-- Numbers and fields that all parse, as 7 and 100.
abbrev parsers : Parsers ℤ
parsers = record { parse_float = λ s. some (pos 700); atoi = λ s. some (pos 100) }

abbrev row : Row
row = "v100" ∷ "resnet" ∷ "1.0" ∷ "100" ∷ "7" ∷ []

abbrev key : ProfileKey ℤ
key = record { model_name = "resnet"; gpu_type = "v100"; sm_percentage = pos 100; quota = pos 700 }

get-set_example :
    get_qps
      (set_qps [] "resnet" "v100" (pos 100) (pos 50) (pos 700)).0
      "resnet"
      "v100"
      (pos 100)
      (pos 50)
    ≡ (if not (leb_ℤ (pos 700) (pos 0))
          && key_eq
              (rounded_key "resnet" "v100" (pos 100) (pos 50))
              (rounded_key "resnet" "v100" (pos 100) (pos 50))
        then some (pos 700)
        else get_qps [] "resnet" "v100" (pos 100) (pos 50))
get-set_example =
    get-set fixed-IsComparable [] "resnet" "v100" (pos 100) (pos 50) (pos 700) "resnet" "v100"
      (pos 100) (pos 50)

load_rows-Covers_row_example :
    Covers fixed-IsComparable (load_rows parsers ([] ++ row ∷ []) []) key (pos 700)
unfolding parse_row key_eq Option.bind
load_rows-Covers_row_example =
    load_rows-Covers_row fixed-IsComparable parsers [] [] row key (pos 700) [] refl refl refl
