-- ===== src/Tests/Control.antt =====
-- The theorems on the control of internal/controller and the store of internal/profiling on concrete
-- inputs, in hundredths for float64.
use fa_st_gshare_autoscaler.Release.Retries.{run_worker-empty}
use fa_st_gshare_autoscaler.Release.{Releaser, WorkItem, Worker, run_worker}
use fa_st_gshare_autoscaler.Prepare.{Requester}
use fa_st_gshare_autoscaler.Select.Order.{gpu_less-asym}
use fa_st_gshare_autoscaler.Select.Pick.Suitable.{IsPlaced, get_configs-IsPlaced}
use fa_st_gshare_autoscaler.Select.Pick.{get_configs}
use fa_st_gshare_autoscaler.Select.{Heap, VirtualGpu, gpu_less}
use fa_st_gshare_autoscaler.Nodes.{Node, ready}
use fa_st_gshare_autoscaler.Shelf.{can_fit, max_insertable_items}
use fa_st_gshare_autoscaler.Gpu.{Config, get_model_memory, new_gpu_dev_info}
use fa_st_gshare_autoscaler.Profiling.{QpsStore, estimate_qps, key_eq, set_qps}
use fa_st_gshare_autoscaler.Finder.Best.{Beats, Suits, get_config-Beats, get_config-Suits}
use fa_st_gshare_autoscaler.Finder.{
  Demand, ResourceRequest, candidate, get_config, make_config, search_pairs, trials,
}
use fa_st_gshare_autoscaler.Scale.Reduction.{Shrinks, plan-Shrinks}
use fa_st_gshare_autoscaler.Scale.Decision.{Quiets, decide-Quiets}
use fa_st_gshare_autoscaler.Scale.{Reading, counter_after, decide, plan, scale_down}
use fa_st_gshare_autoscaler.Common.{
  string_eq, int_eq, All, Bool, InRange, List, Option, String, [], add64, arith, false, mul64, none,
  pos, quot64, refl, some, sub64, true, ℕ, ℤ, ◌*ℤ◌, ◌+ℤ◌, ◌-ℤ◌, ◌<◌, ◌↔◌, ◌∷◌, ◌≡◌, ◌≢◌,
}
use fa_st_gshare_autoscaler.Common.Fixed.{fixed, fixed-IsComparable}
use fa_st_gshare_autoscaler.Tests.{gpu, kinds, three}

-- A reading of 1 request per second at a capacity of 100 with two configurations.
abbrev pub calm : Reading ℤ
calm = record {
  rps10s = pos 100;
  rps30s = pos 200;
  rps30s_earlier = pos 300;
  min_rps = pos 100;
  is_old_function = true;
  capacity = pos 10_000;
  config_count = 2;
}

decide-Quiets_example :
    (((decide calm (counter_after (calm ∷ calm ∷ []))).0 ≡ scale_down)
      ↔ ((counter_after (calm ∷ calm ∷ []) ≡ pos 2) × Quiets 3 (calm ∷ calm ∷ calm ∷ [])))
    × ((k : ℕ) × (counter_after (calm ∷ calm ∷ []) ≡ pos k) × (k < 3))
decide-Quiets_example = decide-Quiets calm (calm ∷ calm ∷ [])

-- The third calm reading in a row scales down.
pub third_calm : (decide calm (counter_after (calm ∷ calm ∷ []))).0 ≡ scale_down
unfolding counter_after decide add64 ◌-ℤ◌ ◌*ℤ◌
third_calm = refl

-- Two configurations of 10 and 20 requests per second, in replicas of 10.
abbrev pub small : Config ℤ ℕ
small = record three { allocated_replica = pos 1; allocated_rps = pos 1000 }

abbrev pub large : Config ℤ ℕ
large = record three { allocated_replica = pos 4; allocated_rps = pos 4000 }

small_range : InRange (pos 1)
small_range = record { below = omega arith; above = omega arith }

large_range : InRange (pos 4)
large_range = record { below = omega arith; above = omega arith }

plan-Shrinks_example : All Shrinks (plan (pos 1500) (small ∷ large ∷ []) (pos 5000)).0
plan-Shrinks_example =
    plan-Shrinks (pos 1500) (small ∷ large ∷ []) (pos 5000) (small_range, (large_range, tt))

abbrev pub uuids : ℕ → String
uuids n = "uuid"

-- One measurement: all of a V100 serves 10 requests per second.
abbrev pub store : QpsStore ℤ
store = (set_qps [] "resnet" "v100" (pos 100) (pos 100) (pos 1000)).0

abbrev demand : Demand ℤ ℕ
demand = record {
  model_name = "resnet";
  remaining_qps = pos 500;
  required_memory = pos 1_000_000_000;
  allocation_type = 1;
}

abbrev whole : Config ℤ ℕ
whole = make_config demand 0 gpu (pos 100) (pos 100) (pos 1000) "uuid"

only_trial : trials demand gpu ≡ (pos 100, pos 100) ∷ []
unfolding trials new_gpu_dev_info ◌-ℤ◌ ◌+ℤ◌
only_trial = refl

candidate-whole : candidate store demand 0 gpu "uuid" (pos 100, pos 100) ≡ some whole
unfolding candidate new_gpu_dev_info estimate_qps set_qps sub64 make_config can_fit key_eq ◌*ℤ◌ ◌+ℤ◌
candidate-whole = refl

get_config-Beats_example : Beats (get_config uuids store demand 0 gpu 0).0 whole
get_config-Beats_example =
    get_config-Beats fixed-IsComparable uuids store demand 0 gpu 0 [] [] (pos 100, pos 100) "uuid"
      whole refl only_trial candidate-whole

whole_found : (get_config uuids store demand 0 gpu 0).0 ≡ some whole
unfolding get_config new_gpu_dev_info estimate_qps set_qps sub64 make_config search_pairs candidate
    can_fit key_eq ◌*ℤ◌ ◌+ℤ◌
whole_found = refl

get_config-Suits_example : Suits demand 0 gpu whole
get_config-Suits_example =
    get_config-Suits fixed-IsComparable uuids store demand 0 gpu 0 whole whole_found

-- A node with one V100 that is provisioned, and a model for it.
abbrev pub node : Node ℕ VirtualGpu
node = record {
  ip = "10.0.0.1";
  grpc_port = pos 5000;
  status = ready;
  grpc_client = 0;
  last_heartbeat = pos 0;
  node_name = "node-1";
  available_gpus =
      record {
        is_provisioned = true;
        provisioned_gpu =
            some (record { uuid = "gpu-1"; memory_bytes = pos 16_000_000_000; parent_uuid = "" });
        physical_gpu_type = "V100-PCIE-16GB";
        memory_bytes = pos 16_000_000_000;
        id = "gpu-1";
        sm_percentage = pos 100;
        profile_id = none;
      }
      ∷ [];
  physical_gpus = [];
}

abbrev pub request : ResourceRequest ℤ ℕ
request = record { model_name = "resnet"; qps = pos 500; allocation_type = 1; preferred_gpu = "" }

abbrev pub unsorted : (ℕ → ℕ → Bool) → List ℕ → List ℕ
unsorted less addresses = addresses

abbrev selection : Heap ℤ ℕ × Option (List (Config ℤ ℕ)) × ℕ
selection = get_configs unsorted uuids store (("node-1", node) ∷ []) request [] 0

selected : selection.1 ≡ some (whole ∷ [])
unfolding get_configs search_pairs ◌-ℤ◌ ◌+ℤ◌ candidate sub64 can_fit estimate_qps set_qps key_eq
    ◌*ℤ◌ max_insertable_items add64 mul64 quot64
selected = refl

get_configs-IsPlaced_example :
    ((whole ∷ []) ≢ []) × All (IsPlaced selection.0 (pos 1_000_000_000)) (whole ∷ [])
unfolding get_model_memory
get_configs-IsPlaced_example =
    get_configs-IsPlaced fixed-IsComparable unsorted uuids store (("node-1", node) ∷ []) request []
      0 (pos 1_000_000_000) (whole ∷ []) refl selected

abbrev pub no_server : Requester ℕ ℕ
no_server world client mps profile = (world, none)

gpu_less-asym_example : gpu_less store request gpu (record gpu { allocation_type = 1 }) ≡ false
unfolding gpu_less new_gpu_dev_info
gpu_less-asym_example =
    gpu_less-asym fixed-IsComparable store request (record gpu { allocation_type = 1 }) gpu refl

-- An item of the release queue whose node always fails.
abbrev item : WorkItem
item = record {
  gpu_uuid = "gpu-1";
  fast_func_ref = ("", "");
  node_name = "node-1";
  retry_count = pos 0;
  timestamp = pos 0;
}

abbrev worker : Worker ℕ VirtualGpu
worker = record {
  manager = record { nodes = ("node-1", node) ∷ []; check_ticker_itv = pos 10 };
  processing = [];
  queue = item ∷ [];
}

abbrev failing : ℕ → Releaser ℕ VirtualGpu
failing turn client uuid = none

run_worker-empty_example : (run_worker (λ r. r.0) failing (λ n. pos n) 12 worker).queue ≡ []
run_worker-empty_example =
    run_worker-empty (λ r. r.0) failing (λ n. pos n) 12 worker (omega arith, tt) (omega arith)
