-- ===== src/Tests/Owned.antt =====
-- The theorems on the items that the functions own over a run of internal/controller, on two functions.
use fa_st_gshare_autoscaler.Gpu.Items.{item_on}
use fa_st_gshare_autoscaler.Controller.Full.{Steps-IsFull}
use fa_st_gshare_autoscaler.Controller.Recorders.{IsFull}
use fa_st_gshare_autoscaler.Controller.Owners.{IsOwned}
use fa_st_gshare_autoscaler.Controller.Owned.{Steps-IsOwned}
use fa_st_gshare_autoscaler.Controller.{begin, then_step, updates}
use fa_st_gshare_autoscaler.Update.{Backend, demand, request_of, update_function}
use fa_st_gshare_autoscaler.Functions.{FastFunc, State}
use fa_st_gshare_autoscaler.Scale.{delta_up}
use fa_st_gshare_autoscaler.Select.Pick.{get_configs}
use fa_st_gshare_autoscaler.Select.{VirtualGpu}
use fa_st_gshare_autoscaler.Finder.{candidate, search_pairs, trials}
use fa_st_gshare_autoscaler.Nodes.{Node}
use fa_st_gshare_autoscaler.Profiling.{estimate_qps, key_eq, set_qps}
use fa_st_gshare_autoscaler.Shelf.{can_fit, insert_rect, max_insertable_items}
use fa_st_gshare_autoscaler.Tests.Scaling.{elapsed}
use fa_st_gshare_autoscaler.Tests.Lifecycle.{Pods, backend, blank, hundred_range, object, rates}
use fa_st_gshare_autoscaler.Common.{
  int_eq, string_eq, nat_eq, Bool, GoMap, List, String, [], add64, arith, false, lookup, map, mul64,
  none, pos, quot64, refl, some, sub64, true, ℕ, ℤ, ◌*ℤ◌, ◌++◌, ◌+ℤ◌, ◌+◌, ◌-ℤ◌, ◌∷◌, ◌≡◌,
}
use fa_st_gshare_autoscaler.Common.Fixed.{fixed}
use mathlib.Core.List.Permᴰ
use mathlib.Core.Option
use fa_st_gshare_autoscaler.Tests.{kinds}
use fa_st_gshare_autoscaler.Tests.Uuids.{tally, tally-injective}
use fa_st_gshare_autoscaler.Tests.Control.{node}

-- Each UUID is drawn once.
abbrev drawing : Backend Pods ℕ ℕ ℤ ℕ
drawing = record backend { new_uuid = tally }

-- A node with two GPUs.
abbrev pair : Node ℕ VirtualGpu
pair = record node {
  available_gpus =
      node.available_gpus
      ++ (record {
        is_provisioned = true;
        provisioned_gpu =
            some (record { uuid = "gpu-2"; memory_bytes = pos 16_000_000_000; parent_uuid = "" });
        physical_gpu_type = "V100-PCIE-16GB";
        memory_bytes = pos 16_000_000_000;
        id = "gpu-2";
        sm_percentage = pos 100;
        profile_id = none;
      }
          ∷ []);
}

abbrev start : State Pods ℕ ℤ ℕ
start = record blank { site = record blank.site { nodes = ("node-1", pair) ∷ [] } }

start-IsOwned : IsOwned start.site.heap start.functions
unfolding lookup
start-IsOwned = record {
  named = λ k fn e. ground arith;
  distinct = λ k fn e. ground arith;
  keyed = λ k u c (fn, e, p). ground arith;
  held = λ k u c (fn, e, p). ground arith;
  apart = λ k u c k' u' c' (fn, e, p) q ne. ground arith;
}

-- A function is scaled up, and then another.
abbrev grown : State Pods ℕ ℤ ℕ
grown = (update_function drawing (object "f" []) rates (pos 500) "" start).0

abbrev grown_twice : State Pods ℕ ℤ ℕ
grown_twice = (update_function drawing (object "h" []) rates (pos 500) "" grown).0

abbrev asks : String → State Pods ℕ ℤ ℕ → ℕ
asks name st = demand drawing (request_of drawing (object name []) rates (pos 500) "" st) st

asks_one : asks "f" start ≡ 1
unfolding get_configs search_pairs ◌-ℤ◌ ◌+ℤ◌ candidate sub64 can_fit estimate_qps set_qps key_eq
    ◌*ℤ◌ max_insertable_items add64 mul64 quot64 delta_up lookup trials
asks_one = refl

asks_next : asks "h" grown ≡ 1
unfolding get_configs search_pairs ◌-ℤ◌ ◌+ℤ◌ candidate sub64 can_fit estimate_qps set_qps key_eq
    ◌*ℤ◌ max_insertable_items add64 mul64 quot64 delta_up lookup trials update_function insert_rect
    Option.bind
asks_next = refl

Steps-IsOwned_example : IsOwned grown_twice.site.heap grown_twice.functions
Steps-IsOwned_example =
    Steps-IsOwned drawing (λ w c mps profile p e. ground arith) (λ xs. Permᴰ.refl xs) (pos 10)
      elapsed start (0 + asks "f" start + asks "h" grown) grown_twice
      (then_step start grown grown_twice (0 + asks "f" start) (asks "h" grown)
        (then_step start start grown 0 (asks "f" start) (begin start)
          (updates (object "f" []) rates (pos 500) "" start))
        (updates (object "h" []) rates (pos 500) "" grown))
      (omega (arith, asks_one, asks_next))
      (record { gpus = tt; offers = ((hundred_range, (hundred_range, tt)), tt) }) start-IsOwned

-- Each of them has a configuration, on a GPU of its own. The second GPU was met twice: the node did not list
-- it after the first call.
abbrev addresses : GoMap String (FastFunc ℤ ℕ) → List (List ℕ)
addresses functions = map (λ e. map (λ x. x.1.associated_gpu) e.1.configs) functions

two_addresses : addresses grown_twice.functions ≡ (2 ∷ []) ∷ (0 ∷ []) ∷ []
unfolding get_configs search_pairs ◌-ℤ◌ ◌+ℤ◌ candidate sub64 can_fit estimate_qps set_qps key_eq
    ◌*ℤ◌ max_insertable_items add64 mul64 quot64 delta_up lookup trials update_function insert_rect
    Option.bind
two_addresses = refl

start-IsFull : IsFull drawing.new_uuid start.drawn start.site.heap start.functions
unfolding lookup
start-IsFull = record {
  full = λ i id h. refl;
  allocated = λ k u c (fn, e, p). ground arith;
  drew = λ k u c (fn, e, p). ground arith;
}

first_done : (update_function drawing (object "f" []) rates (pos 500) "" start).1 ≡ true
unfolding get_configs search_pairs ◌-ℤ◌ ◌+ℤ◌ candidate sub64 can_fit estimate_qps set_qps key_eq
    ◌*ℤ◌ max_insertable_items add64 mul64 quot64 delta_up lookup trials update_function insert_rect
    Option.bind
first_done = refl

second_done : (update_function drawing (object "h" []) rates (pos 500) "" grown).1 ≡ true
unfolding get_configs search_pairs ◌-ℤ◌ ◌+ℤ◌ candidate sub64 can_fit estimate_qps set_qps key_eq
    ◌*ℤ◌ max_insertable_items add64 mul64 quot64 delta_up lookup trials update_function insert_rect
    Option.bind
second_done = refl

Steps-IsFull_example :
    IsFull drawing.new_uuid grown_twice.drawn grown_twice.site.heap grown_twice.functions
Steps-IsFull_example =
    Steps-IsFull drawing (λ w c mps profile p e. ground arith) (λ xs. Permᴰ.refl xs) tally-injective
      (pos 10) elapsed start (0 + asks "f" start + asks "h" grown) grown_twice
      (then_step start grown grown_twice (0 + asks "f" start) (asks "h" grown)
        (then_step start start grown 0 (asks "f" start) (begin start)
          (updates (object "f" []) rates (pos 500) "" start))
        (updates (object "h" []) rates (pos 500) "" grown))
      ((tt, first_done), second_done) (omega (arith, asks_one, asks_next))
      (record { gpus = tt; offers = ((hundred_range, (hundred_range, tt)), tt) }) start-IsOwned
      start-IsFull

-- A cluster that creates no pod: UpdateFunction fails, and its replica stays on the GPU without a record.
abbrev refusing : Backend Pods ℕ ℕ ℤ ℕ
refusing = record drawing { kube = record drawing.kube { create = λ w p. (w, false) } }

abbrev refused : State Pods ℕ ℤ ℕ × Bool
refused = update_function refusing (object "f" []) rates (pos 500) "" start

refused_lem :
    (refused.1 ≡ false)
    × (addresses refused.0.functions ≡ [] ∷ [])
    × (item_on refused.0.site.heap 0 (pos 1)
        ≡ some (record { id = pos 1; width = pos 100; height = pos 100 }))
unfolding get_configs search_pairs ◌-ℤ◌ ◌+ℤ◌ candidate sub64 can_fit estimate_qps set_qps key_eq
    ◌*ℤ◌ max_insertable_items add64 mul64 quot64 delta_up lookup trials update_function insert_rect
    Option.bind
refused_lem = (refl, refl, refl)
