-- ===== src/Tests/Scaling.antt =====
-- The theorems on scaling, deletion and runs of internal/controller on concrete inputs, in hundredths for float64.
use fa_st_gshare_autoscaler.Update.Linked.{AreFor, adopt-AreFor}
use fa_st_gshare_autoscaler.Update.Isolated.{KeepsForeign, update_function-KeepsForeign}
use fa_st_gshare_autoscaler.Gpu.Takes.{Takes}
use fa_st_gshare_autoscaler.Update.Released.{reduced_then, shrink_function-Takes}
use fa_st_gshare_autoscaler.Prepare.Holding.{Holds}
use fa_st_gshare_autoscaler.Prepare.Held.{prepare_configs-Holds}
use fa_st_gshare_autoscaler.Prepare.Sound.{IsHealthy}
use fa_st_gshare_autoscaler.Controller.Healthy.{Steps-IsHealthy}
use fa_st_gshare_autoscaler.Reconcile.Starts.{HasStarted, reconcile_all-HasStarted}
use fa_st_gshare_autoscaler.Gpu.Allocated.{IsAllocated}
use fa_st_gshare_autoscaler.Deletion.Kept.{Deleted, handle_deleted-Deleted}
use fa_st_gshare_autoscaler.Gpu.Valid.{AreSound, IsSound, IsSound-allocate}
use fa_st_gshare_autoscaler.Controller.{begin, deletes, then_step, updates}
use fa_st_gshare_autoscaler.Reconcile.{Found, Reconciler, get_error, gone, present, reconcile_all}
use fa_st_gshare_autoscaler.Deletion.{handle_deleted}
use fa_st_gshare_autoscaler.Update.{
  adopt, demand, fast_pods, request_of, scale_down_fast_func, shrink_function, update_function,
}
use fa_st_gshare_autoscaler.Functions.{FastFunc, State, current_configs, or_new}
use fa_st_gshare_autoscaler.Pods.Spec.{FastPod, convert_configs}
use fa_st_gshare_autoscaler.Scale.{delta_up}
use fa_st_gshare_autoscaler.Prepare.{Site, prepare_configs_requirements}
use fa_st_gshare_autoscaler.Select.Pick.{get_configs}
use fa_st_gshare_autoscaler.Finder.{ResourceRequest, candidate, search_pairs, trials}
use fa_st_gshare_autoscaler.Profiling.{estimate_qps, key_eq, set_qps}
use fa_st_gshare_autoscaler.Gpu.{Config, new_gpu_dev_info}
use fa_st_gshare_autoscaler.Shelf.{can_fit, max_insertable_items, new_shelf}
use mathlib.Core.Option.{some-injective}
use fa_st_gshare_autoscaler.Common.{
  nat_eq, string_eq, int_eq, All, List, String, [], add64, ap, arith, false, lookup, mul64, pos,
  quot, quot64, refl, some, sub64, sym, true, ℕ, ℤ, ◌*ℤ◌, ◌+ℤ◌, ◌+◌, ◌-ℤ◌, ◌<◌, ◌==◌, ◌^◌, ◌∷◌, ◌≡◌,
}
use fa_st_gshare_autoscaler.Common.Fixed.{fixed}
use fa_st_gshare_autoscaler.Tests.Lifecycle.{Pods, backend, blank, hundred_range, object, rates}
use fa_st_gshare_autoscaler.Tests.Control.{no_server, node, request as ask}
use fa_st_gshare_autoscaler.Tests.{both, busy_gpu, gpu, gpu-IsValid, kinds, three}

-- A function with two replicas on a GPU.
abbrev function : FastFunc ℤ ℕ
function = record {
  name = "f";
  configs = ("config-1", both) ∷ [];
  current_rps_capacity = pos 2000;
  scale_down_count = pos 0;
}

abbrev loaded : State Pods ℕ ℤ ℕ
loaded = record {
  site = record { world = []; nodes = ("node-1", node) ∷ []; heap = busy_gpu ∷ [] };
  functions = ("f", function) ∷ [];
  scheduled = [];
  drawn = 0;
}

gpu-IsSound : IsSound 3 gpu
unfolding new_gpu_dev_info new_shelf
gpu-IsSound = record {
  packer = record { valid = gpu-IsValid; ids = omega arith };
  range = hundred_range;
}

loaded-AreSound : AreSound 0 loaded.site.heap
loaded-AreSound = (IsSound-allocate 0 gpu three gpu-IsSound, tt)

both-IsAllocated : IsAllocated both
both-IsAllocated = record { some_replica = omega arith; few = omega arith; items = omega arith }

handle_deleted-Deleted_example : Deleted "f" function loaded (handle_deleted "f" loaded)
unfolding lookup current_configs
handle_deleted-Deleted_example =
    handle_deleted-Deleted "f" function loaded refl (both-IsAllocated, tt) loaded-AreSound

-- The same function with the rate of its two replicas.
abbrev rated : Config ℤ ℕ
rated = record both { allocated_rps = pos 2000 }

abbrev serving : FastFunc ℤ ℕ
serving = record function { configs = ("config-1", rated) ∷ [] }

shrink_function-Takes_example :
    Takes
      (scale_down_fast_func backend serving (pos 0) []).2
      (reduced_then
        (scale_down_fast_func backend serving (pos 0) []).1
        (scale_down_fast_func backend serving (pos 0) []).2)
      loaded.site.heap
      (shrink_function backend serving (pos 0) loaded).site.heap
shrink_function-Takes_example = shrink_function-Takes backend serving (pos 0) loaded loaded-AreSound

-- Its configuration is removed.
all_removed : (scale_down_fast_func backend serving (pos 0) []).2 ≡ rated ∷ []
unfolding scale_down_fast_func lookup quot sub64 ◌+ℤ◌ ◌-ℤ◌ ◌*ℤ◌
all_removed = refl

-- A quiet function with two configurations, at its third low load.
abbrev second : Config ℤ ℕ
second = record both { uuid = "config-2"; allocated_rps = pos 1000; shelf_items = [] }

abbrev quiet : State Pods ℕ ℤ ℕ
quiet = record {
  site = record { world = []; nodes = []; heap = busy_gpu ∷ [] };
  functions =
      (
        "f",
        record function {
          configs = ("config-1", both) ∷ ("config-2", second) ∷ [];
          scale_down_count = pos 2;
        },
      )
      ∷ [];
  scheduled = [];
  drawn = 0;
}

nothing_demanded :
    demand backend (request_of backend (object "f" []) rates (pos 100) "" quiet) quiet ≡ 0
unfolding get_configs lookup
nothing_demanded = refl

update_function-KeepsForeign_example :
    KeepsForeign
      (or_new "f" (lookup "f" quiet.functions))
      quiet.site.heap
      (update_function backend (object "f" []) rates (pos 100) "" quiet).0.site.heap
update_function-KeepsForeign_example =
    update_function-KeepsForeign backend (λ w c mps profile p e. ground arith) (object "f" []) rates
      (pos 100) "" quiet (λ P xs h. h) (omega (arith, nothing_demanded))
      (record { gpus = rw nothing_demanded loaded-AreSound; offers = tt })

adopt-AreFor_example :
    AreFor
      (adopt (both ∷ second ∷ []) function)
      (both ∷ second ∷ [])
      (fast_pods backend (object "f" []) (both ∷ second ∷ []))
unfolding convert_configs mathlib.Core.Option.bind
adopt-AreFor_example =
    adopt-AreFor backend.print backend.keys (λ p. some p) function (object "f" [])
      (both ∷ second ∷ []) (fast_pods backend (object "f" []) (both ∷ second ∷ []))
      (λ p p' e. ap (λ (x : FastPod ℕ). x.annotations) (sym (some-injective _ _ e)))
      (((λ e. ground (arith, ap (λ (s : String). s == "config-1") e)), tt), (tt, tt)) refl

abbrev idle : Reconciler Pods ℕ ℤ ℕ
idle = record {
  state = loaded;
  queue_made = false;
  worker_started = false;
  once_done = false;
  started = [];
}

abbrev requests : List (String × Found)
requests = ("g", gone) ∷ ("f", present) ∷ ("h", get_error) ∷ ("f", present) ∷ []

reconcile_all-HasStarted_example : HasStarted true (reconcile_all requests idle)
reconcile_all-HasStarted_example = reconcile_all-HasStarted requests idle (refl, refl, refl, refl)

abbrev grown : State Pods ℕ ℤ ℕ
grown = (update_function backend (object "f" []) rates (pos 500) "" blank).0

pub elapsed : ℤ → ℤ → ℤ
elapsed x y = x

abbrev wish : ResourceRequest ℤ ℕ
wish = request_of backend (object "f" []) rates (pos 500) "" blank

demanded_one : demand backend wish blank ≡ 1
unfolding get_configs search_pairs ◌-ℤ◌ ◌+ℤ◌ candidate sub64 can_fit estimate_qps set_qps key_eq
    ◌*ℤ◌ max_insertable_items add64 mul64 quot64 delta_up lookup trials
demanded_one = refl

few_ids : demand backend wish blank < 2 ^ 62
few_ids = omega (arith, demanded_one)

-- The function is scaled up, and then deleted.
Steps-IsHealthy_example : IsHealthy 0 (handle_deleted "f" grown).site
Steps-IsHealthy_example =
    Steps-IsHealthy backend (λ w c mps profile p e. ground arith) (pos 10) elapsed 0 blank
      (0 + demand backend wish blank + 0) (handle_deleted "f" grown)
      (then_step blank grown (handle_deleted "f" grown) (0 + demand backend wish blank) 0
        (then_step blank blank grown 0 (demand backend wish blank) (begin blank)
          (updates (object "f" []) rates (pos 500) "" blank))
        (deletes "f" grown))
      (omega (arith, few_ids)) (record { gpus = tt; offers = ((hundred_range, tt), tt) })

abbrev site : Site ℕ ℕ ℤ ℕ
site = record { world = 0; nodes = ("node-1", node) ∷ []; heap = gpu ∷ [] }

prepare_configs-Holds_example :
    All
      (Holds (gpu ∷ []) (prepare_configs_requirements no_server ask (three ∷ []) site).0.heap)
      (prepare_configs_requirements no_server ask (three ∷ []) site).1
prepare_configs-Holds_example =
    prepare_configs-Holds no_server ask (three ∷ []) site (λ w c mps profile p e. ground arith)
      (refl, tt) (omega arith)
      (record { gpus = (gpu-IsSound, tt); offers = ((hundred_range, tt), tt) })
