-- ===== src/Update.antt =====
-- internal/controller/fastfunc_scale.go and the second half of fastfunc_reconcile.go: one call of
-- `UpdateFunction`, with the calls of the cluster by which it scales. A method on a shared
-- configuration or GPU writes it back to the map of its function and to the heap.
use fa_st_gshare_autoscaler.Functions.{
  FastFunc, Scheduled, State, current_configs, or_new, put_function, schedule_if, with_heap,
  with_world,
}
use fa_st_gshare_autoscaler.Pods.Spec.{
  FastPod, KubeClient, PodKeys, Printer, cluster_of, convert_configs, pod_namespace, scale_max,
  scale_min,
}
use fa_st_gshare_autoscaler.Pods.{Answer, add_fast_pods, done, failed, not_found}
use fa_st_gshare_autoscaler.Api.{FastFuncObject}
use fa_st_gshare_autoscaler.Names.{get_fast_pod_name}
use fa_st_gshare_autoscaler.Scale.{
  Action, Reading, ReduceInfo, decide, delta_up, predicted_rate, scale_down, scale_down_plan,
  scale_up, stay,
}
use fa_st_gshare_autoscaler.Prepare.{Requester, prepare_configs_requirements, required}
use fa_st_gshare_autoscaler.Select.Pick.{get_configs}
use fa_st_gshare_autoscaler.Select.{Heap}
use fa_st_gshare_autoscaler.Finder.{ResourceRequest}
use fa_st_gshare_autoscaler.Profiling.{QpsStore}
use fa_st_gshare_autoscaler.Gpu.{AllocationTypes, Config, deallocate_config, reduce_config}
use fa_st_gshare_autoscaler.Shelf.Invariant.{found}
use fa_st_gshare_autoscaler.Common.{
  string_eq, int_eq, Bool, Float, List, Option, String, [], delete, false, get_elem?, if◌then◌else◌,
  insert, int32, length, lookup, ltb, none, set, some, true, ℕ, ℤ, ◌∷◌,
}
pub mod Bookkeeping
pub mod Entry
pub mod Released
pub mod Planned
pub mod Isolated
pub mod Linked
pub mod Once
pub mod Beside
pub mod Shrunk
pub mod Listed
pub mod Owned
pub mod Full
pub mod Emptied
pub mod Complete
pub mod Grown

-- What the controller calls: the nodes' servers, the cluster, `sort.Slice` on GPUs and on configurations,
-- the UUIDs, the measurements, the writing of numbers, and the owner reference of a pod.
pub record Backend (W C S F T : Type 0) : Type 0 where
  pub request : Requester W C
  pub kube : KubeClient W S
  pub sort_gpus : (ℕ → ℕ → Bool) → List ℕ → List ℕ
  pub sort_configs : List (Config F T) → List (Config F T)
  pub new_uuid : ℕ → String
  pub store : QpsStore F
  pub keys : PodKeys
  pub print : Printer F
  pub own : FastFuncObject S → FastPod S → Option (FastPod S)

abbrev pub pod_key : {F T : Type 0} → String → Config F T → String × String
pod_key function_name c = (pod_namespace, get_fast_pod_name function_name c.uuid)

module _ {W S : Type 0} (kube : KubeClient W S) where
  -- A configuration to remove: its pod is deleted, if it is there. The flag says whether it counts as removed.
  unfoldable pub retire : W × Answer (FastPod S) → W × Bool
  retire (w, not_found) = (w, true)
  retire (w, failed) = (w, false)
  retire (w, done pod) = kube.delete_pod w pod

module _ {W S F T : Type 0} (kube : KubeClient W S) where
  -- The loop over the configurations to remove: those that are removed.
  unfoldable pub retire_all : String → List (Config F T) → W → W × List (Config F T)
  unfolding retire
  retire_all function_name [] w = (w, [])
  retire_all function_name (c ∷ cs) w =
      let (w', gone) = retire kube (kube.get w (pod_key function_name c)) in
      let (w'', rest) = retire_all function_name cs w' in (w'', if gone then c ∷ rest else rest)

module _ {W S F : Type 0} (kube : KubeClient W S) (print : Printer F) where
  -- A pod with the new number of replicas. The labels of an existing pod are not nil.
  unfoldable pub resized : ℤ → FastPod S → FastPod S
  unfolding insert
  resized new_replica pod = record pod {
    replicas = int32 new_replica;
    labels =
        insert scale_min (print.itoa new_replica)
          (insert scale_max (print.itoa new_replica) pod.labels);
  }

  -- A configuration to reduce: its pod is updated, if it is there. The flag says whether it counts as reduced.
  unfoldable pub resize : ℤ → W × Answer (FastPod S) → W × Bool
  unfolding resized
  resize new_replica (w, not_found) = (w, true)
  resize new_replica (w, failed) = (w, false)
  resize new_replica (w, done pod) = kube.update w (resized new_replica pod)

module _ {W S F T : Type 0} (kube : KubeClient W S) (print : Printer F) where
  -- The loop over the configurations to reduce: those that are reduced.
  unfoldable pub resize_all : String → List (ReduceInfo F T) → W → W × List (ReduceInfo F T)
  unfolding resize
  resize_all function_name [] w = (w, [])
  resize_all function_name (info ∷ infos) w =
      let (w', reduced) =
        resize kube print info.new_replica (kube.get w (pod_key function_name info.config)) in
      let (w'', rest) = resize_all function_name infos w' in
      (w'', if reduced then info ∷ rest else rest)

-- A function, the GPUs and the deletions scheduled, while a scaling is carried out.
pub record Accounts (F T : Type 0) : Type 0 where
  pub fn : FastFunc F T
  pub heap : Heap F T
  pub scheduled : List Scheduled

module _ {F T : Type 0} ⦃f : Float F⦄ where
  open f use {fadd, fsub}

  -- The loop of `UpdateFunction` over the configurations reduced. A GPU that is not in the heap, a nil
  -- pointer in the code, does not occur for an allocated configuration.
  unfoldable pub apply_reduction : ReduceInfo F T → Accounts F T → Accounts F T
  unfolding reduce_config insert
  apply_reduction info acc = elim (get_elem? acc.heap info.config.associated_gpu) [
    | none ↦ acc
    | some g ↦
        let (g', c', empty) = reduce_config g info.config info.new_replica in
        record {
          fn = record acc.fn {
            configs = insert c'.uuid c' acc.fn.configs;
            current_rps_capacity = fsub acc.fn.current_rps_capacity info.reduced_delta;
          };
          heap = set acc.heap info.config.associated_gpu g';
          scheduled = schedule_if empty g' acc.scheduled;
        }
  ]

  unfoldable pub apply_reductions : List (ReduceInfo F T) → Accounts F T → Accounts F T
  unfolding apply_reduction
  apply_reductions [] acc = acc
  apply_reductions (info ∷ infos) acc = apply_reductions infos (apply_reduction info acc)

  -- The loop over the configurations removed.
  unfoldable pub apply_removal : Config F T → Accounts F T → Accounts F T
  unfolding deallocate_config delete
  apply_removal c acc = elim (get_elem? acc.heap c.associated_gpu) [
    | none ↦ acc
    | some g ↦
        let (g', c', empty) = deallocate_config g c in
        record {
          fn = record acc.fn {
            configs = delete c.uuid acc.fn.configs;
            current_rps_capacity = fsub acc.fn.current_rps_capacity c.allocated_rps;
          };
          heap = set acc.heap c.associated_gpu g';
          scheduled = schedule_if empty g' acc.scheduled;
        }
  ]

  unfoldable pub apply_removals : List (Config F T) → Accounts F T → Accounts F T
  unfolding apply_removal
  apply_removals [] acc = acc
  apply_removals (c ∷ cs) acc = apply_removals cs (apply_removal c acc)

  -- The loop that records the configurations of a scale-up.
  unfoldable pub adopt : List (Config F T) → FastFunc F T → FastFunc F T
  unfolding insert
  adopt [] fn = fn
  adopt (c ∷ cs) fn = adopt cs (record fn {
    configs = insert c.uuid c fn.configs;
    current_rps_capacity = fadd fn.current_rps_capacity c.allocated_rps;
  })

module _ {W C S F T : Type 0} ⦃f : Float F⦄ (b : Backend W C S F T) where
  -- `scaleDownFaSTFunc`: the configurations reduced and those removed. The removals come first.
  unfoldable pub scale_down_fast_func :
      FastFunc F T → F → W → W × List (ReduceInfo F T) × List (Config F T)
  unfolding scale_down_plan retire_all resize_all current_configs
  scale_down_fast_func fn new_rps w =
      let (updates, removals, end) = scale_down_plan b.sort_configs (current_configs fn) new_rps in
      let (w', removed) = retire_all b.kube fn.name removals w in
      let (w'', reduced) = resize_all b.kube b.print fn.name updates w' in (w'', reduced, removed)

  -- The branch that scales down. The accounts take the reductions before the removals.
  unfoldable pub shrink_function : FastFunc F T → F → State W C F T → State W C F T
  unfolding scale_down_fast_func apply_reductions apply_removals insert
  shrink_function fn new_rps st =
      let (w', reduced, removed) = scale_down_fast_func fn new_rps st.site.world in
      let acc = apply_removals removed (
        apply_reductions reduced
          (record { fn = fn; heap = st.site.heap; scheduled = st.scheduled })) in
      put_function acc.fn (record st {
        site = record st.site { world = w'; heap = acc.heap };
        scheduled = acc.scheduled;
      })

module _ {W C S F T : Type 0} ⦃f : Float F⦄ ⦃a : AllocationTypes T⦄ (b : Backend W C S F T) where
  abbrev pub fast_pods : FastFuncObject S → List (Config F T) → List (FastPod S)
  fast_pods obj cs = elim (convert_configs b.print b.keys (b.own obj) obj cs) [
    | none ↦ []
    | some pods ↦ pods
  ]

  -- The end of the branch that scales up, given whether `AddFastPods` succeeds.
  unfoldable pub settle :
      FastFunc F T → List (Config F T) → State W C F T → W × Bool → State W C F T × Bool
  unfolding adopt insert
  settle fn cs st (w, true) = (put_function (adopt cs fn) (with_world w st), true)
  settle fn cs st (w, false) = (put_function fn (with_world w st), false)

  -- The branch after `GetConfigs`: without an error the prepared configurations get their FaSTPods.
  unfoldable pub deploy :
      FastFuncObject S
      → FastFunc F T
      → ResourceRequest F T
      → Option (List (Config F T))
      → State W C F T
      → State W C F T × Bool
  unfolding prepare_configs_requirements add_fast_pods convert_configs settle insert
  deploy obj fn req none st = (put_function fn st, true)
  deploy obj fn req (some cs) st =
      let (site', prepared) = prepare_configs_requirements b.request req cs st.site in
      settle fn prepared (record st { site = site' })
        (add_fast_pods (cluster_of b.kube) (fast_pods obj prepared) site'.world)

  -- The branch that scales up; the flag is `false` if `UpdateFunction` returns an error.
  unfoldable pub grow_function :
      FastFuncObject S → FastFunc F T → ResourceRequest F T → State W C F T → State W C F T × Bool
  unfolding get_configs deploy
  grow_function obj fn req st =
      let (heap', found, n) =
        get_configs b.sort_gpus b.new_uuid b.store st.site.nodes req st.site.heap st.drawn in
      deploy obj fn req found (record (with_heap heap' st) { drawn = n })

  -- What `UpdateFunction` does once it has decided.
  unfoldable pub act :
      Action
      → FastFuncObject S
      → FastFunc F T
      → ResourceRequest F T
      → F
      → State W C F T
      → State W C F T × Bool
  unfolding grow_function shrink_function insert
  act scale_up obj fn req predicted st = grow_function obj fn req st
  act scale_down obj fn req predicted st =
      if ltb 1 (length (current_configs fn))
      then (shrink_function b fn predicted st, true)
      else (put_function fn st, true)
  act stay obj fn req predicted st = (put_function fn st, true)

  abbrev pub is_known : Option (FastFunc F T) → Bool
  is_known none = false
  is_known (some fn) = true

  -- The measured rates and the minimum, with what the function's entry adds.
  abbrev pub reading : F × F × F → F → Option (FastFunc F T) → FastFunc F T → Reading F
  reading rates min_rps known fn = record {
    rps10s = rates.0;
    rps30s = rates.1;
    rps30s_earlier = rates.2;
    min_rps = min_rps;
    is_old_function = is_known known;
    capacity = fn.current_rps_capacity;
    config_count = length (current_configs fn);
  }

  -- The request for the GPUs of a scale-up.
  abbrev pub wanted : FastFuncObject S → Reading F → String → ResourceRequest F T
  wanted obj r preferred = record {
    model_name = obj.spec.model_name;
    qps = delta_up r;
    allocation_type = a.of_name obj.spec.allocation_type;
    preferred_gpu = preferred;
  }

  -- `UpdateFunction`
  unfoldable pub update_function :
      FastFuncObject S → F × F × F → F → String → State W C F T → State W C F T × Bool
  unfolding decide act lookup delta_up predicted_rate
  update_function obj rates min_rps preferred st =
      let known = lookup obj.name st.functions in
      let fn = or_new obj.name known in
      let r = reading rates min_rps known fn in
      let (action, count) = decide r fn.scale_down_count in
      act action obj (record fn { scale_down_count = count }) (wanted obj r preferred)
        (predicted_rate r) st

  -- The replicas that the configurations found require.
  abbrev pub demanded : Option (List (Config F T)) → ℕ
  demanded none = 0
  demanded (some cs) = required cs

  -- Those of the configurations that a request finds in a state.
  abbrev pub demand : ResourceRequest F T → State W C F T → ℕ
  demand req st =
      demanded
        (get_configs b.sort_gpus b.new_uuid b.store st.site.nodes req st.site.heap st.drawn).1

  -- The request that `UpdateFunction` makes.
  abbrev pub request_of :
      FastFuncObject S → F × F × F → F → String → State W C F T → ResourceRequest F T
  request_of obj rates min_rps preferred st =
      let known = lookup obj.name st.functions in
      wanted obj (reading rates min_rps known (or_new obj.name known)) preferred
