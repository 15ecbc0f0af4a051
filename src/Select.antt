-- ===== src/Select.antt =====
-- internal/controller/config_finder.go and gpu_sort.go: the GPUs of all nodes, their order, and the
-- configurations that meet a request together. GPUs lie in a heap, as the code shares pointers to them.
-- The order in which a node map is walked is that of its list.
use fa_st_gshare_autoscaler.Nodes.{Nodes, not_ready, ready}
use fa_st_gshare_autoscaler.Finder.{ResourceRequest}
use fa_st_gshare_autoscaler.Profiling.{QpsStore, estimate_qps}
use fa_st_gshare_autoscaler.Gpu.{
  AllocationTypes, GpuInfo, contains, fits_memory, new_gpu_dev_info, type_short_name,
}
use fa_st_gshare_autoscaler.Common.{
  string_eq, Bool, Float, GoMap, List, Option, String, [], false, get_elem?, if◌then◌else◌, length,
  lookup, none, not, one, pos, some, sub64, true, ℕ, ℤ, ◌&&◌, ◌++◌, ◌||◌, ◌∷◌,
}
pub mod Pick
pub mod Order
pub mod Sound
pub mod Untouched
pub mod Empty

-- What the program reads of `seti.GPU` and `seti.VirtualGPU`, byte counts converted to int64.
pub record ProvisionedGpu : Type 0 where
  pub uuid : String
  pub memory_bytes : ℤ
  pub parent_uuid : String

pub record VirtualGpu : Type 0 where
  pub is_provisioned : Bool
  pub provisioned_gpu : Option ProvisionedGpu
  pub physical_gpu_type : String
  pub memory_bytes : ℤ
  pub id : String
  pub sm_percentage : ℤ
  pub profile_id : Option ℕ

abbrev pub Heap : Type 0 → Type 0 → Type 0
Heap F T = List (GpuInfo F T)

-- The GPU that a virtual GPU is provisioned on.
abbrev pub provisioned : VirtualGpu → Option ProvisionedGpu
provisioned v = if v.is_provisioned then v.provisioned_gpu else none

module _ {F T : Type 0} ⦃f : Float F⦄ ⦃a : AllocationTypes T⦄ where
  open f use {fadd, fsub, fmul, fdiv, fle, flt, feq, of_int, decimal, fabs}

  abbrev pub alloc : Heap F T → GpuInfo F T → Heap F T × ℕ
  alloc heap g = (heap ++ (g ∷ []), length heap)

  -- The `if` of `extractGPUSFromNode`: the GPU that the node already has under that UUID, or a new one.
  unfoldable pub find_or_new :
      String → GoMap String ℕ → VirtualGpu → Option ProvisionedGpu → Heap F T → Heap F T × ℕ
  unfolding new_gpu_dev_info lookup
  find_or_new node_name known v none heap = alloc heap (
      new_gpu_dev_info node_name v.physical_gpu_type true v.profile_id v.id v.memory_bytes
        v.sm_percentage (pos 10))
  find_or_new node_name known v (some p) heap = elim (lookup p.uuid known) [
    | some address ↦ (heap, address)
    | none ↦ alloc heap (
        new_gpu_dev_info node_name v.physical_gpu_type false none p.uuid p.memory_bytes
          v.sm_percentage (pos 5))
  ]

  abbrev pub is_exclusive : Option (GpuInfo F T) → Bool
  is_exclusive none = false
  is_exclusive (some g) = a.same g.allocation_type a.exclusive

  -- `extractGPUSFromNode`: the GPUs that are not allocated exclusively.
  unfoldable pub extract_gpus :
      String → GoMap String ℕ → List VirtualGpu → Heap F T → Heap F T × List ℕ
  unfolding find_or_new
  extract_gpus node_name known [] heap = (heap, [])
  extract_gpus node_name known (v ∷ vs) heap =
      let (heap', address) = find_or_new node_name known v (provisioned v) heap in
      let (heap'', rest) = extract_gpus node_name known vs heap' in
      (heap'', if is_exclusive (get_elem? heap' address) then rest else address ∷ rest)

  -- The loop of `GetConfigs` over the nodes: only those that are ready.
  unfoldable pub gather_gpus : {C : Type 0} → Nodes C VirtualGpu → Heap F T → Heap F T × List ℕ
  unfolding extract_gpus
  gather_gpus [] heap = (heap, [])
  gather_gpus ((name, node) ∷ rest) heap = elim node.status [
    | not_ready ↦ gather_gpus rest heap
    | ready ↦
        let (heap', here) =
          extract_gpus node.node_name node.physical_gpus node.available_gpus heap in
        let (heap'', others) = gather_gpus rest heap' in (heap'', here ++ others)
  ]

  abbrev pub is_preferred : String → Option (GpuInfo F T) → Bool
  is_preferred preferred none = false
  is_preferred preferred (some g) = contains g.gpu_type preferred

  unfoldable pub keep_preferred : String → Heap F T → List ℕ → List ℕ
  keep_preferred preferred heap [] = []
  keep_preferred preferred heap (address ∷ rest) =
      let kept = keep_preferred preferred heap rest in
      if is_preferred preferred (get_elem? heap address) then address ∷ kept else kept

  -- `FilterGPUs`
  unfoldable pub filter_gpus : List (GpuInfo F T) → T → ℤ → List (GpuInfo F T)
  unfolding fits_memory
  filter_gpus [] wanted memory = []
  filter_gpus (g ∷ gs) wanted memory =
      let rest = filter_gpus gs wanted memory in
      let exclusive = a.same g.allocation_type a.exclusive in
      let is_used = not (a.same g.allocation_type a.unallocated) in
      if a.same wanted a.exclusive && is_used
      then rest
      else if a.same wanted a.fast_pod && exclusive
      then rest
      else if a.same wanted a.exclusive && not g.virtual
      then rest
      else if fits_memory g memory
      then g ∷ rest
      else rest

  -- The measures by which `sortGPUInfos` compares, in the order of the code.
  unfoldable pub efficiency : QpsStore F → String → GpuInfo F T → F
  efficiency store model g =
      fdiv (estimate_qps store model (type_short_name g.gpu_type) g.total_sm_percentage one (pos 0))
        (of_int g.cost_per_second)

  unfoldable pub balance : GpuInfo F T → F
  balance g = fabs (
      fsub (fdiv (of_int g.usage.used_height) (of_int g.usage.max_height))
        (fdiv (of_int g.usage_memory) (of_int g.total_memory)))

  unfoldable pub free_sm : GpuInfo F T → F
  free_sm g = of_int (sub64 g.usage.max_height g.usage.used_height)

  unfoldable pub free_memory : GpuInfo F T → F
  free_memory g = of_int (sub64 g.total_memory g.usage_memory)

  -- The function that `sortGPUInfos` hands to `sort.Slice`: whether `x` comes before `y`.
  unfoldable pub gpu_less : QpsStore F → ResourceRequest F T → GpuInfo F T → GpuInfo F T → Bool
  gpu_less store req x y =
      let x_match = a.same x.allocation_type req.allocation_type in
      let y_match = a.same y.allocation_type req.allocation_type in
      if x_match && not y_match || y_match && not x_match
      then x_match
      else if not (feq (efficiency store req.model_name x) (efficiency store req.model_name y))
      then flt (efficiency store req.model_name y) (efficiency store req.model_name x)
      else if not (feq (balance x) (balance y))
      then flt (balance x) (balance y)
      else if not (feq (free_sm x) (free_sm y))
      then flt (free_sm y) (free_sm x)
      else flt (free_memory x) (free_memory y)

  -- That function on the addresses of two GPUs.
  abbrev pub comes_before : QpsStore F → ResourceRequest F T → Heap F T → ℕ → ℕ → Bool
  comes_before store req heap i j = elim (get_elem? heap i) [
    | none ↦ false
    | some x ↦ elim (get_elem? heap j) [ none ↦ false | some y ↦ gpu_less store req x y ]
  ]
