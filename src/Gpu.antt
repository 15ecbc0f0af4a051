-- ===== src/Gpu.antt =====
-- internal/controller/gpu_manager.go and model_memory.go: a GPU, its memory and its packer of shares,
-- and the part of `Config` (config_finder.go) that they read and write. A method that changes the GPU
-- and the configuration returns both.
use fa_st_gshare_autoscaler.Common.{
  string_eq, int_eq, Bool, Float, GoMap, Option, String, [], add64, delete, err, false,
  if◌then◌else◌, insert, leb_ℤ, lookup, ltb_ℤ, mul64, none, not, ok, one, pos, pos_part, some,
  sub64, suc, true, zero, ℕ, ℤ, ◌==◌, ◌∷◌,
}
use fa_st_gshare_autoscaler.Shelf.{ShelfPacker, can_fit, insert_rect, is_empty, new_shelf, remove}
use text.Mathlib.Text.{find?}
use mathlib.Core.Option
pub mod Memory
pub mod Replicas
pub mod Removal
pub mod Valid
pub mod Items
pub mod Takes
pub mod Keeps
pub mod Owned
pub mod Allocated

-- `types.AllocationType` of the library FaST-GShare, with the constants that this program names.
-- `unset` is the zero value of the type, which a GPU has until it is allocated.
pub record AllocationTypes (T : Type 0) : Type 0 where
  pub exclusive : T
  pub fast_pod : T
  pub mps : T
  pub unallocated : T
  pub unset : T
  pub same : T → T → Bool
  pub of_name : String → T
  pub to_name : T → String

-- `Config`. The associated GPU is an address in the heap of GPUs.
pub record Config (F T : Type 0) : Type 0 where
  pub allocation_type : T
  pub uuid : String
  pub quota_req : F
  pub quota_limit : F
  pub memory_req : ℤ
  pub sm_partition : ℤ
  pub node_name : String
  pub vgpu_uuid : String
  pub associated_gpu : ℕ
  pub required_replica : ℤ
  pub satisfiable_rps : F
  pub qps_per_replica : F
  pub cost : F
  pub remaining_rps : F
  pub allocated_replica : ℤ
  pub allocated_rps : F
  pub shelf_items : GoMap ℤ Bool
  pub efficiency_score : F

-- `GPUInfo`
pub record GpuInfo (F T : Type 0) : Type 0 where
  pub virtual : Bool
  pub profile_id : Option ℕ
  pub sm_count : ℤ
  pub allocation_type : T
  pub gpu_type : String
  pub uuid : String
  pub total_memory : ℤ
  pub name : String
  pub parent_uuid : String
  pub total_sm_percentage : ℤ
  pub node_name : String
  pub usage : ShelfPacker F
  pub sm_allocation_granularity : ℤ
  pub usage_memory : ℤ
  pub cost_per_second : ℤ

-- `strings.Contains`
abbrev pub contains : String → String → Bool
contains s t = elim (find? s t) [ none ↦ false | some i ↦ true ]

-- `GetTypeShortName`, of the GPU's type
unfoldable pub type_short_name : String → String
type_short_name gpu_type =
    if contains gpu_type "A100"
    then "a100"
    else if contains gpu_type "T1000"
    then "t1000"
    else if contains gpu_type "V100"
    then "v100"
    else if contains gpu_type "2080 Ti"
    then "rtx2080ti"
    else ""

-- `costsPerSecondMap`
abbrev pub costs_per_second : GoMap String ℤ
costs_per_second =
    ("a100", pos 12_000) ∷ ("t1000", pos 477) ∷ ("v100", pos 4_500) ∷ ("rtx2080ti", pos 1_000) ∷ []

-- `GetCost`
unfoldable pub get_cost : String → ℤ
unfolding lookup
get_cost short_name = elim (lookup short_name costs_per_second) [
  | none ↦ pos 10_000
  | some cost ↦ cost
]

-- `modelMemoryMap`, in bytes
abbrev pub model_memory : GoMap String ℤ
model_memory =
    ("resnet", pos 1_000_000_000)
    ∷ ("bert", pos 2_073_741_824)
    ∷ ("whispertiny", pos 1_000_000_000)
    ∷ ("gnmt", pos 2_073_741_824)
    ∷ ("rnnt", pos 2_073_741_824)
    ∷ ("phi3", pos 4_000_000_000)
    ∷ []

-- `GetModelMemory`: `none` is the error "model not found".
unfoldable pub get_model_memory : String → Option ℤ
unfolding lookup
get_model_memory name = lookup name model_memory

module _ {F T : Type 0} where
  -- `AvailableMemory`
  unfoldable pub available_memory : GpuInfo F T → ℤ
  available_memory g = sub64 g.total_memory g.usage_memory

  -- `FitsMemory`
  unfoldable pub fits_memory : GpuInfo F T → ℤ → Bool
  fits_memory g memory = leb_ℤ memory g.total_memory

  -- `FitsSM`
  unfoldable pub fits_sm : GpuInfo F T → ℤ → Bool
  fits_sm g sm = leb_ℤ sm g.total_sm_percentage

module _ {F : Type 0} ⦃f : Float F⦄ where
  -- The loop of `AllocateAndCommitConfig` over the replicas still to insert: the packer, the config's
  -- shelf items and the number inserted. It stops at the first failure.
  unfoldable pub insert_replicas :
      ℕ → F → ℤ → ShelfPacker F → GoMap ℤ Bool → ℤ → ShelfPacker F × GoMap ℤ Bool × ℤ
  insert_replicas zero quota sm u items n = (u, items, n)
  insert_replicas (suc left) quota sm u items n =
      let (u', r) = insert_rect u quota sm in
      elim r [
        | ok id ↦ insert_replicas left quota sm u' (insert id true items) (add64 n (pos 1))
        | err e ↦ (u', items, n)
      ]

  -- The loop of `DeallocateConfig` over the entries of `shelfItems`, in the order of the list.
  unfoldable pub remove_items :
      GoMap ℤ Bool → ShelfPacker F × GoMap ℤ Bool → ShelfPacker F × GoMap ℤ Bool
  remove_items [] (u, items) = (u, items)
  remove_items ((id, b) ∷ rest) (u, items) = remove_items rest ((remove u id).0, delete id items)

  -- The loop of `ReduceConfig`, which stops when `limit` items are removed.
  unfoldable pub remove_some :
      ℤ → GoMap ℤ Bool → ℤ → ShelfPacker F × GoMap ℤ Bool → ShelfPacker F × GoMap ℤ Bool
  remove_some limit [] removed (u, items) = (u, items)
  remove_some limit ((id, b) ∷ rest) removed (u, items) =
      let more =
        remove_some limit rest (add64 removed (pos 1)) ((remove u id).0, delete id items) in
      if ltb_ℤ removed limit then more else (u, items)

module _ {F T : Type 0} ⦃f : Float F⦄ where
  open f use {fmul, of_int, flt}

  -- `Fits`: whenever it answers `false` it also returns an error.
  unfoldable pub fits : GpuInfo F T → ℤ → F → ℤ → Bool
  unfolding available_memory
  fits g sm quota memory =
      if ltb_ℤ (pos 100) sm
      then false
      else if ltb_ℤ (available_memory g) memory
      then false
      else if flt one quota
      then false
      else can_fit g.usage quota sm

  -- `AllocateAndCommitConfig`; the flag is `false` if it returns an error.
  unfoldable pub allocate_and_commit_config :
      GpuInfo F T → Config F T → GpuInfo F T × Config F T × Bool
  unfolding insert_replicas
  allocate_and_commit_config g c =
      let reserved = sub64 g.usage_memory (mul64 c.memory_req c.required_replica) in
      let (u, items, n) =
        insert_replicas (pos_part c.required_replica) c.quota_req c.sm_partition g.usage
          c.shelf_items (pos 0) in
      let short = ltb_ℤ n c.required_replica in
      (
        record g {
          allocation_type = c.allocation_type;
          usage_memory =
              if short
              then add64 reserved (mul64 c.memory_req (sub64 c.required_replica n))
              else reserved;
          usage = u;
        },
        record c {
          shelf_items = items;
          allocated_replica = n;
          allocated_rps = fmul c.qps_per_replica (of_int n);
        },
        not short,
      )

  -- `DeallocateConfig`: whether the GPU is empty afterwards.
  unfoldable pub deallocate_config : GpuInfo F T → Config F T → GpuInfo F T × Config F T × Bool
  unfolding remove_items
  deallocate_config g c =
      let (u, items) = remove_items c.shelf_items (g.usage, c.shelf_items) in
      (
        record g {
          usage = u;
          usage_memory = add64 g.usage_memory (mul64 c.memory_req c.allocated_replica);
        },
        record c { shelf_items = items },
        is_empty u,
      )

  -- `ReduceConfig`: whether the GPU is empty afterwards.
  unfoldable pub reduce_config : GpuInfo F T → Config F T → ℤ → GpuInfo F T × Config F T × Bool
  unfolding remove_some
  reduce_config g c new_replica_count =
      let count = sub64 c.allocated_replica new_replica_count in
      let (u, items) = remove_some count c.shelf_items (pos 0) (g.usage, c.shelf_items) in
      if count == pos 0 then (g, c, is_empty g.usage) else (
        record g { usage = u; usage_memory = sub64 g.usage_memory (mul64 c.memory_req count) },
        record c { shelf_items = items },
        is_empty u,
      )

-- `NewGPUDevInfo`
module _ {F T : Type 0} ⦃f : Float F⦄ ⦃a : AllocationTypes T⦄ where
  unfoldable pub new_gpu_dev_info :
      String → String → Bool → Option ℕ → String → ℤ → ℤ → ℤ → GpuInfo F T
  unfolding get_cost type_short_name new_shelf
  new_gpu_dev_info node_name gpu_type virtual profile_id uuid mem total_sm granularity = record {
    virtual = virtual;
    profile_id = profile_id;
    sm_count = pos 0;
    allocation_type = a.unset;
    gpu_type = gpu_type;
    uuid = uuid;
    total_memory = mem;
    name = "";
    parent_uuid = "";
    total_sm_percentage = total_sm;
    node_name = node_name;
    usage = new_shelf total_sm;
    sm_allocation_granularity = granularity;
    usage_memory = pos 0;
    cost_per_second = get_cost (type_short_name gpu_type);
  }
