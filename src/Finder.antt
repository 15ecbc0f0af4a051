-- ===== src/Finder.antt =====
-- internal/controller/config_finder.go: the search for a configuration on one GPU. The loops over the
-- share of multiprocessors and over the quota are lists of candidates; `new_uuid n` is the n-th UUID
-- that the process draws, and a search returns how many it has drawn.
use fa_st_gshare_autoscaler.Profiling.{QpsStore, estimate_qps}
use fa_st_gshare_autoscaler.Gpu.{
  AllocationTypes, Config, GpuInfo, available_memory, fits, type_short_name,
}
use fa_st_gshare_autoscaler.Shelf.{max_insertable_items}
use fa_st_gshare_autoscaler.Common.{
  string_eq, int_eq, Float, List, Option, String, [], add64, if◌then◌else◌, map, none, not, nought,
  one, pos, pos_part, some, suc, zero, ℕ, ℤ, ◌++◌, ◌+ℤ◌, ◌+◌, ◌-ℤ◌, ◌∷◌,
}
pub mod Best
pub mod Quotas

-- `ResourceRequest`
pub record ResourceRequest (F T : Type 0) : Type 0 where
  pub model_name : String
  pub qps : F
  pub allocation_type : T
  pub preferred_gpu : String

-- What one round of the loops is about.
pub record Demand (F T : Type 0) : Type 0 where
  pub model_name : String
  pub remaining_qps : F
  pub required_memory : ℤ
  pub allocation_type : T

module _ {F : Type 0} ⦃f : Float F⦄ where
  -- The values of `for quota := start; quota <= 1.0; quota += 0.1`, for `fuel` rounds at most.
  unfoldable pub quotas : ℕ → F → List F
  quotas zero quota = []
  quotas (suc fuel) quota =
      let rest = quotas fuel (f.fadd quota (f.decimal 1 1)) in
      if f.fle quota one then quota ∷ rest else []

  -- The quota after `n` steps of a tenth.
  abbrev pub climb : ℕ → F → F
  climb zero quota = quota
  climb (suc n) quota = climb n (f.fadd quota (f.decimal 1 1))

-- The rounds of the quota loop, for a climb by tenths that starts at 0.1 or at 1.0.
abbrev pub max_quotas : ℕ
max_quotas = 11

-- `count` whole numbers from `from` on, the values of `for sm := from; sm <= total; sm += 1`.
unfoldable pub percentages : ℕ → ℤ → List ℤ
percentages zero from = []
percentages (suc count) from = from ∷ percentages count (add64 from (pos 1))

module _ {F : Type 0} ⦃f : Float F⦄ where
  -- The replicas to ask for: fewer, if those would exceed what is still required.
  unfoldable pub wanted_replicas : F → F → F → F
  wanted_replicas possible qps remaining =
      if f.flt remaining (f.fmul qps possible) then f.ceil (f.fdiv remaining qps) else possible

-- All pairs in the order of the loops.
unfoldable pub pairs : {F : Type 0} → List ℤ → List F → List (ℤ × F)
pairs [] qs = []
pairs (sm ∷ sms) qs = map (λ q. (sm, q)) qs ++ pairs sms qs

module _ {F T : Type 0} ⦃f : Float F⦄ where
  open f use {fadd, fsub, fmul, fdiv, fle, flt, feq, of_int, to_int, decimal, floor, ceil, fmin}

  -- The replicas that the packer and the memory leave room for.
  unfoldable pub possible_replicas : GpuInfo F T → ℤ → F → ℤ → F
  unfolding available_memory
  possible_replicas g sm quota memory =
      fmin (of_int (max_insertable_items g.usage quota sm))
        (floor (fdiv (of_int (available_memory g)) (of_int memory)))

  unfoldable pub make_config : Demand F T → ℕ → GpuInfo F T → ℤ → F → F → String → Config F T
  unfolding possible_replicas wanted_replicas
  make_config d address g sm quota qps uuid =
      let replicas =
        wanted_replicas (possible_replicas g sm quota d.required_memory) qps d.remaining_qps in
      let achievable = fmul qps replicas in
      record {
        allocation_type = d.allocation_type;
        uuid = uuid;
        quota_req = quota;
        quota_limit = fmin one (fadd quota (decimal 3 1));
        memory_req = d.required_memory;
        sm_partition = sm;
        node_name = g.node_name;
        vgpu_uuid = g.uuid;
        associated_gpu = address;
        required_replica = to_int replicas;
        satisfiable_rps = achievable;
        qps_per_replica = qps;
        cost =
            fmul (fmul (fdiv (fmul (of_int g.cost_per_second) (of_int sm)) (decimal 100 0)) quota)
              replicas;
        remaining_rps = fsub d.remaining_qps achievable;
        allocated_replica = pos 0;
        allocated_rps = nought;
        shelf_items = [];
        efficiency_score = fdiv qps (fmul (of_int sm) quota);
      }

  -- The body of the inner loop: a candidate, or `continue`.
  unfoldable pub candidate :
      QpsStore F → Demand F T → ℕ → GpuInfo F T → String → ℤ × F → Option (Config F T)
  unfolding fits make_config
  candidate store d address g uuid (sm, quota) =
      let qps = estimate_qps store d.model_name (type_short_name g.gpu_type) sm quota (pos 0) in
      if not (fits g sm quota d.required_memory)
      then none
      else if feq qps nought
      then none
      else some (make_config d address g sm quota qps uuid)

  -- `bestConfig` after one more candidate: the first of the most efficient ones is kept.
  unfoldable pub better : Option (Config F T) → Config F T → Config F T
  better none c = c
  better (some best) c = if flt best.efficiency_score c.efficiency_score then c else best

  -- The end of the loop's body: a candidate takes a UUID.
  abbrev pub consider : Option (Config F T) → Option (Config F T) × ℕ → Option (Config F T) × ℕ
  consider none (best, n) = (best, n)
  consider (some c) (best, n) = (some (better best c), n + 1)

  -- The two loops over the pairs that are left, and the number of UUIDs drawn.
  unfoldable pub search_pairs :
      (ℕ → String)
      → QpsStore F
      → Demand F T
      → ℕ
      → GpuInfo F T
      → List (ℤ × F)
      → Option (Config F T) × ℕ
      → Option (Config F T) × ℕ
  unfolding better
  search_pairs new_uuid store d address g [] (best, n) = (best, n)
  search_pairs new_uuid store d address g (p ∷ rest) (best, n) =
      search_pairs new_uuid store d address g rest
        (consider (candidate store d address g (new_uuid n) p) (best, n))

module _ {F T : Type 0} ⦃f : Float F⦄ ⦃a : AllocationTypes T⦄ where
  -- The shares and quotas that are tried: all of the GPU for an exclusive allocation.
  unfoldable pub trials : Demand F T → GpuInfo F T → List (ℤ × F)
  unfolding pairs quotas percentages
  trials d g =
      let exclusive = a.same d.allocation_type a.exclusive in
      let from = if exclusive then g.total_sm_percentage else pos 1 in
      pairs (percentages (pos_part (g.total_sm_percentage +ℤ pos 1 -ℤ from)) from)
        (quotas max_quotas (if exclusive then one else f.decimal 1 1))

  -- `getConfig`
  unfoldable pub get_config :
      (ℕ → String) → QpsStore F → Demand F T → ℕ → GpuInfo F T → ℕ → Option (Config F T) × ℕ
  unfolding trials
  get_config new_uuid store d address g n =
      if f.fle d.remaining_qps nought
      then (none, n)
      else search_pairs new_uuid store d address g (trials d g) (none, n)
