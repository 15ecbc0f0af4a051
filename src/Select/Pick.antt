-- ===== src/Select/Pick.antt =====
-- internal/controller/config_finder.go, `GetConfigs`: the configurations picked from the sorted GPUs.
-- `sort` stands for `sort.Slice` of the Go library with the comparison of `gpu_less`, on addresses.
use fa_st_gshare_autoscaler.Gpu.{AllocationTypes, Config, fits_memory, get_model_memory}
use fa_st_gshare_autoscaler.Profiling.{QpsStore}
use fa_st_gshare_autoscaler.Finder.{ResourceRequest, get_config}
use fa_st_gshare_autoscaler.Nodes.{Nodes}
use fa_st_gshare_autoscaler.Select.{Heap, VirtualGpu, comes_before, gather_gpus, keep_preferred}
use fa_st_gshare_autoscaler.Common.{
  string_eq, Bool, Float, List, Option, String, [], false, get_elem?, if◌then◌else◌, none, nought,
  some, true, ℕ, ℤ, ◌&&◌, ◌==◌, ◌∷◌,
}
pub mod Suitable
pub mod Kept
pub mod Fresh
pub mod Drawn
pub mod Found

-- The rest of the loop once a GPU was tried: what is required is lowered, and the configuration kept.
abbrev pub lower : {F T : Type 0} → ⦃f : Float F⦄ → Option (Config F T) → F → F
lower none remaining = remaining
lower ⦃f⦄ (some c) remaining = f.fsub remaining c.satisfiable_rps

abbrev pub keep : {A : Type 0} → Option A → List A → List A
keep none cs = cs
keep (some c) cs = c ∷ cs

-- An empty list is the error "no suitable selection found".
abbrev pub checked : {A : Type 0} → List A → Option (List A)
checked [] = none
checked (c ∷ cs) = some (c ∷ cs)

module _ {F T : Type 0} ⦃f : Float F⦄ ⦃a : AllocationTypes T⦄ where
  -- The call of `getConfig` in the loop; a GPU whose memory is too small is passed over.
  unfoldable pub try_gpu :
      (ℕ → String)
      → QpsStore F
      → ResourceRequest F T
      → ℤ
      → Heap F T
      → ℕ
      → F
      → ℕ
      → Bool × Option (Config F T) × ℕ
  unfolding fits_memory get_config
  try_gpu new_uuid store req memory heap address remaining n = elim (get_elem? heap address) [
    | none ↦ (false, none, n)
    | some g ↦
        let (found, n') =
          get_config new_uuid store
            (record {
              model_name = req.model_name;
              remaining_qps = remaining;
              required_memory = memory;
              allocation_type = req.allocation_type;
            })
            address g n in
        if fits_memory g memory then (true, found, n') else (false, none, n)
  ]

  -- The loop over the sorted GPUs: the configurations picked, what is still required and the number of
  -- UUIDs drawn. It stops once nothing is required.
  unfoldable pub pick_configs :
      (ℕ → String)
      → QpsStore F
      → ResourceRequest F T
      → ℤ
      → Heap F T
      → List ℕ
      → F
      → ℕ
      → List (Config F T) × F × ℕ
  unfolding try_gpu
  pick_configs new_uuid store req memory heap [] remaining n = ([], remaining, n)
  pick_configs new_uuid store req memory heap (address ∷ rest) remaining n =
      let (tried, found, n') = try_gpu new_uuid store req memory heap address remaining n in
      let left = lower found remaining in
      let (cs, end, n'') = pick_configs new_uuid store req memory heap rest left n' in
      if tried && f.fle left nought then (keep found [], left, n') else (keep found cs, end, n'')

  -- `GetConfigs` once the model's memory is known; no configuration at all is an error, `none`. The heap
  -- has the GPUs that the call met for the first time.
  unfoldable pub select_configs :
      {C : Type 0}
      → ((ℕ → ℕ → Bool) → List ℕ → List ℕ)
      → (ℕ → String)
      → QpsStore F
      → Nodes C VirtualGpu
      → ResourceRequest F T
      → Heap F T
      → ℕ
      → ℤ
      → Heap F T × Option (List (Config F T)) × ℕ
  unfolding gather_gpus pick_configs
  select_configs sort new_uuid store nodes req heap n memory =
      let (heap', all) = gather_gpus nodes heap in
      let wanted =
        if req.preferred_gpu == "" then all else keep_preferred req.preferred_gpu heap' all in
      let sorted = sort (comes_before store req heap') wanted in
      let (cs, left, n') = pick_configs new_uuid store req memory heap' sorted req.qps n in
      (heap', checked cs, n')

  -- `GetConfigs`; an unknown model is an error too.
  unfoldable pub get_configs :
      {C : Type 0}
      → ((ℕ → ℕ → Bool) → List ℕ → List ℕ)
      → (ℕ → String)
      → QpsStore F
      → Nodes C VirtualGpu
      → ResourceRequest F T
      → Heap F T
      → ℕ
      → Heap F T × Option (List (Config F T)) × ℕ
  unfolding get_model_memory select_configs
  get_configs sort new_uuid store nodes req heap n = elim (get_model_memory req.model_name) [
    | none ↦ (heap, none, n)
    | some memory ↦ select_configs sort new_uuid store nodes req heap n memory
  ]
