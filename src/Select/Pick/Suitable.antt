-- ===== src/Select/Pick/Suitable.antt =====
-- What `GetConfigs` of internal/controller/config_finder.go returns.
use mathlib.Core.Option.{some-injective}
use fa_st_gshare_autoscaler.Gpu.{
  AllocationTypes, Config, GpuInfo, fits, fits_memory, get_model_memory,
}
use fa_st_gshare_autoscaler.Profiling.{QpsStore}
use fa_st_gshare_autoscaler.Finder.Best.{get_config-Suits}
use fa_st_gshare_autoscaler.Finder.{Demand, ResourceRequest}
use fa_st_gshare_autoscaler.Nodes.{Nodes}
use fa_st_gshare_autoscaler.Select.{Heap, VirtualGpu, comes_before, gather_gpus, keep_preferred}
use fa_st_gshare_autoscaler.Select.Pick.{
  checked, get_configs, keep, lower, pick_configs, select_configs, try_gpu,
}
use fa_st_gshare_autoscaler.Common.{
  string_eq, int_eq, All, Bool, Bool-cases, Float, IsComparable, List, Option, Option-cases, String,
  [], arith, false, get_elem?, if◌then◌else◌, inl, inr, none, nought, refl, some, subst, true, ℕ, ℤ,
  ◌&&◌, ◌==◌, ◌∷◌, ◌≡◌, ◌≢◌,
}

checked-some : {A : Type 0} (xs ys : List A) → checked xs ≡ some ys → (ys ≢ []) × (xs ≡ ys)
checked-some [] ys e = ground arith
checked-some (x ∷ xs) ys e = (λ q. ground arith, some-injective _ _ e)

module _ {F T : Type 0} ⦃f : Float F⦄ ⦃a : AllocationTypes T⦄ where
  -- The configuration stands on a GPU of the heap and fits there, for that much memory.
  abbrev pub IsPlaced : Heap F T → ℤ → Config F T → Type 0
  IsPlaced heap memory c =
      (g : GpuInfo F T) × (get_elem? heap c.associated_gpu ≡ some g)
      × (fits g c.sm_partition c.quota_req memory ≡ true)
      × (fits_memory g memory ≡ true)
      × (c.node_name ≡ g.node_name)
      × (c.memory_req ≡ memory)
      × (f.feq c.qps_per_replica nought ≡ false)

  module _ (k : IsComparable F) (new_uuid : ℕ → String) (store : QpsStore F)
      (req : ResourceRequest F T) (memory : ℤ) (heap : Heap F T) where
    try_gpu-IsPlaced :
        (address : ℕ) (remaining : F) (n : ℕ) (c : Config F T)
        → (try_gpu new_uuid store req memory heap address remaining n).1 ≡ some c
        → IsPlaced heap memory c
    unfolding try_gpu
    try_gpu-IsPlaced address remaining n c e = elim (Option-cases (get_elem? heap address)) [
      | inl none_there ↦ absurd (no_config (rw (none_there, try_gpu) at e))
      | inr (g, there) ↦ elim (Bool-cases (fits_memory g memory)) [
        | inr small ↦ absurd (no_config (rw (there, try_gpu, small) at e))
        | inl large ↦
            let d : Demand F T = record {
              model_name = req.model_name;
              remaining_qps = remaining;
              required_memory = memory;
              allocation_type = req.allocation_type;
            } in
            let s =
              get_config-Suits k new_uuid store d address g n c (rw (there, try_gpu, large) at e) in
            (g, rw s.2 there, s.0, large, s.4, s.3, s.1)
      ]
    ]
      where
        no_config : none ≡ some c → ⊥
        no_config q = cc

    keep-All :
        (P : Config F T → Type 0) (o : Option (Config F T)) (cs : List (Config F T))
        → ((c : Config F T) → o ≡ some c → P c)
        → All P cs
        → All P (keep o cs)
    keep-All P none cs h q = q
    keep-All P (some c) cs h q = (h c refl, q)

    pick_configs-IsPlaced :
        (addresses : List ℕ) (remaining : F) (n : ℕ)
        → All
            (IsPlaced heap memory)
            (pick_configs new_uuid store req memory heap addresses remaining n).0
    unfolding pick_configs
    pick_configs-IsPlaced [] remaining n = tt
    pick_configs-IsPlaced (address ∷ rest) remaining n =
        let t = try_gpu new_uuid store req memory heap address remaining n in
        let own = try_gpu-IsPlaced address remaining n in
        elim (Bool-cases (t.0 && f.fle (lower t.1 remaining) nought)) [
          | inl met ↦ rw met (keep-All (IsPlaced heap memory) t.1 [] own tt)
          | inr more ↦ rw more (
              keep-All (IsPlaced heap memory) t.1 _ own
                (pick_configs-IsPlaced rest (lower t.1 remaining) t.2))
        ]

  chosen :
      {C : Type 0} (k : IsComparable F) (sort : (ℕ → ℕ → Bool) → List ℕ → List ℕ)
      (new_uuid : ℕ → String) (store : QpsStore F) (nodes : Nodes C VirtualGpu)
      (req : ResourceRequest F T) (heap : Heap F T) (n : ℕ) (memory : ℤ) (cs : List (Config F T))
      → (select_configs sort new_uuid store nodes req heap n memory).1 ≡ some cs
      → (cs ≢ [])
        × All (IsPlaced (select_configs sort new_uuid store nodes req heap n memory).0 memory) cs
  unfolding select_configs
  chosen k sort new_uuid store nodes req heap n memory cs h =
      let (heap', all) = gather_gpus nodes heap in
      let wanted =
        if req.preferred_gpu == "" then all else keep_preferred req.preferred_gpu heap' all in
      let picked =
        pick_configs new_uuid store req memory heap' (sort (comes_before store req heap') wanted)
          req.qps n in
      let (filled, same) = checked-some picked.0 cs h in
      (
        filled,
        subst (All (IsPlaced heap' memory)) same (
            pick_configs-IsPlaced k new_uuid store req memory heap'
              (sort (comes_before store req heap') wanted) req.qps n),
      )

  -- Whatever GetConfigs returns without an error, for a known model, is not empty, and each of
  -- its configurations stands on a GPU of the heap, on whose packer and in whose memory it fits,
  -- with the model's memory. The laws of IEEE 754 for `==` and `<` are assumed.
  pub get_configs-IsPlaced :
      {C : Type 0} (k : IsComparable F) (sort : (ℕ → ℕ → Bool) → List ℕ → List ℕ)
      (new_uuid : ℕ → String) (store : QpsStore F) (nodes : Nodes C VirtualGpu)
      (req : ResourceRequest F T) (heap : Heap F T) (n : ℕ) (memory : ℤ) (cs : List (Config F T))
      → get_model_memory req.model_name ≡ some memory
      → (get_configs sort new_uuid store nodes req heap n).1 ≡ some cs
      → (cs ≢ []) × All (IsPlaced (get_configs sort new_uuid store nodes req heap n).0 memory) cs
  unfolding get_configs
  get_configs-IsPlaced k sort new_uuid store nodes req heap n memory cs e h =
      rw (e, get_configs)
        (chosen k sort new_uuid store nodes req heap n memory cs (rw (e, get_configs) at h))
