-- ===== src/Select/Pick/Fresh.antt =====
-- A configuration that `GetConfigs` of internal/controller/config_finder.go returns has no items yet.
use fa_st_gshare_autoscaler.Select.Pick.Kept.{keep-MayBe}
use fa_st_gshare_autoscaler.Select.Pick.{
  checked, get_configs, lower, pick_configs, select_configs, try_gpu,
}
use fa_st_gshare_autoscaler.Select.{Heap, VirtualGpu, comes_before, gather_gpus, keep_preferred}
use fa_st_gshare_autoscaler.Finder.{
  Demand, ResourceRequest, better, candidate, consider, get_config, make_config, search_pairs,
  trials,
}
use fa_st_gshare_autoscaler.Nodes.{Nodes}
use fa_st_gshare_autoscaler.Profiling.{QpsStore, estimate_qps}
use fa_st_gshare_autoscaler.Gpu.{
  AllocationTypes, Config, GpuInfo, fits, fits_memory, get_model_memory, type_short_name,
}
use fa_st_gshare_autoscaler.Shelf.Invariant.{found}
use mathlib.Core.Option.{some-injective}
use fa_st_gshare_autoscaler.Common.{
  int_eq, string_eq, All, Bool, Float, List, MayBe, Option, Option-cases, String, [], arith,
  get_elem?, if_cases, if◌then◌else◌, inl, inr, none, not, nought, pos, refl, some, subst, ℕ, ℤ,
  ◌&&◌, ◌==◌, ◌∷◌, ◌≡◌,
}

module _ {F T : Type 0} where
  abbrev pub HasNoItems : Config F T → Type 0
  HasNoItems c = c.shelf_items ≡ []

  checked-HasNoItems :
      (xs cs : List (Config F T)) → checked xs ≡ some cs → All HasNoItems xs → All HasNoItems cs
  checked-HasNoItems [] cs e h = ground arith
  checked-HasNoItems (x ∷ xs) cs e h = subst (All HasNoItems) (some-injective _ _ e) h

module _ {F T : Type 0} ⦃f : Float F⦄ where
  candidate-HasNoItems :
      (store : QpsStore F) (d : Demand F T) (address : ℕ) (g : GpuInfo F T) (uuid : String)
      (p : ℤ × F)
      → MayBe HasNoItems (candidate store d address g uuid p)
  unfolding candidate make_config
  candidate-HasNoItems store d address g uuid (sm, quota) =
      let qps = estimate_qps store d.model_name (type_short_name g.gpu_type) sm quota (pos 0) in
      let found = some (make_config d address g sm quota qps uuid) in
      if_cases (MayBe (HasNoItems {F = F} {T = T})) (not (fits g sm quota d.required_memory)) none
        (if f.feq qps nought then none else found) tt
        (if_cases (MayBe (HasNoItems {F = F} {T = T})) (f.feq qps nought) none found tt
          (refl {a = []}))

  better-HasNoItems :
      (best : Option (Config F T)) (c : Config F T)
      → MayBe HasNoItems best
      → HasNoItems c
      → HasNoItems (better best c)
  unfolding better
  better-HasNoItems none c h new = new
  better-HasNoItems (some best) c h new = if_cases HasNoItems _ c best new h

  consider-HasNoItems :
      (o best : Option (Config F T)) (n : ℕ)
      → MayBe HasNoItems o
      → MayBe HasNoItems best
      → MayBe HasNoItems (consider o (best, n)).0
  consider-HasNoItems none best n h q = q
  consider-HasNoItems (some c) best n h q = better-HasNoItems best c q h

  search_pairs-HasNoItems :
      (new_uuid : ℕ → String) (store : QpsStore F) (d : Demand F T) (address : ℕ) (g : GpuInfo F T)
      (ps : List (ℤ × F)) (best : Option (Config F T)) (n : ℕ)
      → MayBe HasNoItems best
      → MayBe HasNoItems (search_pairs new_uuid store d address g ps (best, n)).0
  unfolding search_pairs
  search_pairs-HasNoItems new_uuid store d address g [] best n h = h
  search_pairs-HasNoItems new_uuid store d address g (p ∷ ps) best n h =
      let o = candidate store d address g (new_uuid n) p in
      search_pairs-HasNoItems new_uuid store d address g ps _ _
        (consider-HasNoItems o best n (candidate-HasNoItems store d address g (new_uuid n) p) h)

module _ {F T : Type 0} ⦃f : Float F⦄ ⦃a : AllocationTypes T⦄ where
  get_config-HasNoItems :
      (new_uuid : ℕ → String) (store : QpsStore F) (d : Demand F T) (address : ℕ) (g : GpuInfo F T)
      (n : ℕ)
      → MayBe HasNoItems (get_config new_uuid store d address g n).0
  unfolding get_config
  get_config-HasNoItems new_uuid store d address g n =
      if_cases (λ (r : Option (Config F T) × ℕ). MayBe HasNoItems r.0)
        (f.fle d.remaining_qps nought) _ _ tt
        (search_pairs-HasNoItems new_uuid store d address g (trials d g) none n tt)

  module _ (new_uuid : ℕ → String) (store : QpsStore F) (req : ResourceRequest F T) where
    try_gpu-HasNoItems :
        (memory : ℤ) (heap : Heap F T) (address : ℕ) (remaining : F) (n : ℕ)
        → MayBe HasNoItems (try_gpu new_uuid store req memory heap address remaining n).1
    unfolding try_gpu
    try_gpu-HasNoItems memory heap address remaining n =
        elim (Option-cases (get_elem? heap address)) [
          | inl e ↦ rw (e, try_gpu) tt
          | inr (g, e) ↦
              rw (e, try_gpu)
                (if_cases (λ (r : Bool × Option (Config F T) × ℕ). MayBe HasNoItems r.1)
                  (fits_memory g memory) _ _ (get_config-HasNoItems new_uuid store _ address g n)
                  tt)
        ]

    pick_configs-HasNoItems :
        (memory : ℤ) (heap : Heap F T) (addresses : List ℕ) (remaining : F) (n : ℕ)
        → All HasNoItems (pick_configs new_uuid store req memory heap addresses remaining n).0
    unfolding pick_configs
    pick_configs-HasNoItems memory heap [] remaining n = tt
    pick_configs-HasNoItems memory heap (address ∷ rest) remaining n =
        let (tried, found, n') = try_gpu new_uuid store req memory heap address remaining n in
        let own = try_gpu-HasNoItems memory heap address remaining n in
        if_cases (λ (r : List (Config F T) × F × ℕ). All HasNoItems r.0)
          (tried && f.fle (lower found remaining) nought) _ _
          (keep-MayBe HasNoItems found [] own tt)
          (keep-MayBe HasNoItems found _ own
            (pick_configs-HasNoItems memory heap rest (lower found remaining) n'))

    module _ {C : Type 0} (sort : (ℕ → ℕ → Bool) → List ℕ → List ℕ) (nodes : Nodes C VirtualGpu)
        (heap : Heap F T) (n : ℕ) (cs : List (Config F T)) where
      select_configs-HasNoItems :
          (memory : ℤ)
          → (select_configs sort new_uuid store nodes req heap n memory).1 ≡ some cs
          → All HasNoItems cs
      unfolding select_configs
      select_configs-HasNoItems memory e =
          let (heap', all) = gather_gpus nodes heap in
          let wanted =
            if req.preferred_gpu == "" then all else keep_preferred req.preferred_gpu heap' all in
          let sorted = sort (comes_before store req heap') wanted in
          checked-HasNoItems (pick_configs new_uuid store req memory heap' sorted req.qps n).0 cs e
            (pick_configs-HasNoItems memory heap' sorted req.qps n)

      pub get_configs-HasNoItems :
          (get_configs sort new_uuid store nodes req heap n).1 ≡ some cs → All HasNoItems cs
      unfolding get_configs
      get_configs-HasNoItems e = elim (Option-cases (get_model_memory req.model_name)) [
        | inl none_there ↦ absurd (no_configs (rw (none_there, get_configs) at e))
        | inr (memory, there) ↦ select_configs-HasNoItems memory (rw (there, get_configs) at e)
      ]
        where
          no_configs : none ≡ some cs → ⊥
          no_configs q = ground arith
