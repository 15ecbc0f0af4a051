-- ===== src/Select/Pick/Drawn.antt =====
-- The UUIDs of the configurations that `GetConfigs` of internal/controller/config_finder.go returns: each was drawn
-- once, during the call.
use fa_st_gshare_autoscaler.Finder.{
  Demand, better, candidate, consider, get_config, make_config, search_pairs, trials,
}
use fa_st_gshare_autoscaler.Profiling.{QpsStore, estimate_qps}
use fa_st_gshare_autoscaler.Gpu.{AllocationTypes, Config, GpuInfo, fits, type_short_name}
use fa_st_gshare_autoscaler.Common.{
  int_eq, string_eq, Float, List, MayBe, Option, String, [], arith, if_cases, if◌then◌else◌, none,
  not, nought, pos, refl, some, ℕ, ℤ, ◌+◌, ◌<◌, ◌∷◌, ◌≡◌, ◌≤◌,
}

module _ {F T : Type 0} (new_uuid : ℕ → String) where
  -- The UUID is one of those drawn from `low` on, before `high`.
  abbrev pub DrawnIn : ℕ → ℕ → Config F T → Type 0
  DrawnIn low high c = (k : ℕ) × (low ≤ k) × (k < high) × (c.uuid ≡ new_uuid k)

  pub DrawnIn-wider :
      (low high low' high' : ℕ) (c : Config F T)
      → low' ≤ low
      → high ≤ high'
      → DrawnIn low high c
      → DrawnIn low' high' c
  DrawnIn-wider low high low' high' c l h (k, from, to, e) = (k, omega arith, omega arith, e)

  MayBe-wider :
      (low high low' high' : ℕ) (o : Option (Config F T))
      → low' ≤ low
      → high ≤ high'
      → MayBe (DrawnIn low high) o
      → MayBe (DrawnIn low' high') o
  MayBe-wider low high low' high' none l h d = tt
  MayBe-wider low high low' high' (some c) l h d = DrawnIn-wider low high low' high' c l h d

  module _ ⦃f : Float F⦄ (store : QpsStore F) where
    candidate-uuid :
        (d : Demand F T) (address : ℕ) (g : GpuInfo F T) (uuid : String) (p : ℤ × F)
        → MayBe (λ c. c.uuid ≡ uuid) (candidate store d address g uuid p)
    unfolding candidate make_config
    candidate-uuid d address g uuid (sm, quota) =
        let qps = estimate_qps store d.model_name (type_short_name g.gpu_type) sm quota (pos 0) in
        let found = some (make_config d address g sm quota qps uuid) in
        let P : Option (Config F T) → Type 0 = MayBe (λ c. c.uuid ≡ uuid) in
        if_cases P (not (fits g sm quota d.required_memory)) none
          (if f.feq qps nought then none else found) tt
          (if_cases P (f.feq qps nought) none found tt (refl {a = uuid}))

    better-DrawnIn :
        (low high : ℕ) (best : Option (Config F T)) (c : Config F T)
        → MayBe (DrawnIn low high) best
        → DrawnIn low high c
        → DrawnIn low high (better best c)
    unfolding better
    better-DrawnIn low high none c h new = new
    better-DrawnIn low high (some best) c h new = if_cases (DrawnIn low high) _ c best new h

    consider-DrawnIn :
        (low n : ℕ) (o best : Option (Config F T))
        → low ≤ n
        → MayBe (λ c. c.uuid ≡ new_uuid n) o
        → MayBe (DrawnIn low n) best
        → MayBe (DrawnIn low (consider o (best, n)).1) (consider o (best, n)).0
          × (n ≤ (consider o (best, n)).1)
    consider-DrawnIn low n none best le h q = (q, omega arith)
    consider-DrawnIn low n (some c) best le h q = (
      better-DrawnIn low (n + 1) best c
          (MayBe-wider low n low (n + 1) best (omega arith) (omega arith) q)
          (n, le, omega arith, h),
      omega arith,
    )

    search_pairs-DrawnIn :
        (d : Demand F T) (address : ℕ) (g : GpuInfo F T) (ps : List (ℤ × F)) (low n : ℕ)
        (best : Option (Config F T))
        → low ≤ n
        → MayBe (DrawnIn low n) best
        → MayBe
            (DrawnIn low (search_pairs new_uuid store d address g ps (best, n)).1)
            (search_pairs new_uuid store d address g ps (best, n)).0
          × (n ≤ (search_pairs new_uuid store d address g ps (best, n)).1)
    unfolding search_pairs
    search_pairs-DrawnIn d address g [] low n best le h = (h, omega arith)
    search_pairs-DrawnIn d address g (p ∷ ps) low n best le h =
        let o = candidate store d address g (new_uuid n) p in
        let (best', n') = consider o (best, n) in
        let (next, up) =
          consider-DrawnIn low n o best le (candidate-uuid d address g (new_uuid n) p) h in
        let (end, more) = search_pairs-DrawnIn d address g ps low n' best' (omega arith) next in
        (end, omega (arith, up, more))

module _ {F T : Type 0} ⦃f : Float F⦄ ⦃a : AllocationTypes T⦄ (new_uuid : ℕ → String)
    (store : QpsStore F) where
  pub get_config-DrawnIn :
      (d : Demand F T) (address : ℕ) (g : GpuInfo F T) (n : ℕ)
      → MayBe
          (DrawnIn new_uuid n (get_config new_uuid store d address g n).1)
          (get_config new_uuid store d address g n).0
        × (n ≤ (get_config new_uuid store d address g n).1)
  unfolding get_config
  get_config-DrawnIn d address g n =
      if_cases (λ (r : Option (Config F T) × ℕ). MayBe (DrawnIn new_uuid n r.1) r.0 × (n ≤ r.1))
        (f.fle d.remaining_qps nought) _ _ (tt, omega arith)
        (search_pairs-DrawnIn new_uuid store d address g (trials d g) n n none (omega arith) tt)
