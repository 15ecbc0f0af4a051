-- ===== src/Finder/Best.antt =====
-- The choice of `getConfig` in internal/controller/config_finder.go among its candidates.
use fa_st_gshare_autoscaler.Finder.{Demand, better, candidate, get_config, search_pairs, trials}
use fa_st_gshare_autoscaler.Profiling.{QpsStore}
use fa_st_gshare_autoscaler.Gpu.{AllocationTypes, Config, GpuInfo, fits}
use mathlib.Core.Option.{some-injective}
use fa_st_gshare_autoscaler.Common.{
  Bool-cases, Float, IsComparable, List, Option, Option-cases, String, [], ap, arith, false, inl,
  inr, none, nought, refl, some, true, ℕ, ℤ, ◌++◌, ◌+◌, ◌∙◌, ◌∷◌, ◌≡◌, ◌⊎◌,
}

module _ {F T : Type 0} ⦃f : Float F⦄ where
  -- A configuration has been found, and `c` is not more efficient.
  abbrev pub Beats : Option (Config F T) → Config F T → Type 0
  Beats best c =
      (b : Config F T) × (best ≡ some b) × (f.flt b.efficiency_score c.efficiency_score ≡ false)

  -- The UUID has no part in the choice.
  candidate-uuid :
      (store : QpsStore F) (d : Demand F T) (address : ℕ) (g : GpuInfo F T) (u u' : String)
      (p : ℤ × F) (c : Config F T)
      → candidate store d address g u p ≡ some c
      → candidate store d address g u' p ≡ some (record c { uuid = u' })
  unfolding candidate
  candidate-uuid store d address g u u' (sm, quota) c e = ground arith

  -- `best` is what a candidate gave.
  abbrev pub IsFound :
      QpsStore F → Demand F T → ℕ → GpuInfo F T → List (ℤ × F) → Config F T → Type 0
  IsFound store d address g [] b = ⊥
  IsFound store d address g (p ∷ ps) b =
      ((u : String) × (candidate store d address g u p ≡ some b)) ⊎ IsFound store d address g ps b

  better_either :
      (best : Option (Config F T)) (x b : Config F T)
      → better best x ≡ b
      → (best ≡ some b) ⊎ (x ≡ b)
  unfolding better
  better_either none x b e = inr e
  better_either (some o) x b e = ground arith

  module _ (c : IsComparable F) where
    open c use {lt_trans, lt_irrefl}

    better-Beats_self :
        (best : Option (Config F T)) (x : Config F T) → Beats (some (better best x)) x
    unfolding better
    better-Beats_self none x = (x, refl, lt_irrefl x.efficiency_score)
    better-Beats_self (some b) x = elim (Bool-cases (f.flt b.efficiency_score x.efficiency_score)) [
      | inl more ↦ rw more (x, refl, lt_irrefl x.efficiency_score)
      | inr less ↦ rw less (b, refl, less)
    ]

    better-Beats :
        (best : Option (Config F T)) (x y : Config F T)
        → Beats best y
        → Beats (some (better best x)) y
    unfolding better
    better-Beats none x y (b, e, h) = ground arith
    better-Beats (some o) x y (b, e, h) =
        elim (Bool-cases (f.flt o.efficiency_score x.efficiency_score)) [
          | inl more ↦ rw more (
            x,
            refl,
            ground (arith, lt_trans o.efficiency_score x.efficiency_score y.efficiency_score),
          )
          | inr less ↦ rw less (o, refl, ground arith)
        ]

    module _ (new_uuid : ℕ → String) (store : QpsStore F) (d : Demand F T) (address : ℕ)
        (g : GpuInfo F T) where
      search-Beats :
          (ps : List (ℤ × F)) (best : Option (Config F T)) (n : ℕ) (y : Config F T)
          → Beats best y
          → Beats (search_pairs new_uuid store d address g ps (best, n)).0 y
      unfolding search_pairs
      search-Beats [] best n y h = h
      search-Beats (p ∷ ps) best n y h =
          elim (Option-cases (candidate store d address g (new_uuid n) p)) [
            | inl e ↦ rw (e, search_pairs) (search-Beats ps best n y h)
            | inr (x, e) ↦
                rw (e, search_pairs)
                  (search-Beats ps (some (better best x)) (n + 1) y (better-Beats best x y h))
          ]

      search-Beats_self :
          (before after : List (ℤ × F)) (p : ℤ × F) (best : Option (Config F T)) (n : ℕ)
          (u : String) (y : Config F T)
          → candidate store d address g u p ≡ some y
          → Beats (search_pairs new_uuid store d address g (before ++ p ∷ after) (best, n)).0 y
      unfolding search_pairs
      search-Beats_self [] after p best n u y e =
          let here = candidate-uuid store d address g u (new_uuid n) p y e in
          let x = record y { uuid = new_uuid n } in
          rw (here, search_pairs)
            (search-Beats after (some (better best x)) (n + 1) y (better-Beats_self best x))
      search-Beats_self (q ∷ before) after p best n u y e =
          elim (Option-cases (candidate store d address g (new_uuid n) q)) [
            | inl m ↦ rw (m, search_pairs) (search-Beats_self before after p best n u y e)
            | inr (x, m) ↦
                rw (m, search_pairs)
                  (search-Beats_self before after p (some (better best x)) (n + 1) u y e)
          ]

      search-IsFound :
          (ps : List (ℤ × F)) (best : Option (Config F T)) (n : ℕ) (b : Config F T)
          → (search_pairs new_uuid store d address g ps (best, n)).0 ≡ some b
          → (best ≡ some b) ⊎ IsFound store d address g ps b
      unfolding search_pairs better
      search-IsFound [] best n b e = inl e
      search-IsFound (p ∷ ps) best n b e =
          elim (Option-cases (candidate store d address g (new_uuid n) p)) [
            | inl m ↦ elim (search-IsFound ps best n b (rw (m, search_pairs) at e)) [
              | inl old ↦ inl old
              | inr rest ↦ inr (inr rest)
            ]
            | inr (x, m) ↦
                elim (search-IsFound ps (some (better best x)) (n + 1) b
                  (rw (m, search_pairs) at e)) [
                    | inl chosen ↦ elim (better_either best x b (some-injective _ _ chosen)) [
                      | inl old ↦ inl old
                      | inr new ↦ inr (inl (new_uuid n, m ∙ ap some new))
                    ]
                    | inr rest ↦ inr (inr rest)
                  ]
          ]

  module _ ⦃a : AllocationTypes T⦄ (c : IsComparable F) where
    -- What getConfig returns is a candidate for a share and a quota that it tries. The laws of
    -- IEEE 754 for `==` and `<` are assumed.
    get_config-IsFound :
        (new_uuid : ℕ → String) (store : QpsStore F) (d : Demand F T) (address : ℕ)
        (g : GpuInfo F T) (n : ℕ) (b : Config F T)
        → (get_config new_uuid store d address g n).0 ≡ some b
        → IsFound store d address g (trials d g) b
    unfolding get_config
    get_config-IsFound new_uuid store d address g n b e =
        elim (Bool-cases (f.fle d.remaining_qps nought)) [
          | inl met ↦ absurd (no_config (rw (met, get_config) at e))
          | inr unmet ↦
              elim (search-IsFound c new_uuid store d address g (trials d g) none n b
                (rw (unmet, get_config) at e)) [
                  | inl impossible ↦ absurd (no_config impossible)
                  | inr found ↦ found
                ]
        ]
      where
        no_config : {x : Config F T} → none ≡ some x → ⊥
        no_config q = cc

    -- getConfig, for a demand that is not met, returns the most efficient configuration: for
    -- every share and quota that it tries and that gives a candidate, it returns a configuration
    -- that is not less efficient. The laws of IEEE 754 for `==` and `<` are assumed.
    pub get_config-Beats :
        (new_uuid : ℕ → String) (store : QpsStore F) (d : Demand F T) (address : ℕ)
        (g : GpuInfo F T) (n : ℕ) (before after : List (ℤ × F)) (p : ℤ × F) (u : String)
        (y : Config F T)
        → f.fle d.remaining_qps nought ≡ false
        → trials d g ≡ before ++ p ∷ after
        → candidate store d address g u p ≡ some y
        → Beats (get_config new_uuid store d address g n).0 y
    unfolding get_config
    get_config-Beats new_uuid store d address g n before after p u y open_demand e h =
        rw (open_demand, e)
          (search-Beats_self c new_uuid store d address g before after p none n u y h)

  -- What every candidate guarantees: it fits the GPU, within its free memory and on its packer, it names
  -- the GPU, and its replicas do some work.
  abbrev pub Suits : Demand F T → ℕ → GpuInfo F T → Config F T → Type 0
  Suits d address g b =
      (fits g b.sm_partition b.quota_req d.required_memory ≡ true)
      × (f.feq b.qps_per_replica nought ≡ false)
      × (b.associated_gpu ≡ address)
      × (b.memory_req ≡ d.required_memory)
      × (b.node_name ≡ g.node_name)

  candidate-Suits :
      (store : QpsStore F) (d : Demand F T) (address : ℕ) (g : GpuInfo F T) (u : String) (p : ℤ × F)
      (b : Config F T)
      → candidate store d address g u p ≡ some b
      → Suits d address g b
  unfolding candidate
  candidate-Suits store d address g u (sm, quota) b e = ground arith

  IsFound-Suits :
      (store : QpsStore F) (d : Demand F T) (address : ℕ) (g : GpuInfo F T) (ps : List (ℤ × F))
      (b : Config F T)
      → IsFound store d address g ps b
      → Suits d address g b
  IsFound-Suits store d address g [] b h = absurd h
  IsFound-Suits store d address g (p ∷ ps) b (inl (u, e)) =
      candidate-Suits store d address g u p b e
  IsFound-Suits store d address g (p ∷ ps) b (inr h) = IsFound-Suits store d address g ps b h

  module _ ⦃a : AllocationTypes T⦄ where
    -- What getConfig returns fits the GPU: its share and quota fit on the packer, its memory in
    -- the memory that the GPU reports as available; it names that GPU and its node, and the
    -- measured requests per second are not zero. The laws of IEEE 754 for `==` and `<` are
    -- assumed.
    pub get_config-Suits :
        (c : IsComparable F) (new_uuid : ℕ → String) (store : QpsStore F) (d : Demand F T)
        (address : ℕ) (g : GpuInfo F T) (n : ℕ) (b : Config F T)
        → (get_config new_uuid store d address g n).0 ≡ some b
        → Suits d address g b
    get_config-Suits c new_uuid store d address g n b e =
        IsFound-Suits store d address g (trials d g) b
          (get_config-IsFound c new_uuid store d address g n b e)
