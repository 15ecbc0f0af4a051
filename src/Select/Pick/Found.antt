-- ===== src/Select/Pick/Found.antt =====
-- The configurations that the loop of `GetConfigs` (internal/controller/config_finder.go) picks have UUIDs of their own.
use fa_st_gshare_autoscaler.Select.Pick.Drawn.{DrawnIn, DrawnIn-wider, get_config-DrawnIn}
use fa_st_gshare_autoscaler.Select.Pick.{
  checked, get_configs, keep, lower, pick_configs, select_configs, try_gpu,
}
use fa_st_gshare_autoscaler.Select.{Heap, VirtualGpu, comes_before, gather_gpus, keep_preferred}
use fa_st_gshare_autoscaler.Finder.{ResourceRequest}
use fa_st_gshare_autoscaler.Nodes.{Nodes}
use fa_st_gshare_autoscaler.Profiling.{QpsStore}
use fa_st_gshare_autoscaler.Gpu.{AllocationTypes, Config, fits_memory, get_model_memory}
use fa_st_gshare_autoscaler.Shelf.Invariant.{found}
use fa_st_gshare_autoscaler.Common.{
  int_eq, string_eq, All, All-map, Bool, Float, List, MayBe, Option, Option-cases, Pairs, String,
  [], arith, get_elem?, if_cases, if◌then◌else◌, inl, inr, none, nought, some, sym, ℕ, ℤ, ◌&&◌,
  ◌==◌, ◌∙◌, ◌∷◌, ◌≡◌, ◌≢◌, ◌≤◌,
}

module _ {F T : Type 0} ⦃f : Float F⦄ ⦃a : AllocationTypes T⦄ (new_uuid : ℕ → String)
    (store : QpsStore F) where
  module _ (req : ResourceRequest F T) (memory : ℤ) (heap : Heap F T) where
    try_gpu-DrawnIn :
        (address : ℕ) (remaining : F) (n : ℕ)
        → MayBe
            (DrawnIn new_uuid n (try_gpu new_uuid store req memory heap address remaining n).2)
            (try_gpu new_uuid store req memory heap address remaining n).1
          × (n ≤ (try_gpu new_uuid store req memory heap address remaining n).2)
    unfolding try_gpu
    try_gpu-DrawnIn address remaining n = elim (Option-cases (get_elem? heap address)) [
      | inl e ↦ rw (e, try_gpu) (tt, omega arith)
      | inr (g, e) ↦
          rw (e, try_gpu)
            (if_cases
              (λ (r : Bool × Option (Config F T) × ℕ).
                MayBe (DrawnIn new_uuid n r.2) r.1 × (n ≤ r.2))
              (fits_memory g memory) _ _ (get_config-DrawnIn new_uuid store _ address g n)
              (tt, omega arith))
    ]

    -- The configurations picked have UUIDs of their own, drawn meanwhile.
    abbrev AreDrawn : ℕ → List (Config F T) × F × ℕ → Type 0
    AreDrawn n r = All (DrawnIn new_uuid n r.2) r.0 × Pairs (λ c d. c.uuid ≢ d.uuid) r.0 × (n ≤ r.2)

    module _ (once : (m k : ℕ) → new_uuid m ≡ new_uuid k → m ≡ k) where
      DrawnIn-Differ :
          (n n' n'' : ℕ) (c d : Config F T)
          → DrawnIn new_uuid n n' c
          → DrawnIn new_uuid n' n'' d
          → c.uuid ≢ d.uuid
      DrawnIn-Differ n n' n'' c d (k, l, h, e) (k', l', h', e') same =
          let again = once k k' (sym e ∙ same ∙ e') in absurd (omega (arith, again, h, l'))

      keep-AreDrawn :
          (n n' n'' : ℕ) (o : Option (Config F T)) (cs : List (Config F T)) (x y : F)
          → MayBe (DrawnIn new_uuid n n') o × (n ≤ n')
          → AreDrawn n' (cs, x, n'')
          → AreDrawn n (keep o cs, y, n'')
      keep-AreDrawn n n' n'' none cs x y (h, up) (all, differ, more) = (
        All-map (DrawnIn new_uuid n' n'') (DrawnIn new_uuid n n'') cs
            (λ c. DrawnIn-wider new_uuid n' n'' n n'' c up (omega arith)) all,
        differ,
        omega (arith, up, more),
      )
      keep-AreDrawn n n' n'' (some c) cs x y (h, up) (all, differ, more) = (
        (
          DrawnIn-wider new_uuid n n' n n'' c (omega arith) more h,
          All-map (DrawnIn new_uuid n' n'') (DrawnIn new_uuid n n'') cs
              (λ c. DrawnIn-wider new_uuid n' n'' n n'' c up (omega arith)) all,
        ),
        (
          All-map (DrawnIn new_uuid n' n'') (λ d. c.uuid ≢ d.uuid) cs
              (λ d. DrawnIn-Differ n n' n'' c d h) all,
          differ,
        ),
        omega (arith, up, more),
      )

      pick_configs-AreDrawn :
          (addresses : List ℕ) (remaining : F) (n : ℕ)
          → AreDrawn n (pick_configs new_uuid store req memory heap addresses remaining n)
      unfolding pick_configs
      pick_configs-AreDrawn [] remaining n = (tt, tt, omega arith)
      pick_configs-AreDrawn (address ∷ rest) remaining n =
          let (tried, found, n') = try_gpu new_uuid store req memory heap address remaining n in
          let left = lower found remaining in
          let own = try_gpu-DrawnIn address remaining n in
          let (cs, end, n'') = pick_configs new_uuid store req memory heap rest left n' in
          if_cases (AreDrawn n) (tried && f.fle left nought) _ _
            (keep-AreDrawn n n' n' found [] left left own (tt, tt, omega arith))
            (keep-AreDrawn n n' n'' found cs end end own (pick_configs-AreDrawn rest left n'))

  module _ (once : (m k : ℕ) → new_uuid m ≡ new_uuid k → m ≡ k) {C : Type 0}
      (sort : (ℕ → ℕ → Bool) → List ℕ → List ℕ) (nodes : Nodes C VirtualGpu)
      (req : ResourceRequest F T) (heap : Heap F T) (n : ℕ) where
    -- The configurations found, and the number of UUIDs drawn at the end.
    abbrev pub FoundDrawn : Heap F T × Option (List (Config F T)) × ℕ → Type 0
    FoundDrawn r =
        MayBe (λ cs. All (DrawnIn new_uuid n r.2) cs × Pairs (λ c d. c.uuid ≢ d.uuid) cs) r.1
        × (n ≤ r.2)

    checked-FoundDrawn :
        (heap' : Heap F T) (cs : List (Config F T)) (n' : ℕ)
        → All (DrawnIn new_uuid n n') cs
        → Pairs (λ c d. c.uuid ≢ d.uuid) cs
        → n ≤ n'
        → FoundDrawn (heap', checked cs, n')
    checked-FoundDrawn heap' [] n' all differ le = (tt, le)
    checked-FoundDrawn heap' (c ∷ cs) n' all differ le = ((all, differ), le)

    pub get_configs-FoundDrawn : FoundDrawn (get_configs sort new_uuid store nodes req heap n)
    unfolding get_configs select_configs
    get_configs-FoundDrawn = elim (Option-cases (get_model_memory req.model_name)) [
      | inl e ↦ rw (e, get_configs) (tt, omega arith)
      | inr (memory, e) ↦
          let (heap', all) = gather_gpus nodes heap in
          let wanted =
            if req.preferred_gpu == "" then all else keep_preferred req.preferred_gpu heap' all in
          let sorted = sort (comes_before store req heap') wanted in
          let (drawn, differ, le) = pick_configs-AreDrawn req memory heap' once sorted req.qps n in
          rw (e, get_configs) (checked-FoundDrawn heap' _ _ drawn differ le)
    ]
