-- ===== src/Gpu/Takes.antt =====
-- What a sequence of `DeallocateConfig` and `ReduceConfig` (internal/controller/gpu_manager.go) takes from the
-- heap of GPUs.
use fa_st_gshare_autoscaler.Gpu.Removal.{Emptied}
use fa_st_gshare_autoscaler.Gpu.Items.{
  Loses, item_in, item_on, item_on-set_self, set-kept, set-lost,
}
use fa_st_gshare_autoscaler.Gpu.{Config, GpuInfo}
use fa_st_gshare_autoscaler.Common.{
  int_eq, All, Bool, Float, List, [], ap, get_elem?, lookup, none, refl, set, some, ℕ, ℤ, ◌∙◌, ◌∷◌,
  ◌≡◌,
}

module _ {F T : Type 0} where
  -- At most items of one configuration are gone.
  pub record TakesOne (c : Config F T) (heap heap' : List (GpuInfo F T)) : Type 0 where
    pub kept :
        (i : ℕ) (id : ℤ)
        → (c.associated_gpu ≡ i → lookup id c.shelf_items ≡ none)
        → item_on heap' i id ≡ item_on heap i id
    pub lost : (i : ℕ) (id : ℤ) → item_on heap i id ≡ none → item_on heap' i id ≡ none

  -- All items of a configuration are gone from its GPU.
  abbrev pub IsCleared : Config F T → List (GpuInfo F T) → Type 0
  IsCleared c heap =
      (id : ℤ) (b : Bool)
      → lookup id c.shelf_items ≡ some b
      → item_on heap c.associated_gpu id ≡ none

  -- The items of the configurations `cs` are gone, and what no configuration of `ts` owns is kept.
  pub record Takes (cs ts : List (Config F T)) (heap heap' : List (GpuInfo F T)) : Type 0 where
    pub gone : All (λ c. IsCleared c heap') cs
    pub kept :
        (i : ℕ) (id : ℤ)
        → All (λ c. c.associated_gpu ≡ i → lookup id c.shelf_items ≡ none) ts
        → item_on heap' i id ≡ item_on heap i id
    pub lost : (i : ℕ) (id : ℤ) → item_on heap i id ≡ none → item_on heap' i id ≡ none

  pub Takes-nothing : (heap : List (GpuInfo F T)) → Takes [] [] heap heap
  Takes-nothing heap = record { gone = tt; kept = λ i id e. refl; lost = λ i id e. e }

  module _ {c : Config F T} {cs ts : List (Config F T)} {heap heap' heap'' : List (GpuInfo F T)}
      (first : TakesOne c heap heap') (rest : Takes cs ts heap' heap'') where
    pub Takes-touch : Takes cs (c ∷ ts) heap heap''
    Takes-touch = record {
      gone = rest.gone;
      kept = λ i id free. rest.kept i id free.1 ∙ first.kept i id free.0;
      lost = λ i id free. rest.lost i id (first.lost i id free);
    }

    pub Takes-clear : IsCleared c heap' → Takes (c ∷ cs) (c ∷ ts) heap heap''
    Takes-clear cleared = record {
      gone = (λ id b p. rest.lost c.associated_gpu id (cleared id b p), rest.gone);
      kept = λ i id free. rest.kept i id free.1 ∙ first.kept i id free.0;
      lost = λ i id free. rest.lost i id (first.lost i id free);
    }

  pub TakesOne-nothing : (c : Config F T) (heap : List (GpuInfo F T)) → TakesOne c heap heap
  TakesOne-nothing c heap = record { kept = λ i id e. refl; lost = λ i id e. e }

  -- A GPU that is not there has no items.
  pub IsCleared-absent :
      (c : Config F T) (heap : List (GpuInfo F T))
      → get_elem? heap c.associated_gpu ≡ none
      → IsCleared c heap
  IsCleared-absent c heap e id b p = ap (item_in id) e

module _ {F T : Type 0} ⦃f : Float F⦄ (c : Config F T) (heap : List (GpuInfo F T))
    (g g' : GpuInfo F T) (e : get_elem? heap c.associated_gpu ≡ some g) where
  pub TakesOne-set :
      Loses c.shelf_items g.usage g'.usage → TakesOne c heap (set heap c.associated_gpu g')
  TakesOne-set m = record { kept = set-kept c heap g g' e m; lost = set-lost c heap g g' e m }

  pub IsCleared-set :
      Emptied c.shelf_items g.usage g'.usage → IsCleared c (set heap c.associated_gpu g')
  IsCleared-set m id b p = item_on-set_self heap c.associated_gpu g g' id e ∙ m.gone id b p
