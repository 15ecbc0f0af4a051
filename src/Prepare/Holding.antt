-- ===== src/Prepare/Holding.antt =====
-- The items that a configuration of internal/controller/config_finder.go has got on the GPUs.
use fa_st_gshare_autoscaler.Gpu.Keeps.{KeepsAll}
use fa_st_gshare_autoscaler.Gpu.Items.{item_on}
use fa_st_gshare_autoscaler.Prepare.{kept_if}
use fa_st_gshare_autoscaler.Gpu.{Config, GpuInfo}
use fa_st_gshare_autoscaler.Common.{
  int_eq, string_eq, All, Bool, List, MayBe, Option, Option-cases, [], arith, if_cases, inl, inr,
  lookup, ltb_ℤ, none, pos, some, ℕ, ℤ, ◌∷◌, ◌≡◌, ◌≢◌,
}

module _ {F T : Type 0} where
  -- Each item of the configuration was not on its GPU before, and is there now.
  abbrev pub Holds : List (GpuInfo F T) → List (GpuInfo F T) → Config F T → Type 0
  Holds heap heap' c =
      (id : ℤ) (b : Bool)
      → lookup id c.shelf_items ≡ some b
      → (item_on heap c.associated_gpu id ≡ none) × (item_on heap' c.associated_gpu id ≢ none)

  abbrev pub MayHold : List (GpuInfo F T) → List (GpuInfo F T) → Option (Config F T) → Type 0
  MayHold heap heap' o = MayBe (Holds heap heap') o

  -- What is free later was free before.
  free_before :
      (heap heap' : List (GpuInfo F T)) (i : ℕ) (id : ℤ)
      → KeepsAll heap heap'
      → item_on heap' i id ≡ none
      → item_on heap i id ≡ none
  free_before heap heap' i id k e = elim (Option-cases (item_on heap i id)) [
    | inl n ↦ n
    | inr (it, p) ↦ ground (arith, k i id it p)
  ]

  held_after :
      (heap heap' : List (GpuInfo F T)) (i : ℕ) (id : ℤ)
      → KeepsAll heap heap'
      → item_on heap i id ≢ none
      → item_on heap' i id ≢ none
  held_after heap heap' i id k ne = elim (Option-cases (item_on heap i id)) [
    | inl n ↦ absurd (ne n)
    | inr (it, p) ↦ λ q. ground (arith, k i id it p)
  ]

  Holds-wider :
      (x y z w : List (GpuInfo F T)) (c : Config F T)
      → KeepsAll x y
      → KeepsAll z w
      → Holds y z c
      → Holds x w c
  Holds-wider x y z w c k k' h id b p =
      let (free, held) = h id b p in
      (free_before x y c.associated_gpu id k free, held_after z w c.associated_gpu id k' held)

  pub MayHold-earlier :
      (x y z : List (GpuInfo F T)) (o : Option (Config F T))
      → KeepsAll x y
      → MayHold y z o
      → MayHold x z o
  MayHold-earlier x y z none k h = tt
  MayHold-earlier x y z (some c) k h = Holds-wider x y z z c k (λ i id it p. p) h

  pub MayHold-later :
      (x y z : List (GpuInfo F T)) (o : Option (Config F T))
      → KeepsAll y z
      → MayHold x y o
      → MayHold x z o
  MayHold-later x y z none k h = tt
  MayHold-later x y z (some c) k h = Holds-wider x x y z c (λ i id it p. p) k h

  pub All-Holds-earlier :
      (x y z : List (GpuInfo F T)) (cs : List (Config F T))
      → KeepsAll x y
      → All (Holds y z) cs
      → All (Holds x z) cs
  All-Holds-earlier x y z [] k h = tt
  All-Holds-earlier x y z (c ∷ cs) k (p, h) =
      (Holds-wider x y z z c k (λ i id it q. q) p, All-Holds-earlier x y z cs k h)

  pub kept_if-MayHold :
      (heap heap' : List (GpuInfo F T)) (c : Config F T)
      → Holds heap heap' c
      → MayHold heap heap' (kept_if c)
  kept_if-MayHold heap heap' c h =
      if_cases (MayHold heap heap') (ltb_ℤ (pos 0) c.allocated_replica) (some c) none h tt
