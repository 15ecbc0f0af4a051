-- ===== src/Prepare/Apart.antt =====
-- `PrepareConfigsRequirements` of internal/controller/config_finder.go gives no item to two configurations.
use fa_st_gshare_autoscaler.Gpu.Owned.{Apart, IsHeld}
use fa_st_gshare_autoscaler.Gpu.Items.{item_on}
use fa_st_gshare_autoscaler.Prepare.Held.{prepare-MayHold, prepare_configs-Holds}
use fa_st_gshare_autoscaler.Prepare.Holding.{Holds, MayHold}
use fa_st_gshare_autoscaler.Prepare.Sound.{
  AnswersInRange, IsHealthy, IsHealthy-weaken, prepare-IsHealthy,
}
use fa_st_gshare_autoscaler.Prepare.{
  Requester, Site, prepare, prepare_configs_requirements, required,
}
use fa_st_gshare_autoscaler.Select.Pick.{keep}
use fa_st_gshare_autoscaler.Finder.{ResourceRequest, pairs}
use fa_st_gshare_autoscaler.Gpu.{AllocationTypes, Config, GpuInfo}
use fa_st_gshare_autoscaler.Common.{
  int_eq, string_eq, All, All-map, Float, List, Option, Option-cases, Pairs, [], ap, arith, inl,
  inr, lookup, none, pos_part, some, ◌+◌, ◌<◌, ◌^◌, ◌∙◌, ◌∷◌, ◌≡◌,
}

module _ {F T : Type 0} where
  pub Holds-IsHeld : (x y : List (GpuInfo F T)) (c : Config F T) → Holds x y c → IsHeld y c
  Holds-IsHeld x y c h id b p = (h id b p).1

  -- What was on a GPU before others are allocated is none of theirs.
  pub Holds-Apart :
      (x y : List (GpuInfo F T)) (c d : Config F T) → IsHeld x c → Holds x y d → Apart c d
  Holds-Apart x y c d held h e id = elim (Option-cases (lookup id d.shelf_items)) [
    | inl n ↦ inr n
    | inr (b, p) ↦ elim (Option-cases (lookup id c.shelf_items)) [
      | inl n ↦ inl n
      | inr (b', p') ↦ absurd (held id b' p' (ap (λ i. item_on x i id) e ∙ (h id b p).0))
    ]
  ]

  keep-Pairs :
      (x y z : List (GpuInfo F T)) (o : Option (Config F T)) (cs : List (Config F T))
      → MayHold x y o
      → All (Holds y z) cs
      → Pairs Apart cs
      → Pairs Apart (keep o cs)
  keep-Pairs x y z none cs h q pairs = pairs
  keep-Pairs x y z (some c) cs h q pairs = (
    All-map (Holds y z) (Apart c) cs (λ d k. Holds-Apart y z c d (Holds-IsHeld x y c h) k) q,
    pairs,
  )

module _ {F T W C : Type 0} ⦃f : Float F⦄ ⦃a : AllocationTypes T⦄ where
  pub prepare_configs-Apart :
      (request : Requester W C) (req : ResourceRequest F T) (cs : List (Config F T))
      (site : Site W C F T)
      → AnswersInRange request
      → All (λ c. c.shelf_items ≡ []) cs
      → 1 + required cs < 2 ^ 63
      → IsHealthy (required cs) site
      → Pairs Apart (prepare_configs_requirements request req cs site).1
  unfolding prepare_configs_requirements
  prepare_configs-Apart request req [] site answers fresh few h = tt
  prepare_configs-Apart request req (c ∷ cs) site answers (new, fresh) few h =
      let k = required cs in
      let enough =
        IsHealthy-weaken (pos_part c.required_replica + k) (k + pos_part c.required_replica) site
          (omega arith) h in
      let lt : 1 + (k + pos_part c.required_replica) < 2 ^ 63 = omega arith in
      let (site', kept) = prepare request req c site in
      let healthy = prepare-IsHealthy request answers k c lt req site enough in
      keep-Pairs site.heap site'.heap (prepare_configs_requirements request req cs site').0.heap
        kept _ (prepare-MayHold request answers k c new lt req site enough)
        (prepare_configs-Holds request req cs site' answers fresh (omega arith) healthy)
        (prepare_configs-Apart request req cs site' answers fresh (omega arith) healthy)
