-- ===== src/Prepare/Untouched.antt =====
-- `PrepareConfigsRequirements` of internal/controller/config_finder.go leaves the items that are on the GPUs.
use fa_st_gshare_autoscaler.Prepare.Sound.{
  AnswersInRange, IsHealthy, IsHealthy-weaken, list_gpu-IsHealthy, prepare-IsHealthy,
  provide-IsHealthy,
}
use fa_st_gshare_autoscaler.Select.Sound.{AreInRange}
use fa_st_gshare_autoscaler.Gpu.Keeps.{
  KeepsAll, KeepsAll-append, KeepsAll-set, KeepsAll-trans, allocate-Keeps,
}
use fa_st_gshare_autoscaler.Gpu.Valid.{AreSound-get, AreSound-weaken, IsSound}
use fa_st_gshare_autoscaler.Prepare.{
  Provision, Requester, Site, add_virtual, commit, created_gpu, list_gpu, obtain, prepare,
  prepare_configs_requirements, provide, required, use_mps,
}
use fa_st_gshare_autoscaler.Select.{VirtualGpu}
use fa_st_gshare_autoscaler.Finder.{ResourceRequest}
use fa_st_gshare_autoscaler.Nodes.{Node}
use fa_st_gshare_autoscaler.Gpu.{AllocationTypes, Config, GpuInfo}
use fa_st_gshare_autoscaler.Common.{
  int_eq, string_eq, Float, List, Option, Option-cases, [], arith, get_elem?, if_cases, inl, inr,
  length, lookup, none, pos_part, refl, some, ℕ, ◌+◌, ◌<◌, ◌^◌, ◌∷◌, ◌≡◌,
}

module _ {F T W C : Type 0} ⦃f : Float F⦄ ⦃a : AllocationTypes T⦄ where
  commit-KeepsAll :
      (n : ℕ) (c : Config F T) (address : ℕ) (site : Site W C F T)
      → IsHealthy (n + pos_part c.required_replica) site
      → KeepsAll site.heap (commit c address site).0.heap
  unfolding commit
  commit-KeepsAll n c address site h = elim (Option-cases (get_elem? site.heap address)) [
    | inl e ↦ rw (e, commit) (λ i id it p. p)
    | inr (g, e) ↦
        let k = n + pos_part c.required_replica in
        let enough =
          AreSound-weaken k (pos_part c.required_replica) site.heap (omega arith) h.gpus in
        rw (e, commit)
          (KeepsAll-set site.heap address g _ e (
            allocate-Keeps g (record c { associated_gpu = address; vgpu_uuid = g.uuid })
              (AreSound-get (pos_part c.required_replica) site.heap address g enough e)))
  ]

  add_virtual-KeepsAll :
      (n : ℕ) (c : Config F T) (g : GpuInfo F T) (site : Site W C F T) (o : Option Provision)
      → ((p : Provision) → o ≡ some p → AreInRange p.available)
      → 1 + (n + pos_part c.required_replica) < 2 ^ 63
      → IsSound (n + pos_part c.required_replica) g
      → IsHealthy (n + pos_part c.required_replica) site
      → KeepsAll site.heap (add_virtual c g site o).0.heap
  unfolding add_virtual provide
  add_virtual-KeepsAll n c g site none range few s h = λ i id it p. p
  add_virtual-KeepsAll n c g site (some p) range few s h =
      let k = n + pos_part c.required_replica in
      KeepsAll-trans site.heap (provide g p site).heap _
        (KeepsAll-append site.heap (created_gpu g p.gpu ∷ []))
        (commit-KeepsAll n c (length site.heap) (provide g p site)
          (provide-IsHealthy k g p site s few (range p refl) h))

  module _ (request : Requester W C) (answers : AnswersInRange request) (n : ℕ) (c : Config F T)
      (few : 1 + (n + pos_part c.required_replica) < 2 ^ 63) where
    obtain-KeepsAll :
        (req : ResourceRequest F T) (g : GpuInfo F T) (node : Node C VirtualGpu) (o : Option ℕ)
        (site : Site W C F T)
        → IsSound (n + pos_part c.required_replica) g
        → IsHealthy (n + pos_part c.required_replica) site
        → KeepsAll site.heap (obtain request req c g node o site).0.heap
    unfolding obtain list_gpu
    obtain-KeepsAll req g node (some address) site s h = commit-KeepsAll n c address site h
    obtain-KeepsAll req g node none site s h =
        let k = n + pos_part c.required_replica in
        let (world', answer) = request site.world node.grpc_client (use_mps req) g.profile_id in
        let called : IsHealthy k (record site { world = world' }) = record {
          gpus = h.gpus;
          offers = h.offers;
        } in
        if_cases (λ (r : Site W C F T × Option (Config F T)). KeepsAll site.heap r.0.heap) g.virtual
          _ _
          (add_virtual-KeepsAll n c g (record site { world = world' }) answer
            (answers site.world node.grpc_client (use_mps req) g.profile_id) few s called)
          (commit-KeepsAll n c c.associated_gpu (list_gpu c g site)
            (list_gpu-IsHealthy k c g site h))

    pub prepare-KeepsAll :
        (req : ResourceRequest F T) (site : Site W C F T)
        → IsHealthy (n + pos_part c.required_replica) site
        → KeepsAll site.heap (prepare request req c site).0.heap
    unfolding prepare
    prepare-KeepsAll req site h =
        let k = n + pos_part c.required_replica in
        elim (Option-cases (get_elem? site.heap c.associated_gpu)) [
          | inl e ↦ rw (e, prepare) (λ i id it p. p)
          | inr (g, there) ↦ elim (Option-cases (lookup g.node_name site.nodes)) [
            | inl e ↦ rw (there, prepare, e) (λ i id it p. p)
            | inr (node, e) ↦
                rw (there, prepare, e)
                  (obtain-KeepsAll req g node (lookup g.uuid node.physical_gpus) site
                    (AreSound-get k site.heap c.associated_gpu g h.gpus there) h)
          ]
        ]

  pub prepare_configs-KeepsAll :
      (request : Requester W C) (req : ResourceRequest F T) (cs : List (Config F T))
      (site : Site W C F T)
      → AnswersInRange request
      → 1 + required cs < 2 ^ 63
      → IsHealthy (required cs) site
      → KeepsAll site.heap (prepare_configs_requirements request req cs site).0.heap
  unfolding prepare_configs_requirements
  prepare_configs-KeepsAll request req [] site answers few h = λ i id it p. p
  prepare_configs-KeepsAll request req (c ∷ cs) site answers few h =
      let k = required cs in
      let first =
        IsHealthy-weaken (pos_part c.required_replica + k) (k + pos_part c.required_replica) site
          (omega arith) h in
      let site' = (prepare request req c site).0 in
      KeepsAll-trans site.heap site'.heap _
        (prepare-KeepsAll request answers k c (omega arith) req site first)
        (prepare_configs-KeepsAll request req cs site' answers (omega arith)
          (prepare-IsHealthy request answers k c (omega arith) req site first))
