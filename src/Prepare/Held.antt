-- ===== src/Prepare/Held.antt =====
-- The items of the configurations that `PrepareConfigsRequirements` of internal/controller/config_finder.go
-- returns.
use fa_st_gshare_autoscaler.Gpu.Valid.{AreSound-get, AreSound-weaken, IsSound}
use fa_st_gshare_autoscaler.Gpu.Keeps.{KeepsAll-append}
use fa_st_gshare_autoscaler.Gpu.Items.{item_in, item_on-set_self}
use fa_st_gshare_autoscaler.Select.Pick.Kept.{keep-MayBe}
use fa_st_gshare_autoscaler.Select.Sound.{AreInRange}
use fa_st_gshare_autoscaler.Prepare.Holding.{
  All-Holds-earlier, Holds, MayHold, MayHold-earlier, MayHold-later, kept_if-MayHold,
}
use fa_st_gshare_autoscaler.Prepare.Untouched.{prepare-KeepsAll, prepare_configs-KeepsAll}
use fa_st_gshare_autoscaler.Prepare.Sound.{
  AnswersInRange, IsHealthy, IsHealthy-weaken, list_gpu-IsHealthy, prepare-IsHealthy,
  provide-IsHealthy,
}
use fa_st_gshare_autoscaler.Prepare.{
  Provision, Requester, Site, add_virtual, commit, created_gpu, list_gpu, obtain, prepare,
  prepare_configs_requirements, provide, required, use_mps,
}
use fa_st_gshare_autoscaler.Select.{VirtualGpu}
use fa_st_gshare_autoscaler.Finder.{ResourceRequest}
use fa_st_gshare_autoscaler.Nodes.{Node}
use fa_st_gshare_autoscaler.Gpu.Replicas.{Filling, insert_replicas-Filling}
use fa_st_gshare_autoscaler.Gpu.{
  AllocationTypes, Config, GpuInfo, allocate_and_commit_config, insert_replicas,
}
use fa_st_gshare_autoscaler.Common.{
  int_eq, string_eq, All, Float, List, Option, Option-cases, [], ap, arith, get_elem?, if_cases,
  inl, inr, length, lookup, none, pos, pos_part, refl, set, some, sym, ℕ, ◌+◌, ◌<◌, ◌^◌, ◌∙◌, ◌∷◌,
  ◌≡◌,
}

module _ {F T : Type 0} ⦃f : Float F⦄ where
  allocate-Holds :
      (heap : List (GpuInfo F T)) (g : GpuInfo F T) (c : Config F T)
      → get_elem? heap c.associated_gpu ≡ some g
      → c.shelf_items ≡ []
      → IsSound (pos_part c.required_replica) g
      → Holds heap
          (set heap c.associated_gpu (allocate_and_commit_config g c).0)
          (allocate_and_commit_config g c).1
  unfolding allocate_and_commit_config
  allocate-Holds heap g c e fresh s id b p =
      let n = pos_part c.required_replica in
      let filling : (k : ℕ) × Filling g.usage n
            (insert_replicas n c.quota_req c.sm_partition g.usage c.shelf_items (pos 0)).0
            (insert_replicas n c.quota_req c.sm_partition g.usage c.shelf_items (pos 0)).1
            (insert_replicas n c.quota_req c.sm_partition g.usage c.shelf_items (pos 0)).2 k =
        rw fresh (
          insert_replicas-Filling g.usage n c.quota_req c.sm_partition s.packer.valid
            s.packer.ids) in
      (
        ap (item_in id) e ∙ filling.1.added id b p,
        λ q. filling.1.held id b p (
            sym (item_on-set_self heap c.associated_gpu g (allocate_and_commit_config g c).0 id e)
            ∙ q),
      )

module _ {F T W C : Type 0} ⦃f : Float F⦄ ⦃a : AllocationTypes T⦄ where
  commit-MayHold :
      (n : ℕ) (c : Config F T) (address : ℕ) (site : Site W C F T)
      → c.shelf_items ≡ []
      → IsHealthy (n + pos_part c.required_replica) site
      → MayHold site.heap (commit c address site).0.heap (commit c address site).1
  unfolding commit
  commit-MayHold n c address site fresh h = elim (Option-cases (get_elem? site.heap address)) [
    | inl e ↦ rw (e, commit) tt
    | inr (g, e) ↦
        let k = n + pos_part c.required_replica in
        let enough =
          AreSound-weaken k (pos_part c.required_replica) site.heap (omega arith) h.gpus in
        rw (e, commit)
          (kept_if-MayHold site.heap _ _ (
            allocate-Holds site.heap g (record c { associated_gpu = address; vgpu_uuid = g.uuid }) e
              fresh (AreSound-get (pos_part c.required_replica) site.heap address g enough e)))
  ]

  add_virtual-MayHold :
      (n : ℕ) (c : Config F T) (g : GpuInfo F T) (site : Site W C F T) (o : Option Provision)
      → ((p : Provision) → o ≡ some p → AreInRange p.available)
      → c.shelf_items ≡ []
      → 1 + (n + pos_part c.required_replica) < 2 ^ 63
      → IsSound (n + pos_part c.required_replica) g
      → IsHealthy (n + pos_part c.required_replica) site
      → MayHold site.heap (add_virtual c g site o).0.heap (add_virtual c g site o).1
  unfolding add_virtual provide
  add_virtual-MayHold n c g site none range fresh few s h = tt
  add_virtual-MayHold n c g site (some p) range fresh few s h =
      let k = n + pos_part c.required_replica in
      let site' = provide g p site in
      let r = commit c (length site.heap) site' in
      MayHold-earlier site.heap site'.heap r.0.heap r.1
        (KeepsAll-append site.heap (created_gpu g p.gpu ∷ []))
        (commit-MayHold n c (length site.heap) site' fresh
          (provide-IsHealthy k g p site s few (range p refl) h))

  module _ (request : Requester W C) (answers : AnswersInRange request) (n : ℕ) (c : Config F T)
      (fresh : c.shelf_items ≡ []) (few : 1 + (n + pos_part c.required_replica) < 2 ^ 63) where
    obtain-MayHold :
        (req : ResourceRequest F T) (g : GpuInfo F T) (node : Node C VirtualGpu) (o : Option ℕ)
        (site : Site W C F T)
        → IsSound (n + pos_part c.required_replica) g
        → IsHealthy (n + pos_part c.required_replica) site
        → MayHold site.heap
            (obtain request req c g node o site).0.heap
            (obtain request req c g node o site).1
    unfolding obtain list_gpu
    obtain-MayHold req g node (some address) site s h = commit-MayHold n c address site fresh h
    obtain-MayHold req g node none site s h =
        let k = n + pos_part c.required_replica in
        let (world', answer) = request site.world node.grpc_client (use_mps req) g.profile_id in
        let called : IsHealthy k (record site { world = world' }) = record {
          gpus = h.gpus;
          offers = h.offers;
        } in
        if_cases (λ (r : Site W C F T × Option (Config F T)). MayHold site.heap r.0.heap r.1)
          g.virtual _ _
          (add_virtual-MayHold n c g (record site { world = world' }) answer
            (answers site.world node.grpc_client (use_mps req) g.profile_id) fresh few s called)
          (commit-MayHold n c c.associated_gpu (list_gpu c g site) fresh
            (list_gpu-IsHealthy k c g site h))

    pub prepare-MayHold :
        (req : ResourceRequest F T) (site : Site W C F T)
        → IsHealthy (n + pos_part c.required_replica) site
        → MayHold site.heap (prepare request req c site).0.heap (prepare request req c site).1
    unfolding prepare
    prepare-MayHold req site h =
        let k = n + pos_part c.required_replica in
        elim (Option-cases (get_elem? site.heap c.associated_gpu)) [
          | inl e ↦ rw (e, prepare) tt
          | inr (g, there) ↦ elim (Option-cases (lookup g.node_name site.nodes)) [
            | inl e ↦ rw (there, prepare, e) tt
            | inr (node, e) ↦
                rw (there, prepare, e)
                  (obtain-MayHold req g node (lookup g.uuid node.physical_gpus) site
                    (AreSound-get k site.heap c.associated_gpu g h.gpus there) h)
          ]
        ]

  -- Each item that a configuration returned by PrepareConfigsRequirements records was free on
  -- its GPU before the call and is on it afterwards, whatever the nodes answer, if the
  -- configurations handed in have no items yet, all packers are valid with ids for the replicas
  -- required, and the shares of SMs offered are int64s.
  pub prepare_configs-Holds :
      (request : Requester W C) (req : ResourceRequest F T) (cs : List (Config F T))
      (site : Site W C F T)
      → AnswersInRange request
      → All (λ c. c.shelf_items ≡ []) cs
      → 1 + required cs < 2 ^ 63
      → IsHealthy (required cs) site
      → All
          (Holds site.heap (prepare_configs_requirements request req cs site).0.heap)
          (prepare_configs_requirements request req cs site).1
  unfolding prepare_configs_requirements
  prepare_configs-Holds request req [] site answers fresh few h = tt
  prepare_configs-Holds request req (c ∷ cs) site answers (new, fresh) few h =
      let k = required cs in
      let enough =
        IsHealthy-weaken (pos_part c.required_replica + k) (k + pos_part c.required_replica) site
          (omega arith) h in
      let lt : 1 + (k + pos_part c.required_replica) < 2 ^ 63 = omega arith in
      let (site', kept) = prepare request req c site in
      let healthy = prepare-IsHealthy request answers k c lt req site enough in
      let end = (prepare_configs_requirements request req cs site').0.heap in
      keep-MayBe (Holds site.heap end) kept _
        (MayHold-later site.heap site'.heap end kept
          (prepare_configs-KeepsAll request req cs site' answers (omega arith) healthy)
          (prepare-MayHold request answers k c new lt req site enough))
        (All-Holds-earlier site.heap site'.heap end _
          (prepare-KeepsAll request answers k c lt req site enough)
          (prepare_configs-Holds request req cs site' answers fresh (omega arith) healthy))
