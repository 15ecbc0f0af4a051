-- ===== src/Prepare/Sound.antt =====
-- What `PrepareConfigsRequirements` of internal/controller/config_finder.go leaves of the packers of the GPUs
-- and of what the nodes offer.
use fa_st_gshare_autoscaler.Select.Sound.{AreInRange, OffersInRange, OffersInRange-adjust}
use fa_st_gshare_autoscaler.Gpu.Valid.{
  AreSound, AreSound-get, AreSound-set, AreSound-weaken, IsSound, IsSound-allocate,
}
use fa_st_gshare_autoscaler.Prepare.{
  Provision, Requester, Site, add_virtual, attach, commit, created_gpu, list_gpu, obtain, prepare,
  prepare_configs_requirements, provide, required, use_mps,
}
use fa_st_gshare_autoscaler.Select.{ProvisionedGpu, VirtualGpu}
use fa_st_gshare_autoscaler.Finder.{ResourceRequest}
use fa_st_gshare_autoscaler.Nodes.{Node}
use fa_st_gshare_autoscaler.Gpu.{AllocationTypes, Config, GpuInfo}
use fa_st_gshare_autoscaler.Shelf.Invariant.{new_shelf-IsValid}
use fa_st_gshare_autoscaler.Shelf.{new_shelf}
use fa_st_gshare_autoscaler.Common.{
  int_eq, string_eq, All-append, Bool, Float, List, Option, Option-cases, [], arith, get_elem?,
  if_cases, inl, inr, length, lookup, none, pos_part, refl, some, ℕ, ◌+◌, ◌<◌, ◌^◌, ◌∷◌, ◌≡◌, ◌≤◌,
}

-- What a virtual GPU that a node's server provides comes with: an offer that is in range.
abbrev pub AnswersInRange : {W C : Type 0} → Requester W C → Type 0
AnswersInRange {W = W} {C = C} request =
    (w : W) (c : C) (mps : Bool) (profile : Option ℕ) (p : Provision)
    → (request w c mps profile).1 ≡ some p
    → AreInRange p.available

module _ {F T : Type 0} ⦃f : Float F⦄ ⦃a : AllocationTypes T⦄ where
  created_gpu-IsSound :
      (n : ℕ) (g : GpuInfo F T) (p : ProvisionedGpu)
      → IsSound n g
      → 1 + n < 2 ^ 63
      → IsSound n (created_gpu g p)
  unfolding created_gpu new_shelf
  created_gpu-IsSound n g p s few = record {
    packer = record { valid = new_shelf-IsValid g.total_sm_percentage s.range; ids = omega arith };
    range = s.range;
  }

  module _ {W C : Type 0} where
    -- Each packer is valid, with ids for `n` more items, and the nodes' offers are in range.
    pub record IsHealthy (n : ℕ) (site : Site W C F T) : Type 0 where
      pub gpus : AreSound n site.heap
      pub offers : OffersInRange site.nodes

    pub IsHealthy-weaken :
        (n m : ℕ) (site : Site W C F T) → m ≤ n → IsHealthy n site → IsHealthy m site
    IsHealthy-weaken n m site le h = record {
      gpus = AreSound-weaken n m site.heap le h.gpus;
      offers = h.offers;
    }

    commit-IsHealthy :
        (n : ℕ) (c : Config F T) (address : ℕ) (site : Site W C F T)
        → IsHealthy (n + pos_part c.required_replica) site
        → IsHealthy n (commit c address site).0
    unfolding commit
    commit-IsHealthy n c address site h =
        let k = n + pos_part c.required_replica in
        let less = IsHealthy-weaken k n site (omega arith) h in
        elim (Option-cases (get_elem? site.heap address)) [
          | inl e ↦ rw (e, commit) less
          | inr (g, e) ↦
              rw (e, commit)
                (record {
                  gpus = AreSound-set n site.heap address _ less.gpus (
                      IsSound-allocate n g
                        (record c { associated_gpu = address; vgpu_uuid = g.uuid })
                        (AreSound-get k site.heap address g h.gpus e));
                  offers = h.offers;
                })
        ]

    pub list_gpu-IsHealthy :
        (n : ℕ) (c : Config F T) (g : GpuInfo F T) (site : Site W C F T)
        → IsHealthy n site
        → IsHealthy n (list_gpu c g site)
    unfolding list_gpu
    list_gpu-IsHealthy n c g site h = record {
      gpus = h.gpus;
      offers =
          OffersInRange-adjust g.node_name (attach g.uuid c.associated_gpu) site.nodes (λ x r. r)
            h.offers;
    }

    pub provide-IsHealthy :
        (n : ℕ) (g : GpuInfo F T) (p : Provision) (site : Site W C F T)
        → IsSound n g
        → 1 + n < 2 ^ 63
        → AreInRange p.available
        → IsHealthy n site
        → IsHealthy n (provide g p site)
    unfolding provide
    provide-IsHealthy n g p site s few range h = record {
      gpus =
          All-append (IsSound n) site.heap (created_gpu g p.gpu ∷ []) h.gpus
            (created_gpu-IsSound n g p.gpu s few, tt);
      offers = OffersInRange-adjust g.node_name _ site.nodes (λ x r. range) h.offers;
    }

    module _ (request : Requester W C) (answers : AnswersInRange request) (n : ℕ) (c : Config F T)
        (few : 1 + (n + pos_part c.required_replica) < 2 ^ 63) where
      add_virtual-IsHealthy :
          (g : GpuInfo F T) (site : Site W C F T) (o : Option Provision)
          → ((p : Provision) → o ≡ some p → AreInRange p.available)
          → IsSound (n + pos_part c.required_replica) g
          → IsHealthy (n + pos_part c.required_replica) site
          → IsHealthy n (add_virtual c g site o).0
      unfolding add_virtual
      add_virtual-IsHealthy g site none range s h =
          IsHealthy-weaken (n + pos_part c.required_replica) n site (omega arith) h
      add_virtual-IsHealthy g site (some p) range s h =
          commit-IsHealthy n c (length site.heap) (provide g p site)
            (provide-IsHealthy (n + pos_part c.required_replica) g p site s few (range p refl) h)

      obtain-IsHealthy :
          (req : ResourceRequest F T) (g : GpuInfo F T) (node : Node C VirtualGpu) (o : Option ℕ)
          (site : Site W C F T)
          → IsSound (n + pos_part c.required_replica) g
          → IsHealthy (n + pos_part c.required_replica) site
          → IsHealthy n (obtain request req c g node o site).0
      unfolding obtain
      obtain-IsHealthy req g node (some address) site s h = commit-IsHealthy n c address site h
      obtain-IsHealthy req g node none site s h =
          let k = n + pos_part c.required_replica in
          let (world', answer) = request site.world node.grpc_client (use_mps req) g.profile_id in
          let called : IsHealthy k (record site { world = world' }) = record {
            gpus = h.gpus;
            offers = h.offers;
          } in
          if_cases (λ (r : Site W C F T × Option (Config F T)). IsHealthy n r.0) g.virtual _ _
            (add_virtual-IsHealthy g (record site { world = world' }) answer
              (answers site.world node.grpc_client (use_mps req) g.profile_id) s called)
            (commit-IsHealthy n c c.associated_gpu (list_gpu c g site)
              (list_gpu-IsHealthy k c g site h))

      pub prepare-IsHealthy :
          (req : ResourceRequest F T) (site : Site W C F T)
          → IsHealthy (n + pos_part c.required_replica) site
          → IsHealthy n (prepare request req c site).0
      unfolding prepare
      prepare-IsHealthy req site h =
          let k = n + pos_part c.required_replica in
          let less = IsHealthy-weaken k n site (omega arith) h in
          elim (Option-cases (get_elem? site.heap c.associated_gpu)) [
            | inl e ↦ rw (e, prepare) less
            | inr (g, there) ↦ elim (Option-cases (lookup g.node_name site.nodes)) [
              | inl e ↦ rw (there, prepare, e) less
              | inr (node, e) ↦
                  rw (there, prepare, e)
                    (obtain-IsHealthy req g node (lookup g.uuid node.physical_gpus) site
                      (AreSound-get k site.heap c.associated_gpu g h.gpus there) h)
            ]
          ]

    -- Preparation takes of no packer more ids than the configurations require together.
    pub prepare_configs-IsHealthy :
        (request : Requester W C) (n : ℕ) (req : ResourceRequest F T) (cs : List (Config F T))
        (site : Site W C F T)
        → AnswersInRange request
        → 1 + (n + required cs) < 2 ^ 63
        → IsHealthy (n + required cs) site
        → IsHealthy n (prepare_configs_requirements request req cs site).0
    unfolding prepare_configs_requirements
    prepare_configs-IsHealthy request n req [] site answers few h =
        IsHealthy-weaken (n + 0) n site (omega arith) h
    prepare_configs-IsHealthy request n req (c ∷ cs) site answers few h =
        let k = n + required cs in
        let all = n + (pos_part c.required_replica + required cs) in
        prepare_configs-IsHealthy request n req cs (prepare request req c site).0 answers
          (omega arith)
          (prepare-IsHealthy request answers k c (omega arith) req site
            (IsHealthy-weaken all (k + pos_part c.required_replica) site (omega arith) h))
