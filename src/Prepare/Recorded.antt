-- ===== src/Prepare/Recorded.antt =====
-- Every item that `PrepareConfigsRequirements` of internal/controller/config_finder.go puts on a GPU is recorded by a
-- configuration that it returns.
use fa_st_gshare_autoscaler.Select.Pick.Kept.{MayBe-keep, keep-MayBe}
use fa_st_gshare_autoscaler.Select.Sound.{AreInRange}
use fa_st_gshare_autoscaler.Gpu.Allocated.{Ignores, IsAllocated, find-new_shelf, item_on-append}
use fa_st_gshare_autoscaler.Gpu.Items.{item_on}
use fa_st_gshare_autoscaler.Gpu.Valid.{AreSound-get, IsSound}
use fa_st_gshare_autoscaler.Prepare.Full.{Prepared, Prepared-nothing, commit-Prepared}
use fa_st_gshare_autoscaler.Prepare.Sound.{
  AnswersInRange, IsHealthy, IsHealthy-weaken, list_gpu-IsHealthy, prepare-IsHealthy,
  provide-IsHealthy,
}
use fa_st_gshare_autoscaler.Prepare.{
  Provision, Requester, Site, add_virtual, created_gpu, list_gpu, obtain, prepare,
  prepare_configs_requirements, provide, required, use_mps,
}
use fa_st_gshare_autoscaler.Select.Pick.{keep}
use fa_st_gshare_autoscaler.Select.{VirtualGpu}
use fa_st_gshare_autoscaler.Finder.{ResourceRequest}
use fa_st_gshare_autoscaler.Nodes.{Node}
use fa_st_gshare_autoscaler.Gpu.{AllocationTypes, Config, GpuInfo}
use fa_st_gshare_autoscaler.Common.{
  int_eq, nat_eq, string_eq, All, Float, List, MayBe, Option, Option-cases, Pairs, String, [],
  arith, get_elem?, if_cases, inl, inr, length, lookup, none, pos_part, refl, some, subst, sym, ℕ,
  ℤ, ◌+◌, ◌<◌, ◌^◌, ◌∷◌, ◌≡◌, ◌≢◌,
}

module _ {F T W C : Type 0} ⦃f : Float F⦄ ⦃a : AllocationTypes T⦄ where
  add_virtual-Prepared :
      (n : ℕ) (c : Config F T) (g : GpuInfo F T) (site : Site W C F T) (o : Option Provision)
      → ((p : Provision) → o ≡ some p → AreInRange p.available)
      → c.shelf_items ≡ []
      → 1 + (n + pos_part c.required_replica) < 2 ^ 63
      → IsSound (n + pos_part c.required_replica) g
      → IsHealthy (n + pos_part c.required_replica) site
      → Prepared site.heap c (add_virtual c g site o)
  unfolding add_virtual provide created_gpu
  add_virtual-Prepared n c g site none range fresh few s h = Prepared-nothing c site
  add_virtual-Prepared n c g site (some p) range fresh few s h =
      let k = n + pos_part c.required_replica in
      let own =
        commit-Prepared n c (length site.heap) (provide g p site) fresh
          (provide-IsHealthy k g p site s few (range p refl) h) in
      record {
        full = λ i id free. own.full i id (
            item_on-append site.heap (created_gpu g p.gpu) i id
              (find-new_shelf g.total_sm_percentage id) free);
        allocated = own.allocated;
        named = own.named;
      }

  module _ (request : Requester W C) (answers : AnswersInRange request) (n : ℕ) (c : Config F T)
      (fresh : c.shelf_items ≡ []) (few : 1 + (n + pos_part c.required_replica) < 2 ^ 63) where
    obtain-Prepared :
        (req : ResourceRequest F T) (g : GpuInfo F T) (node : Node C VirtualGpu) (o : Option ℕ)
        (site : Site W C F T)
        → IsSound (n + pos_part c.required_replica) g
        → IsHealthy (n + pos_part c.required_replica) site
        → Prepared site.heap c (obtain request req c g node o site)
    unfolding obtain list_gpu
    obtain-Prepared req g node (some address) site s h = commit-Prepared n c address site fresh h
    obtain-Prepared req g node none site s h =
        let k = n + pos_part c.required_replica in
        let (world', answer) = request site.world node.grpc_client (use_mps req) g.profile_id in
        let called : IsHealthy k (record site { world = world' }) = record {
          gpus = h.gpus;
          offers = h.offers;
        } in
        if_cases (Prepared site.heap c) g.virtual _ _
          (add_virtual-Prepared n c g (record site { world = world' }) answer
            (answers site.world node.grpc_client (use_mps req) g.profile_id) fresh few s called)
          (commit-Prepared n c c.associated_gpu (list_gpu c g site) fresh
            (list_gpu-IsHealthy k c g site h))

    prepare-Prepared :
        (req : ResourceRequest F T) (site : Site W C F T)
        → IsHealthy (n + pos_part c.required_replica) site
        → Prepared site.heap c (prepare request req c site)
    unfolding prepare
    prepare-Prepared req site h =
        let k = n + pos_part c.required_replica in
        elim (Option-cases (get_elem? site.heap c.associated_gpu)) [
          | inl e ↦ rw (e, prepare) (Prepared-nothing c site)
          | inr (g, there) ↦ elim (Option-cases (lookup g.node_name site.nodes)) [
            | inl e ↦ rw (there, prepare, e) (Prepared-nothing c site)
            | inr (node, e) ↦
                rw (there, prepare, e)
                  (obtain-Prepared req g node (lookup g.uuid node.physical_gpus) site
                    (AreSound-get k site.heap c.associated_gpu g h.gpus there) h)
          ]
        ]

module _ {F T : Type 0} where
  keep-named :
      (Q : String → Type 0) (c : Config F T) (o : Option (Config F T)) (cs : List (Config F T))
      → MayBe (λ d. d.uuid ≡ c.uuid) o
      → Q c.uuid
      → All (λ d. Q d.uuid) cs
      → All (λ d. Q d.uuid) (keep o cs)
  keep-named Q c none cs same q h = h
  keep-named Q c (some d) cs same q h = (subst Q (sym same) q, h)

  keep-Differ :
      (c : Config F T) (o : Option (Config F T)) (cs : List (Config F T))
      → MayBe (λ d. d.uuid ≡ c.uuid) o
      → All (λ d. c.uuid ≢ d.uuid) cs
      → Pairs (λ x y. x.uuid ≢ y.uuid) cs
      → Pairs (λ x y. x.uuid ≢ y.uuid) (keep o cs)
  keep-Differ c none cs same p h = h
  keep-Differ c (some d) cs same p h = (subst (λ u. All (λ x. u ≢ x.uuid) cs) (sym same) p, h)

module _ {F T W C : Type 0} ⦃f : Float F⦄ ⦃a : AllocationTypes T⦄ (request : Requester W C)
    (req : ResourceRequest F T) (answers : AnswersInRange request) where
  -- What comes of all of them: the items recorded are all that is new, each configuration has
  -- replicas, and the UUIDs are some of those handed in.
  pub record AllPrepared (heap : List (GpuInfo F T)) (cs : List (Config F T))
      (r : Site W C F T × List (Config F T)) : Type 1 where
    pub full :
        (i : ℕ) (id : ℤ)
        → item_on heap i id ≡ none
        → All (Ignores i id) r.1
        → item_on r.0.heap i id ≡ none
    pub allocated : All IsAllocated r.1
    pub named : (Q : String → Type 0) → All (λ d. Q d.uuid) cs → All (λ d. Q d.uuid) r.1
    pub differ : Pairs (λ x y. x.uuid ≢ y.uuid) cs → Pairs (λ x y. x.uuid ≢ y.uuid) r.1

  pub prepare_configs-AllPrepared :
      (cs : List (Config F T)) (site : Site W C F T)
      → All (λ c. c.shelf_items ≡ []) cs
      → 1 + required cs < 2 ^ 63
      → IsHealthy (required cs) site
      → AllPrepared site.heap cs (prepare_configs_requirements request req cs site)
  unfolding prepare_configs_requirements
  prepare_configs-AllPrepared [] site fresh few h = record {
    full = λ i id e p. e;
    allocated = tt;
    named = λ Q p. tt;
    differ = λ p. tt;
  }
  prepare_configs-AllPrepared (c ∷ cs) site (new, fresh) few h =
      let k = required cs in
      let enough =
        IsHealthy-weaken (pos_part c.required_replica + k) (k + pos_part c.required_replica) site
          (omega arith) h in
      let lt : 1 + (k + pos_part c.required_replica) < 2 ^ 63 = omega arith in
      let (site', kept) = prepare request req c site in
      let first = prepare-Prepared request answers k c new lt req site enough in
      let rest =
        prepare_configs-AllPrepared cs site' fresh (omega arith)
          (prepare-IsHealthy request answers k c lt req site enough) in
      let others = (prepare_configs_requirements request req cs site').1 in
      record {
        full = λ i id free ignored.
            let (own, more) = MayBe-keep (Ignores i id) kept others ignored in
            rest.full i id (first.full i id free own) more;
        allocated = keep-MayBe IsAllocated kept others first.allocated rest.allocated;
        named = λ Q (q, p). keep-named Q c kept others first.named q (rest.named Q p);
        differ = λ (p, q).
            keep-Differ c kept others first.named (rest.named (λ u. c.uuid ≢ u) p) (rest.differ q);
      }
