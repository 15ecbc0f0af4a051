-- ===== src/Prepare/Allocated.antt =====
-- What `PrepareConfigsRequirements` of internal/controller/config_finder.go returns.
use fa_st_gshare_autoscaler.Nodes.{Node}
use fa_st_gshare_autoscaler.Gpu.{AllocationTypes, Config, GpuInfo, allocate_and_commit_config}
use fa_st_gshare_autoscaler.Finder.{ResourceRequest}
use fa_st_gshare_autoscaler.Select.Pick.{keep}
use fa_st_gshare_autoscaler.Select.{VirtualGpu}
use fa_st_gshare_autoscaler.Prepare.{
  Provision, Requester, Site, add_virtual, commit, kept_if, list_gpu, obtain, prepare,
  prepare_configs_requirements, provide, use_mps,
}
use fa_st_gshare_autoscaler.Common.{
  string_eq, int_eq, All, Bool, Bool-cases, Float, List, Option, Option-cases, [], arith, false,
  get_elem?, if◌then◌else◌, inl, inr, length, lookup, ltb_ℤ, none, pos, some, true, ℕ, ◌<ℤ◌, ◌∷◌,
}

module _ {F T : Type 0} where
  abbrev pub HasReplicas : Config F T → Type 0
  HasReplicas c = pos 0 <ℤ c.allocated_replica

  abbrev pub IsKept : Option (Config F T) → Type 0
  IsKept none = Unit
  IsKept (some c) = HasReplicas c

  kept_if-IsKept : (c : Config F T) → IsKept (kept_if c)
  kept_if-IsKept c = elim (Bool-cases (ltb_ℤ (pos 0) c.allocated_replica)) [
    | inl more ↦ rw more (ground arith)
    | inr none_left ↦ rw none_left tt
  ]

  keep-IsKept :
      (o : Option (Config F T)) (cs : List (Config F T))
      → IsKept o
      → All HasReplicas cs
      → All HasReplicas (keep o cs)
  keep-IsKept none cs h q = q
  keep-IsKept (some c) cs h q = (h, q)

module _ {F T W C : Type 0} ⦃f : Float F⦄ ⦃a : AllocationTypes T⦄ where
  commit-IsKept :
      (c : Config F T) (address : ℕ) (site : Site W C F T) → IsKept (commit c address site).1
  unfolding commit
  commit-IsKept c address site = elim (Option-cases (get_elem? site.heap address)) [
    | inl n ↦ rw (n, commit) tt
    | inr (g, there) ↦
        rw (there, commit)
          (kept_if-IsKept
            (allocate_and_commit_config g
              (record c { associated_gpu = address; vgpu_uuid = g.uuid })).1)
  ]

  add_virtual-IsKept :
      (c : Config F T) (g : GpuInfo F T) (site : Site W C F T) (o : Option Provision)
      → IsKept (add_virtual c g site o).1
  unfolding add_virtual
  add_virtual-IsKept c g site none = tt
  add_virtual-IsKept c g site (some p) = commit-IsKept c (length site.heap) (provide g p site)

  if-IsKept :
      (b : Bool) (x y : Site W C F T × Option (Config F T))
      → IsKept x.1
      → IsKept y.1
      → IsKept (if b then x else y).1
  if-IsKept true x y h k = h
  if-IsKept false x y h k = k

  obtain-IsKept :
      (request : Requester W C) (req : ResourceRequest F T) (c : Config F T) (g : GpuInfo F T)
      (node : Node C VirtualGpu) (o : Option ℕ) (site : Site W C F T)
      → IsKept (obtain request req c g node o site).1
  unfolding obtain
  obtain-IsKept request req c g node (some address) site = commit-IsKept c address site
  obtain-IsKept request req c g node none site =
      let (world', answer) = request site.world node.grpc_client (use_mps req) g.profile_id in
      if-IsKept g.virtual (add_virtual c g (record site { world = world' }) answer)
        (commit c c.associated_gpu (list_gpu c g site))
        (add_virtual-IsKept c g (record site { world = world' }) answer)
        (commit-IsKept c c.associated_gpu (list_gpu c g site))

  prepare-IsKept :
      (request : Requester W C) (req : ResourceRequest F T) (c : Config F T) (site : Site W C F T)
      → IsKept (prepare request req c site).1
  unfolding prepare
  prepare-IsKept request req c site = elim (Option-cases (get_elem? site.heap c.associated_gpu)) [
    | inl n ↦ rw (n, prepare) tt
    | inr (g, there) ↦ elim (Option-cases (lookup g.node_name site.nodes)) [
      | inl n ↦ rw (there, prepare, n) tt
      | inr (node, e) ↦
          rw (there, prepare, e)
            (obtain-IsKept request req c g node (lookup g.uuid node.physical_gpus) site)
    ]
  ]

  -- Every configuration that PrepareConfigsRequirements returns has at least one replica
  -- allocated, whatever the nodes' servers answer.
  prepare_configs-HasReplicas :
      (request : Requester W C) (req : ResourceRequest F T) (cs : List (Config F T))
      (site : Site W C F T)
      → All HasReplicas (prepare_configs_requirements request req cs site).1
  unfolding prepare_configs_requirements
  prepare_configs-HasReplicas request req [] site = tt
  prepare_configs-HasReplicas request req (c ∷ cs) site =
      keep-IsKept (prepare request req c site).1 _ (prepare-IsKept request req c site)
        (prepare_configs-HasReplicas request req cs (prepare request req c site).0)
