-- ===== src/Prepare.antt =====
-- internal/controller/config_finder.go, `PrepareConfigsRequirements`: each configuration is given its GPU,
-- which is requested from the node if it is virtual, and allocated there. The node's gRPC server is a
-- parameter that carries its own state.
use fa_st_gshare_autoscaler.Select.Pick.{keep}
use fa_st_gshare_autoscaler.Select.{Heap, ProvisionedGpu, VirtualGpu}
use fa_st_gshare_autoscaler.Finder.{ResourceRequest}
use fa_st_gshare_autoscaler.Nodes.{Node, Nodes, adjust}
use fa_st_gshare_autoscaler.Gpu.{AllocationTypes, Config, GpuInfo, allocate_and_commit_config}
use fa_st_gshare_autoscaler.Shelf.{new_shelf}
use fa_st_gshare_autoscaler.Common.{
  string_eq, int_eq, Bool, Float, List, Option, String, [], get_elem?, if◌then◌else◌, insert,
  length, lookup, ltb_ℤ, none, pos, pos_part, set, some, true, ℕ, ◌++◌, ◌+◌, ◌||◌, ◌∷◌,
}
pub mod Allocated
pub mod Sound
pub mod Untouched
pub mod Holding
pub mod Held
pub mod Apart
pub mod Full
pub mod Recorded

-- What the program reads of the answer to `RequestVirtualGPU`.
pub record Provision : Type 0 where
  pub available : List VirtualGpu
  pub gpu : ProvisionedGpu

-- `RequestVirtualGPU` of a client, given whether to use MPS and the profile; `none` is an error.
abbrev pub Requester : Type 0 → Type 0 → Type 0
Requester W C = W → C → Bool → Option ℕ → W × Option Provision

-- The server's state, the nodes and the heap of GPUs.
pub record Site (W C F T : Type 0) : Type 0 where
  pub world : W
  pub nodes : Nodes C VirtualGpu
  pub heap : Heap F T

module _ {C : Type 0} where
  abbrev pub attach : String → ℕ → Node C VirtualGpu → Node C VirtualGpu
  attach uuid address n = record n { physical_gpus = insert uuid address n.physical_gpus }

  abbrev pub offer : List VirtualGpu → Node C VirtualGpu → Node C VirtualGpu
  offer gpus n = record n { available_gpus = gpus }

module _ {F T : Type 0} where
  -- The replicas that the configurations require together.
  abbrev pub required : List (Config F T) → ℕ
  required [] = 0
  required (c ∷ cs) = pos_part c.required_replica + required cs

  -- A configuration without replicas is left out.
  abbrev pub kept_if : Config F T → Option (Config F T)
  kept_if c = if ltb_ℤ (pos 0) c.allocated_replica then some c else none

module _ {F T : Type 0} ⦃f : Float F⦄ ⦃a : AllocationTypes T⦄ where
  -- The literal of `createdGPU`; the fields that it leaves out have their zero values.
  unfoldable pub created_gpu : GpuInfo F T → ProvisionedGpu → GpuInfo F T
  unfolding new_shelf
  created_gpu g p = record {
    virtual = true;
    profile_id = g.profile_id;
    sm_count = pos 0;
    allocation_type = a.unset;
    gpu_type = g.gpu_type;
    uuid = p.uuid;
    total_memory = p.memory_bytes;
    name = "";
    parent_uuid = p.parent_uuid;
    total_sm_percentage = g.total_sm_percentage;
    node_name = g.node_name;
    usage = new_shelf g.total_sm_percentage;
    sm_allocation_granularity = pos 5;
    usage_memory = pos 0;
    cost_per_second = g.cost_per_second;
  }

  abbrev pub use_mps : ResourceRequest F T → Bool
  use_mps req = a.same req.allocation_type a.fast_pod || a.same req.allocation_type a.mps

  module _ {W C : Type 0} where
    -- The end of the loop's body: the allocation, whose error is only logged.
    unfoldable pub commit : Config F T → ℕ → Site W C F T → Site W C F T × Option (Config F T)
    unfolding allocate_and_commit_config
    commit c address site = elim (get_elem? site.heap address) [
      | none ↦ (site, none)
      | some g ↦
          let (g', c', done) =
            allocate_and_commit_config g
              (record c { associated_gpu = address; vgpu_uuid = g.uuid }) in
          (record site { heap = set site.heap address g' }, kept_if c')
    ]

    -- A physical GPU that the node does not list yet.
    unfoldable pub list_gpu : Config F T → GpuInfo F T → Site W C F T → Site W C F T
    unfolding adjust
    list_gpu c g site = record site {
      nodes = adjust g.node_name (attach g.uuid c.associated_gpu) site.nodes;
    }

    -- The node after it has provided a virtual GPU.
    unfoldable pub provide : GpuInfo F T → Provision → Site W C F T → Site W C F T
    unfolding adjust created_gpu
    provide g p site =
        let gpu = created_gpu g p.gpu in
        record site {
          nodes =
              adjust g.node_name (λ n. attach gpu.uuid (length site.heap) (offer p.available n))
                site.nodes;
          heap = site.heap ++ (gpu ∷ []);
        }

    -- The answer to the request for a virtual GPU; `none` is the error of the call.
    unfoldable pub add_virtual :
        Config F T
        → GpuInfo F T
        → Site W C F T
        → Option Provision
        → Site W C F T × Option (Config F T)
    unfolding commit provide
    add_virtual c g site none = (site, none)
    add_virtual c g site (some p) = commit c (length site.heap) (provide g p site)

    -- The branches on whether the node lists the GPU and on whether the GPU is virtual.
    unfoldable pub obtain :
        Requester W C
        → ResourceRequest F T
        → Config F T
        → GpuInfo F T
        → Node C VirtualGpu
        → Option ℕ
        → Site W C F T
        → Site W C F T × Option (Config F T)
    unfolding commit list_gpu add_virtual
    obtain request req c g node (some address) site = commit c address site
    obtain request req c g node none site =
        let (world', answer) = request site.world node.grpc_client (use_mps req) g.profile_id in
        if g.virtual
        then add_virtual c g (record site { world = world' }) answer
        else commit c c.associated_gpu (list_gpu c g site)

    -- The body of the loop; `none` is a configuration that is left out.
    unfoldable pub prepare :
        Requester W C
        → ResourceRequest F T
        → Config F T
        → Site W C F T
        → Site W C F T × Option (Config F T)
    unfolding obtain lookup
    prepare request req c site = elim (get_elem? site.heap c.associated_gpu) [
      | none ↦ (site, none)
      | some g ↦ elim (lookup g.node_name site.nodes) [
        | none ↦ (site, none)
        | some node ↦ obtain request req c g node (lookup g.uuid node.physical_gpus) site
      ]
    ]

    -- `PrepareConfigsRequirements`
    unfoldable pub prepare_configs_requirements :
        Requester W C
        → ResourceRequest F T
        → List (Config F T)
        → Site W C F T
        → Site W C F T × List (Config F T)
    unfolding prepare
    prepare_configs_requirements request req [] site = (site, [])
    prepare_configs_requirements request req (c ∷ cs) site =
        let (site', kept) = prepare request req c site in
        let (site'', rest) = prepare_configs_requirements request req cs site' in
        (site'', keep kept rest)
