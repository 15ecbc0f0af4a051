-- ===== src/Select/Sound.antt =====
-- The GPUs that `GetConfigs` of internal/controller/config_finder.go adds to the heap, and the shares of SMs that
-- the nodes offer.
use fa_st_gshare_autoscaler.Gpu.Valid.{AreSound, IsSound}
use fa_st_gshare_autoscaler.Select.Pick.{get_configs, select_configs}
use fa_st_gshare_autoscaler.Select.{
  Heap, ProvisionedGpu, VirtualGpu, extract_gpus, find_or_new, gather_gpus, provisioned,
}
use fa_st_gshare_autoscaler.Finder.{ResourceRequest}
use fa_st_gshare_autoscaler.Nodes.{Node, NodeStatus, Nodes, adjust, not_ready, ready}
use fa_st_gshare_autoscaler.Profiling.{QpsStore}
use fa_st_gshare_autoscaler.Gpu.{AllocationTypes, get_model_memory, new_gpu_dev_info}
use fa_st_gshare_autoscaler.Shelf.Invariant.{new_shelf-IsValid}
use fa_st_gshare_autoscaler.Shelf.{new_shelf}
use fa_st_gshare_autoscaler.Common.{
  string_eq, All, All-append, Bool, Float, GoMap, InRange, List, Option, Option-cases, String, [],
  arith, false, if_cases, inl, inr, lookup, none, pos, refl, some, true, ℕ, ℤ, ◌+◌, ◌<◌, ◌==◌, ◌^◌,
  ◌∷◌, ◌≡◌, ◌⊎◌,
}

-- The share of SMs of each virtual GPU is an int64.
abbrev pub AreInRange : List VirtualGpu → Type 0
AreInRange gpus = All (λ v. InRange v.sm_percentage) gpus

pub NodeStatus-cases : (s : NodeStatus) → (s ≡ not_ready) ⊎ (s ≡ ready)
NodeStatus-cases not_ready = inl refl
NodeStatus-cases ready = inr refl

module _ {C : Type 0} where
  -- The same for what each node offers.
  abbrev pub OffersInRange : Nodes C VirtualGpu → Type 0
  OffersInRange nodes = All (λ e. AreInRange e.1.available_gpus) nodes

  -- A change of a node that keeps its offer in range.
  pub OffersInRange-adjust :
      (name : String) (change : Node C VirtualGpu → Node C VirtualGpu) (nodes : Nodes C VirtualGpu)
      → ((n : Node C VirtualGpu)
          → AreInRange n.available_gpus
          → AreInRange (change n).available_gpus)
      → OffersInRange nodes
      → OffersInRange (adjust name change nodes)
  unfolding adjust
  OffersInRange-adjust name change [] keeps h = tt
  OffersInRange-adjust name change ((k, n) ∷ rest) keeps (p, h) =
      if_cases OffersInRange (k == name) _ _ (keeps n p, h)
        (p, OffersInRange-adjust name change rest keeps h)

module _ {F T : Type 0} ⦃f : Float F⦄ ⦃a : AllocationTypes T⦄ (n : ℕ) (few : 1 + n < 2 ^ 63) where
  -- A GPU that is made by `NewGPUDevInfo`.
  new_gpu-IsSound :
      (node_name gpu_type : String) (virtual : Bool) (profile : Option ℕ) (uuid : String)
      (memory sm granularity : ℤ)
      → InRange sm
      → IsSound {F = F} {T = T} n
          (new_gpu_dev_info node_name gpu_type virtual profile uuid memory sm granularity)
  unfolding new_gpu_dev_info new_shelf
  new_gpu-IsSound node_name gpu_type virtual profile uuid memory sm granularity range = record {
    packer = record { valid = new_shelf-IsValid sm range; ids = omega arith };
    range = range;
  }

  find_or_new-AreSound :
      (node_name : String) (known : GoMap String ℕ) (v : VirtualGpu) (o : Option ProvisionedGpu)
      (heap : Heap F T)
      → InRange v.sm_percentage
      → AreSound n heap
      → AreSound n (find_or_new node_name known v o heap).0
  unfolding find_or_new
  find_or_new-AreSound node_name known v none heap range h =
      All-append (IsSound n) heap (_ ∷ []) h (
        new_gpu-IsSound node_name v.physical_gpu_type true v.profile_id v.id v.memory_bytes
            v.sm_percentage (pos 10) range,
        tt,
      )
  find_or_new-AreSound node_name known v (some p) heap range h =
      elim (Option-cases (lookup p.uuid known)) [
        | inr (address, e) ↦ rw (e, find_or_new) h
        | inl e ↦
            rw (e, find_or_new)
              (All-append (IsSound n) heap (_ ∷ []) h (
                new_gpu-IsSound node_name v.physical_gpu_type false none p.uuid p.memory_bytes
                    v.sm_percentage (pos 5) range,
                tt,
              ))
      ]

  extract_gpus-AreSound :
      (node_name : String) (known : GoMap String ℕ) (vs : List VirtualGpu) (heap : Heap F T)
      → AreInRange vs
      → AreSound n heap
      → AreSound n (extract_gpus node_name known vs heap).0
  unfolding extract_gpus
  extract_gpus-AreSound node_name known [] heap range h = h
  extract_gpus-AreSound node_name known (v ∷ vs) heap (r, range) h =
      extract_gpus-AreSound node_name known vs _ range
        (find_or_new-AreSound node_name known v (provisioned v) heap r h)

  gather_gpus-AreSound :
      {C : Type 0} (nodes : Nodes C VirtualGpu) (heap : Heap F T)
      → OffersInRange nodes
      → AreSound n heap
      → AreSound n (gather_gpus nodes heap).0
  unfolding gather_gpus
  gather_gpus-AreSound [] heap range h = h
  gather_gpus-AreSound ((name, node) ∷ rest) heap (r, range) h =
      elim (NodeStatus-cases node.status) [
        | inl e ↦ rw (e, gather_gpus) (gather_gpus-AreSound rest heap range h)
        | inr e ↦
            rw (e, gather_gpus)
              (gather_gpus-AreSound rest _ range (
                extract_gpus-AreSound node.node_name node.physical_gpus node.available_gpus heap r
                  h))
      ]

  -- GetConfigs only adds GPUs to the heap.
  pub get_configs-AreSound :
      {C : Type 0} (sort : (ℕ → ℕ → Bool) → List ℕ → List ℕ) (new_uuid : ℕ → String)
      (store : QpsStore F) (nodes : Nodes C VirtualGpu) (req : ResourceRequest F T)
      (heap : Heap F T) (drawn : ℕ)
      → OffersInRange nodes
      → AreSound n heap
      → AreSound n (get_configs sort new_uuid store nodes req heap drawn).0
  unfolding get_configs select_configs
  get_configs-AreSound sort new_uuid store nodes req heap drawn range h =
      elim (Option-cases (get_model_memory req.model_name)) [
        | inl e ↦ rw (e, get_configs) h
        | inr (memory, e) ↦ rw (e, get_configs) (gather_gpus-AreSound nodes heap range h)
      ]
