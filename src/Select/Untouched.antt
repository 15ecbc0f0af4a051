-- ===== src/Select/Untouched.antt =====
-- `GetConfigs` of internal/controller/config_finder.go leaves the items that are on the GPUs.
use fa_st_gshare_autoscaler.Select.Pick.{get_configs, select_configs}
use fa_st_gshare_autoscaler.Select.Sound.{NodeStatus-cases}
use fa_st_gshare_autoscaler.Gpu.Keeps.{KeepsAll, KeepsAll-append, KeepsAll-trans}
use fa_st_gshare_autoscaler.Select.{
  Heap, ProvisionedGpu, VirtualGpu, extract_gpus, find_or_new, gather_gpus, provisioned,
}
use fa_st_gshare_autoscaler.Finder.{ResourceRequest}
use fa_st_gshare_autoscaler.Nodes.{Nodes}
use fa_st_gshare_autoscaler.Profiling.{QpsStore}
use fa_st_gshare_autoscaler.Gpu.{AllocationTypes, get_model_memory}
use fa_st_gshare_autoscaler.Common.{
  string_eq, Bool, Float, GoMap, List, Option, Option-cases, String, [], inl, inr, lookup, none,
  some, ℕ, ◌∷◌,
}

module _ {F T : Type 0} ⦃f : Float F⦄ ⦃a : AllocationTypes T⦄ where
  find_or_new-KeepsAll :
      (node_name : String) (known : GoMap String ℕ) (v : VirtualGpu) (o : Option ProvisionedGpu)
      (heap : Heap F T)
      → KeepsAll heap (find_or_new node_name known v o heap).0
  unfolding find_or_new
  find_or_new-KeepsAll node_name known v none heap = KeepsAll-append heap (_ ∷ [])
  find_or_new-KeepsAll node_name known v (some p) heap = elim (Option-cases (lookup p.uuid known)) [
    | inr (address, e) ↦ rw (e, find_or_new) (λ i id it q. q)
    | inl e ↦ rw (e, find_or_new) (KeepsAll-append heap (_ ∷ []))
  ]

  extract_gpus-KeepsAll :
      (node_name : String) (known : GoMap String ℕ) (vs : List VirtualGpu) (heap : Heap F T)
      → KeepsAll heap (extract_gpus node_name known vs heap).0
  unfolding extract_gpus
  extract_gpus-KeepsAll node_name known [] heap = λ i id it p. p
  extract_gpus-KeepsAll node_name known (v ∷ vs) heap =
      let heap' = (find_or_new node_name known v (provisioned v) heap).0 in
      KeepsAll-trans heap heap' (extract_gpus node_name known vs heap').0
        (find_or_new-KeepsAll node_name known v (provisioned v) heap)
        (extract_gpus-KeepsAll node_name known vs heap')

  gather_gpus-KeepsAll :
      {C : Type 0} (nodes : Nodes C VirtualGpu) (heap : Heap F T)
      → KeepsAll heap (gather_gpus nodes heap).0
  unfolding gather_gpus
  gather_gpus-KeepsAll [] heap = λ i id it p. p
  gather_gpus-KeepsAll ((name, node) ∷ rest) heap =
      let heap' = (extract_gpus node.node_name node.physical_gpus node.available_gpus heap).0 in
      elim (NodeStatus-cases node.status) [
        | inl e ↦ rw (e, gather_gpus) (gather_gpus-KeepsAll rest heap)
        | inr e ↦
            rw (e, gather_gpus)
              (KeepsAll-trans heap heap' (gather_gpus rest heap').0
                (extract_gpus-KeepsAll node.node_name node.physical_gpus node.available_gpus heap)
                (gather_gpus-KeepsAll rest heap'))
      ]

  pub get_configs-KeepsAll :
      {C : Type 0} (sort : (ℕ → ℕ → Bool) → List ℕ → List ℕ) (new_uuid : ℕ → String)
      (store : QpsStore F) (nodes : Nodes C VirtualGpu) (req : ResourceRequest F T)
      (heap : Heap F T) (drawn : ℕ)
      → KeepsAll heap (get_configs sort new_uuid store nodes req heap drawn).0
  unfolding get_configs select_configs
  get_configs-KeepsAll sort new_uuid store nodes req heap drawn =
      elim (Option-cases (get_model_memory req.model_name)) [
        | inl e ↦ rw (e, get_configs) (λ i id it p. p)
        | inr (memory, e) ↦ rw (e, get_configs) (gather_gpus-KeepsAll nodes heap)
      ]
