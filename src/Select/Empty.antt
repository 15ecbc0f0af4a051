-- ===== src/Select/Empty.antt =====
-- `GetConfigs` of internal/controller/config_finder.go puts no item on a GPU: those that it meets for the first time
-- are empty.
use fa_st_gshare_autoscaler.Select.Pick.{get_configs, select_configs}
use fa_st_gshare_autoscaler.Select.Sound.{NodeStatus-cases}
use fa_st_gshare_autoscaler.Gpu.Allocated.{find-new_shelf, item_on-append}
use fa_st_gshare_autoscaler.Gpu.Items.{item_on}
use fa_st_gshare_autoscaler.Select.{
  Heap, ProvisionedGpu, VirtualGpu, extract_gpus, find_or_new, gather_gpus, provisioned,
}
use fa_st_gshare_autoscaler.Finder.{ResourceRequest}
use fa_st_gshare_autoscaler.Nodes.{Nodes}
use fa_st_gshare_autoscaler.Profiling.{QpsStore}
use fa_st_gshare_autoscaler.Gpu.{AllocationTypes, GpuInfo, get_model_memory, new_gpu_dev_info}
use fa_st_gshare_autoscaler.Common.{
  string_eq, Bool, Float, GoMap, List, Option, Option-cases, String, [], inl, inr, lookup, none,
  some, ℕ, ℤ, ◌∷◌, ◌≡◌,
}

module _ {F T : Type 0} where
  -- What was free stays free.
  abbrev pub AddsNone : List (GpuInfo F T) → List (GpuInfo F T) → Type 0
  AddsNone heap heap' = (i : ℕ) (id : ℤ) → item_on heap i id ≡ none → item_on heap' i id ≡ none

module _ {F T : Type 0} ⦃f : Float F⦄ ⦃a : AllocationTypes T⦄ where
  find_or_new-AddsNone :
      (node_name : String) (known : GoMap String ℕ) (v : VirtualGpu) (o : Option ProvisionedGpu)
      (heap : Heap F T)
      → AddsNone heap (find_or_new node_name known v o heap).0
  unfolding find_or_new new_gpu_dev_info
  find_or_new-AddsNone node_name known v none heap i id =
      item_on-append heap _ i id (find-new_shelf v.sm_percentage id)
  find_or_new-AddsNone node_name known v (some p) heap i id =
      elim (Option-cases (lookup p.uuid known)) [
        | inr (address, e) ↦ rw (e, find_or_new) (λ q. q)
        | inl e ↦
            rw (e, find_or_new) (item_on-append heap _ i id (find-new_shelf v.sm_percentage id))
      ]

  extract_gpus-AddsNone :
      (node_name : String) (known : GoMap String ℕ) (vs : List VirtualGpu) (heap : Heap F T)
      → AddsNone heap (extract_gpus node_name known vs heap).0
  unfolding extract_gpus
  extract_gpus-AddsNone node_name known [] heap i id p = p
  extract_gpus-AddsNone node_name known (v ∷ vs) heap i id p =
      extract_gpus-AddsNone node_name known vs
        (find_or_new node_name known v (provisioned v) heap).0 i id
        (find_or_new-AddsNone node_name known v (provisioned v) heap i id p)

  gather_gpus-AddsNone :
      {C : Type 0} (nodes : Nodes C VirtualGpu) (heap : Heap F T)
      → AddsNone heap (gather_gpus nodes heap).0
  unfolding gather_gpus
  gather_gpus-AddsNone [] heap = λ i id p. p
  gather_gpus-AddsNone ((name, node) ∷ rest) heap =
      let heap' = (extract_gpus node.node_name node.physical_gpus node.available_gpus heap).0 in
      elim (NodeStatus-cases node.status) [
        | inl e ↦ rw (e, gather_gpus) (gather_gpus-AddsNone rest heap)
        | inr e ↦
            rw (e, gather_gpus)
              (λ i id p. gather_gpus-AddsNone rest heap' i id (
                extract_gpus-AddsNone node.node_name node.physical_gpus node.available_gpus heap i
                  id p))
      ]

  pub get_configs-AddsNone :
      {C : Type 0} (sort : (ℕ → ℕ → Bool) → List ℕ → List ℕ) (new_uuid : ℕ → String)
      (store : QpsStore F) (nodes : Nodes C VirtualGpu) (req : ResourceRequest F T)
      (heap : Heap F T) (drawn : ℕ)
      → AddsNone heap (get_configs sort new_uuid store nodes req heap drawn).0
  unfolding get_configs select_configs
  get_configs-AddsNone sort new_uuid store nodes req heap drawn =
      elim (Option-cases (get_model_memory req.model_name)) [
        | inl e ↦ rw (e, get_configs) (λ i id p. p)
        | inr (memory, e) ↦ rw (e, get_configs) (gather_gpus-AddsNone nodes heap)
      ]
