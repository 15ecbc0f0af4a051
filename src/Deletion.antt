-- ===== src/Deletion.antt =====
-- internal/controller/fastfunc_controller.go, `handleDeletedFaSTFunc`: the GPUs are freed of the
-- configurations of a function that is deleted.
use fa_st_gshare_autoscaler.Functions.{Scheduled, State, current_configs, schedule_if, with_heap}
use fa_st_gshare_autoscaler.Select.{Heap}
use fa_st_gshare_autoscaler.Gpu.{Config, reduce_config}
use fa_st_gshare_autoscaler.Common.{
  string_eq, int_eq, Float, List, String, [], delete, get_elem?, lookup, none, pos, set, some, ◌&&◌,
  ◌∷◌,
}
pub mod Freed
pub mod Kept

module _ {F T : Type 0} ⦃f : Float F⦄ where
  -- The body of the loop: the heap and the deletions scheduled.
  unfoldable pub free_config : Config F T → Heap F T × List Scheduled → Heap F T × List Scheduled
  unfolding reduce_config
  free_config c (heap, scheduled) = elim (get_elem? heap c.associated_gpu) [
    | none ↦ (heap, scheduled)
    | some g ↦
        let (g', c', empty) = reduce_config g c (pos 0) in
        (set heap c.associated_gpu g', schedule_if (empty && g'.virtual) g' scheduled)
  ]

  -- The loop over the configurations.
  unfoldable pub free_configs :
      List (Config F T) → Heap F T × List Scheduled → Heap F T × List Scheduled
  unfolding free_config
  free_configs [] acc = acc
  free_configs (c ∷ cs) acc = free_configs cs (free_config c acc)

module _ {W C F T : Type 0} ⦃f : Float F⦄ where
  -- `handleDeletedFaSTFunc`; an unknown function changes nothing.
  unfoldable pub handle_deleted : String → State W C F T → State W C F T
  unfolding free_configs lookup delete current_configs
  handle_deleted name st = elim (lookup name st.functions) [
    | none ↦ st
    | some fn ↦
        let (heap', scheduled') = free_configs (current_configs fn) (st.site.heap, st.scheduled) in
        record (with_heap heap' st) { functions = delete name st.functions; scheduled = scheduled' }
  ]
