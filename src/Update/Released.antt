-- ===== src/Update/Released.antt =====
-- Which items a scale-down of `UpdateFunction` (internal/controller/fastfunc_scale.go) takes from the GPUs.
use fa_st_gshare_autoscaler.Update.Bookkeeping.{apply_reduction-AreSound, apply_removal-AreSound}
use fa_st_gshare_autoscaler.Gpu.Takes.{
  IsCleared, IsCleared-absent, IsCleared-set, Takes, Takes-clear, Takes-nothing, Takes-touch,
  TakesOne, TakesOne-nothing, TakesOne-set,
}
use fa_st_gshare_autoscaler.Gpu.Items.{Emptied-Loses, reduce_config-Loses}
use fa_st_gshare_autoscaler.Gpu.Valid.{AreSound, AreSound-get}
use fa_st_gshare_autoscaler.Update.{
  Accounts, Backend, apply_reduction, apply_reductions, apply_removal, apply_removals,
  scale_down_fast_func, shrink_function,
}
use fa_st_gshare_autoscaler.Functions.{FastFunc, State}
use fa_st_gshare_autoscaler.Scale.{ReduceInfo}
use fa_st_gshare_autoscaler.Gpu.Memory.{deallocate_lem}
use fa_st_gshare_autoscaler.Gpu.{Config, deallocate_config}
use fa_st_gshare_autoscaler.Common.{int_eq, Float, List, Option-cases, [], get_elem?, inl, inr, ◌∷◌}

module _ {F T : Type 0} where
  -- The configurations reduced before others are removed.
  abbrev pub reduced_then : List (ReduceInfo F T) → List (Config F T) → List (Config F T)
  reduced_then [] cs = cs
  reduced_then (info ∷ infos) cs = info.config ∷ reduced_then infos cs

module _ {F T : Type 0} ⦃f : Float F⦄ where
  pub apply_reduction-Takes :
      (info : ReduceInfo F T) (acc : Accounts F T)
      → AreSound 0 acc.heap
      → TakesOne info.config acc.heap (apply_reduction info acc).heap
  unfolding apply_reduction
  apply_reduction-Takes info acc s =
      elim (Option-cases (get_elem? acc.heap info.config.associated_gpu)) [
        | inl e ↦ rw (e, apply_reduction) (TakesOne-nothing info.config acc.heap)
        | inr (g, e) ↦
            rw (e, apply_reduction)
              (TakesOne-set info.config acc.heap g _ e (
                reduce_config-Loses g info.config info.new_replica
                  (AreSound-get 0 acc.heap info.config.associated_gpu g s e).packer.valid))
      ]

  pub apply_removal-Takes :
      (c : Config F T) (acc : Accounts F T)
      → AreSound 0 acc.heap
      → TakesOne c acc.heap (apply_removal c acc).heap × IsCleared c (apply_removal c acc).heap
  unfolding apply_removal
  apply_removal-Takes c acc s = elim (Option-cases (get_elem? acc.heap c.associated_gpu)) [
    | inl e ↦ rw (e, apply_removal) (TakesOne-nothing c acc.heap, IsCleared-absent c acc.heap e)
    | inr (g, e) ↦
        let g' = (deallocate_config g c).0 in
        let m =
          (deallocate_lem g c (AreSound-get 0 acc.heap c.associated_gpu g s e).packer.valid).0 in
        rw (e, apply_removal)
          (
            TakesOne-set c acc.heap g g' e (Emptied-Loses c.shelf_items g.usage g'.usage m),
            IsCleared-set c acc.heap g g' e m,
          )
  ]

  apply_removals-Takes :
      (cs : List (Config F T)) (acc : Accounts F T)
      → AreSound 0 acc.heap
      → Takes cs cs acc.heap (apply_removals cs acc).heap
  unfolding apply_removals
  apply_removals-Takes [] acc s = Takes-nothing acc.heap
  apply_removals-Takes (c ∷ cs) acc s =
      let (first, cleared) = apply_removal-Takes c acc s in
      Takes-clear first
        (apply_removals-Takes cs (apply_removal c acc) (apply_removal-AreSound 0 c acc s)) cleared

  accounts-Takes :
      (infos : List (ReduceInfo F T)) (cs : List (Config F T)) (acc : Accounts F T)
      → AreSound 0 acc.heap
      → Takes cs
          (reduced_then infos cs)
          acc.heap
          (apply_removals cs (apply_reductions infos acc)).heap
  unfolding apply_reductions
  accounts-Takes [] cs acc s = apply_removals-Takes cs acc s
  accounts-Takes (info ∷ infos) cs acc s =
      Takes-touch (apply_reduction-Takes info acc s)
        (accounts-Takes infos cs (apply_reduction info acc) (apply_reduction-AreSound 0 info acc s))

module _ {W C S F T : Type 0} ⦃f : Float F⦄ (b : Backend W C S F T) where
  -- When UpdateFunction scales a function down on GPUs whose packers are valid, whatever the
  -- cluster answers, all items of the configurations removed are gone from their GPUs, every
  -- item that belongs to no configuration reduced or removed stays where it is, and no id that
  -- named nothing names an item.
  pub shrink_function-Takes :
      (fn : FastFunc F T) (new_rps : F) (st : State W C F T)
      → AreSound 0 st.site.heap
      → Takes
          (scale_down_fast_func b fn new_rps st.site.world).2
          (reduced_then
            (scale_down_fast_func b fn new_rps st.site.world).1
            (scale_down_fast_func b fn new_rps st.site.world).2)
          st.site.heap
          (shrink_function b fn new_rps st).site.heap
  unfolding shrink_function
  shrink_function-Takes fn new_rps st s =
      let (w', reduced, removed) = scale_down_fast_func b fn new_rps st.site.world in
      accounts-Takes reduced removed
        (record { fn = fn; heap = st.site.heap; scheduled = st.scheduled }) s
