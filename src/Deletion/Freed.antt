-- ===== src/Deletion/Freed.antt =====
-- What `handleDeletedFaSTFunc` of internal/controller/fastfunc_controller.go leaves of the GPUs.
use fa_st_gshare_autoscaler.Gpu.Owned.{Apart, IsHeld, IsHeld-TakesOne}
use fa_st_gshare_autoscaler.Gpu.Takes.{TakesOne, TakesOne-nothing, TakesOne-set}
use fa_st_gshare_autoscaler.Gpu.Items.{reduce_config-Loses}
use fa_st_gshare_autoscaler.Gpu.Valid.{AreSound, AreSound-get, AreSound-set, IsSound-reduce_config}
use fa_st_gshare_autoscaler.Prepare.Sound.{IsHealthy}
use fa_st_gshare_autoscaler.Deletion.{free_config, free_configs, handle_deleted}
use fa_st_gshare_autoscaler.Functions.{Scheduled, State, current_configs}
use fa_st_gshare_autoscaler.Select.{Heap}
use fa_st_gshare_autoscaler.Gpu.{AllocationTypes, Config}
use fa_st_gshare_autoscaler.Common.{
  int_eq, string_eq, All, Float, List, Option-cases, String, [], get_elem?, inl, inr, lookup, pos,
  ℕ, ◌∷◌,
}

module _ {F T : Type 0} ⦃f : Float F⦄ where
  pub free_config-AreSound :
      (n : ℕ) (c : Config F T) (acc : Heap F T × List Scheduled)
      → AreSound n acc.0
      → AreSound n (free_config c acc).0
  unfolding free_config
  free_config-AreSound n c (heap, scheduled) h =
      elim (Option-cases (get_elem? heap c.associated_gpu)) [
        | inl e ↦ rw (e, free_config) h
        | inr (g, e) ↦
            rw (e, free_config)
              (AreSound-set n heap c.associated_gpu _ h
                (IsSound-reduce_config n g c (pos 0) (AreSound-get n heap c.associated_gpu g h e)))
      ]

  free_configs-AreSound :
      (n : ℕ) (cs : List (Config F T)) (acc : Heap F T × List Scheduled)
      → AreSound n acc.0
      → AreSound n (free_configs cs acc).0
  unfolding free_configs
  free_configs-AreSound n [] acc h = h
  free_configs-AreSound n (c ∷ cs) acc h =
      free_configs-AreSound n cs (free_config c acc) (free_config-AreSound n c acc h)

  free_config-TakesOne :
      (c : Config F T) (acc : Heap F T × List Scheduled)
      → AreSound 0 acc.0
      → TakesOne c acc.0 (free_config c acc).0
  unfolding free_config
  free_config-TakesOne c (heap, scheduled) s =
      elim (Option-cases (get_elem? heap c.associated_gpu)) [
        | inl e ↦ rw (e, free_config) (TakesOne-nothing c heap)
        | inr (g, e) ↦
            rw (e, free_config)
              (TakesOne-set c heap g _ e (
                reduce_config-Loses g c (pos 0)
                  (AreSound-get 0 heap c.associated_gpu g s e).packer.valid))
      ]

  -- A configuration that shares no item with those freed keeps its own.
  pub free_configs-IsHeld :
      (cs : List (Config F T)) (acc : Heap F T × List Scheduled) (d : Config F T)
      → AreSound 0 acc.0
      → All (λ c. Apart c d) cs
      → IsHeld acc.0 d
      → IsHeld (free_configs cs acc).0 d
  unfolding free_configs
  free_configs-IsHeld [] acc d s apart h = h
  free_configs-IsHeld (c ∷ cs) acc d s (p, apart) h =
      let acc' = free_config c acc in
      free_configs-IsHeld cs acc' d (free_config-AreSound 0 c acc s) apart
        (IsHeld-TakesOne acc.0 acc'.0 c d (free_config-TakesOne c acc s) p h)

module _ {W C F T : Type 0} ⦃f : Float F⦄ ⦃a : AllocationTypes T⦄ where
  pub handle_deleted-IsHealthy :
      (n : ℕ) (name : String) (st : State W C F T)
      → IsHealthy n st.site
      → IsHealthy n (handle_deleted name st).site
  unfolding handle_deleted
  handle_deleted-IsHealthy n name st h = elim (Option-cases (lookup name st.functions)) [
    | inl e ↦ rw (e, handle_deleted) h
    | inr (fn, e) ↦
        rw (e, handle_deleted)
          (record {
            gpus = free_configs-AreSound n (current_configs fn) (st.site.heap, st.scheduled) h.gpus;
            offers = h.offers;
          })
  ]
