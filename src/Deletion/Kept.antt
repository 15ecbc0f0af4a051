-- ===== src/Deletion/Kept.antt =====
-- Which items `handleDeletedFaSTFunc` of internal/controller/fastfunc_controller.go takes from the GPUs.
use fa_st_gshare_autoscaler.Gpu.Allocated.{IsAllocated}
use fa_st_gshare_autoscaler.Gpu.Takes.{
  IsCleared, IsCleared-absent, IsCleared-set, Takes, Takes-clear, Takes-nothing, TakesOne,
  TakesOne-nothing, TakesOne-set,
}
use fa_st_gshare_autoscaler.Gpu.Items.{Emptied-Loses}
use fa_st_gshare_autoscaler.Gpu.Valid.{AreSound, AreSound-get}
use fa_st_gshare_autoscaler.Deletion.Freed.{free_config-AreSound}
use fa_st_gshare_autoscaler.Deletion.{free_config, free_configs, handle_deleted}
use fa_st_gshare_autoscaler.Functions.{FastFunc, Scheduled, State, current_configs}
use fa_st_gshare_autoscaler.Select.{Heap}
use fa_st_gshare_autoscaler.Gpu.Memory.{reduce_lem}
use fa_st_gshare_autoscaler.Gpu.Removal.{Emptied}
use fa_st_gshare_autoscaler.Gpu.{Config, GpuInfo, reduce_config}
use fa_st_gshare_autoscaler.Shelf.Invariant.{IsValid}
use fa_st_gshare_autoscaler.Common.{
  int_eq, nat_eq, string_eq, All, Float, List, Option-cases, String, [], ap, arith, get_elem?, inl,
  inr, length, lookup, lookup-delete_ne, lookup-delete_self, none, pos, pos_part, refl, some, subst,
  suc, take, zero, ℕ, ◌-◌, ◌∷◌, ◌≡◌, ◌≢◌, ◌≤◌,
}

take_all {ℓ} : {A : Type ℓ} (k : ℕ) (xs : List A) → length xs ≤ k → take k xs ≡ xs
take_all zero [] h = refl
take_all zero (x ∷ xs) h = absurd (omega (arith, h))
take_all (suc k) [] h = refl
take_all (suc k) (x ∷ xs) h = ap (λ ys. x ∷ ys) (take_all k xs (omega (arith, h)))

module _ {F T : Type 0} ⦃f : Float F⦄ where
  reduce_config-Emptied :
      (g : GpuInfo F T) (c : Config F T)
      → IsValid g.usage
      → IsAllocated c
      → Emptied c.shelf_items g.usage (reduce_config g c (pos 0)).0.usage
  reduce_config-Emptied g c v al =
      subst (λ es. Emptied es g.usage (reduce_config g c (pos 0)).0.usage)
        (take_all (pos_part c.allocated_replica - 0) c.shelf_items (omega (arith, al.items)))
        (reduce_lem g c (pos 0) v (omega arith) al.some_replica al.few).0

  free_config-Takes :
      (c : Config F T) (acc : Heap F T × List Scheduled)
      → AreSound 0 acc.0
      → IsAllocated c
      → TakesOne c acc.0 (free_config c acc).0 × IsCleared c (free_config c acc).0
  unfolding free_config
  free_config-Takes c (heap, scheduled) s al =
      elim (Option-cases (get_elem? heap c.associated_gpu)) [
        | inl e ↦ rw (e, free_config) (TakesOne-nothing c heap, IsCleared-absent c heap e)
        | inr (g, e) ↦
            let g' = (reduce_config g c (pos 0)).0 in
            let m =
              reduce_config-Emptied g c (AreSound-get 0 heap c.associated_gpu g s e).packer.valid
                al in
            rw (e, free_config)
              (
                TakesOne-set c heap g g' e (Emptied-Loses c.shelf_items g.usage g'.usage m),
                IsCleared-set c heap g g' e m,
              )
      ]

  pub free_configs-Takes :
      (cs : List (Config F T)) (acc : Heap F T × List Scheduled)
      → AreSound 0 acc.0
      → All IsAllocated cs
      → Takes cs cs acc.0 (free_configs cs acc).0
  unfolding free_configs
  free_configs-Takes [] acc s al = Takes-nothing acc.0
  free_configs-Takes (c ∷ cs) acc s (al, als) =
      let (first, cleared) = free_config-Takes c acc s al in
      Takes-clear first
        (free_configs-Takes cs (free_config c acc) (free_config-AreSound 0 c acc s) als) cleared

-- The state after a function is deleted.
module _ {W C F T : Type 0} ⦃f : Float F⦄ where
  pub record Deleted (name : String) (fn : FastFunc F T) (st st' : State W C F T) : Type 0 where
    pub frees : Takes (current_configs fn) (current_configs fn) st.site.heap st'.site.heap
    pub forgotten : lookup name st'.functions ≡ none
    pub others : (j : String) → name ≢ j → lookup j st'.functions ≡ lookup j st.functions

  -- When a known function is deleted, whose configurations are allocated (each with at least one
  -- replica and at most that many items) and all packers are valid, then the items of each
  -- configuration are gone from its GPU, every item that no configuration of the function owns
  -- stays where it is, the function is forgotten, and every other function keeps its entry.
  pub handle_deleted-Deleted :
      (name : String) (fn : FastFunc F T) (st : State W C F T)
      → lookup name st.functions ≡ some fn
      → All IsAllocated (current_configs fn)
      → AreSound 0 st.site.heap
      → Deleted name fn st (handle_deleted name st)
  unfolding handle_deleted
  handle_deleted-Deleted name fn st e al s =
      rw (e, handle_deleted)
        (record {
          frees = free_configs-Takes (current_configs fn) (st.site.heap, st.scheduled) s al;
          forgotten = lookup-delete_self name st.functions;
          others = λ j ne. lookup-delete_ne name j st.functions ne;
        })
