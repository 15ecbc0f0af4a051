-- ===== src/Update/Bookkeeping.antt =====
-- What `UpdateFunction` of internal/controller/fastfunc_reconcile.go leaves of the packers of the GPUs.
use fa_st_gshare_autoscaler.Prepare.Sound.{
  AnswersInRange, IsHealthy, IsHealthy-weaken, prepare_configs-IsHealthy,
}
use fa_st_gshare_autoscaler.Select.Sound.{get_configs-AreSound}
use fa_st_gshare_autoscaler.Gpu.Valid.{
  AreSound, AreSound-get, AreSound-set, IsSound-deallocate_config, IsSound-reduce_config,
}
use fa_st_gshare_autoscaler.Update.{
  Accounts, Backend, act, apply_reduction, apply_reductions, apply_removal, apply_removals, demand,
  demanded, deploy, fast_pods, grow_function, reading, request_of, scale_down_fast_func, settle,
  shrink_function, update_function,
}
use fa_st_gshare_autoscaler.Functions.{FastFunc, State, current_configs, or_new, with_heap}
use fa_st_gshare_autoscaler.Pods.Spec.{cluster_of}
use fa_st_gshare_autoscaler.Pods.{add_fast_pods}
use fa_st_gshare_autoscaler.Api.{FastFuncObject}
use fa_st_gshare_autoscaler.Scale.{
  Action, ReduceInfo, decide, predicted_rate, scale_down, scale_up, stay,
}
use fa_st_gshare_autoscaler.Prepare.{prepare_configs_requirements}
use fa_st_gshare_autoscaler.Select.Pick.{get_configs}
use fa_st_gshare_autoscaler.Finder.{ResourceRequest}
use fa_st_gshare_autoscaler.Gpu.{AllocationTypes, Config}
use fa_st_gshare_autoscaler.Shelf.Invariant.{found}
use fa_st_gshare_autoscaler.Common.{
  int_eq, string_eq, Bool, Float, List, Option, Option-cases, String, [], arith, false, get_elem?,
  if_cases, inl, inr, length, lookup, ltb, none, some, true, ℕ, ◌+◌, ◌<◌, ◌^◌, ◌∷◌,
}

module _ {F T : Type 0} ⦃f : Float F⦄ where
  pub apply_reduction-AreSound :
      (n : ℕ) (info : ReduceInfo F T) (acc : Accounts F T)
      → AreSound n acc.heap
      → AreSound n (apply_reduction info acc).heap
  unfolding apply_reduction
  apply_reduction-AreSound n info acc h =
      elim (Option-cases (get_elem? acc.heap info.config.associated_gpu)) [
        | inl e ↦ rw (e, apply_reduction) h
        | inr (g, e) ↦
            rw (e, apply_reduction)
              (AreSound-set n acc.heap info.config.associated_gpu _ h (
                IsSound-reduce_config n g info.config info.new_replica
                  (AreSound-get n acc.heap info.config.associated_gpu g h e)))
      ]

  pub apply_reductions-AreSound :
      (n : ℕ) (infos : List (ReduceInfo F T)) (acc : Accounts F T)
      → AreSound n acc.heap
      → AreSound n (apply_reductions infos acc).heap
  unfolding apply_reductions
  apply_reductions-AreSound n [] acc h = h
  apply_reductions-AreSound n (info ∷ infos) acc h =
      apply_reductions-AreSound n infos (apply_reduction info acc)
        (apply_reduction-AreSound n info acc h)

  pub apply_removal-AreSound :
      (n : ℕ) (c : Config F T) (acc : Accounts F T)
      → AreSound n acc.heap
      → AreSound n (apply_removal c acc).heap
  unfolding apply_removal
  apply_removal-AreSound n c acc h = elim (Option-cases (get_elem? acc.heap c.associated_gpu)) [
    | inl e ↦ rw (e, apply_removal) h
    | inr (g, e) ↦
        rw (e, apply_removal)
          (AreSound-set n acc.heap c.associated_gpu _ h
            (IsSound-deallocate_config n g c (AreSound-get n acc.heap c.associated_gpu g h e)))
  ]

  apply_removals-AreSound :
      (n : ℕ) (cs : List (Config F T)) (acc : Accounts F T)
      → AreSound n acc.heap
      → AreSound n (apply_removals cs acc).heap
  unfolding apply_removals
  apply_removals-AreSound n [] acc h = h
  apply_removals-AreSound n (c ∷ cs) acc h =
      apply_removals-AreSound n cs (apply_removal c acc) (apply_removal-AreSound n c acc h)

module _ {W C S F T : Type 0} ⦃f : Float F⦄ (b : Backend W C S F T) where
  pub shrink_function-AreSound :
      (n : ℕ) (fn : FastFunc F T) (new_rps : F) (st : State W C F T)
      → AreSound n st.site.heap
      → AreSound n (shrink_function b fn new_rps st).site.heap
  unfolding shrink_function
  shrink_function-AreSound n fn new_rps st h =
      let (w', reduced, removed) = scale_down_fast_func b fn new_rps st.site.world in
      let start : Accounts F T = record {
        fn = fn;
        heap = st.site.heap;
        scheduled = st.scheduled;
      } in
      apply_removals-AreSound n removed (apply_reductions reduced start)
        (apply_reductions-AreSound n reduced start h)

module _ {W C S F T : Type 0} ⦃f : Float F⦄ ⦃a : AllocationTypes T⦄ (b : Backend W C S F T) where
  settle-IsHealthy :
      (n : ℕ) (fn : FastFunc F T) (cs : List (Config F T)) (st : State W C F T) (r : W × Bool)
      → IsHealthy n st.site
      → IsHealthy n (settle b fn cs st r).0.site
  unfolding settle
  settle-IsHealthy n fn cs st (w, true) h = record { gpus = h.gpus; offers = h.offers }
  settle-IsHealthy n fn cs st (w, false) h = record { gpus = h.gpus; offers = h.offers }

  deploy-IsHealthy :
      (n : ℕ) (obj : FastFuncObject S) (fn : FastFunc F T) (req : ResourceRequest F T)
      (o : Option (List (Config F T))) (st : State W C F T)
      → AnswersInRange b.request
      → 1 + (n + demanded b o) < 2 ^ 63
      → IsHealthy (n + demanded b o) st.site
      → IsHealthy n (deploy b obj fn req o st).0.site
  unfolding deploy
  deploy-IsHealthy n obj fn req none st answers few h =
      IsHealthy-weaken (n + 0) n st.site (omega arith) h
  deploy-IsHealthy n obj fn req (some cs) st answers few h =
      let (site', prepared) = prepare_configs_requirements b.request req cs st.site in
      settle-IsHealthy n fn prepared (record st { site = site' })
        (add_fast_pods (cluster_of b.kube) (fast_pods b obj prepared) site'.world)
        (prepare_configs-IsHealthy b.request n req cs st.site answers few h)

  grow_function-IsHealthy :
      (n : ℕ) (obj : FastFuncObject S) (fn : FastFunc F T) (req : ResourceRequest F T)
      (st : State W C F T)
      → AnswersInRange b.request
      → 1 + (n + demand b req st) < 2 ^ 63
      → IsHealthy (n + demand b req st) st.site
      → IsHealthy n (grow_function b obj fn req st).0.site
  unfolding grow_function
  grow_function-IsHealthy n obj fn req st answers few h =
      let (heap', found, drawn) =
        get_configs b.sort_gpus b.new_uuid b.store st.site.nodes req st.site.heap st.drawn in
      deploy-IsHealthy n obj fn req found (record (with_heap heap' st) { drawn = drawn }) answers
        few
        (record {
          gpus =
              get_configs-AreSound (n + demand b req st) few b.sort_gpus b.new_uuid b.store
                st.site.nodes req st.site.heap st.drawn h.offers h.gpus;
          offers = h.offers;
        })

  act-IsHealthy :
      (n : ℕ) (action : Action) (obj : FastFuncObject S) (fn : FastFunc F T)
      (req : ResourceRequest F T) (predicted : F) (st : State W C F T)
      → AnswersInRange b.request
      → 1 + (n + demand b req st) < 2 ^ 63
      → IsHealthy (n + demand b req st) st.site
      → IsHealthy n (act b action obj fn req predicted st).0.site
  unfolding act
  act-IsHealthy n scale_up obj fn req predicted st answers few h =
      grow_function-IsHealthy n obj fn req st answers few h
  act-IsHealthy n scale_down obj fn req predicted st answers few h =
      let less = IsHealthy-weaken (n + demand b req st) n st.site (omega arith) h in
      if_cases (λ (r : State W C F T × Bool). IsHealthy n r.0.site)
        (ltb 1 (length (current_configs fn))) _ _
        (record {
          gpus = shrink_function-AreSound b n fn predicted st less.gpus;
          offers = h.offers;
        })
        (record { gpus = less.gpus; offers = h.offers })
  act-IsHealthy n stay obj fn req predicted st answers few h =
      let less = IsHealthy-weaken (n + demand b req st) n st.site (omega arith) h in
      record { gpus = less.gpus; offers = h.offers }

  pub update_function-IsHealthy :
      (n : ℕ) (obj : FastFuncObject S) (rates : F × F × F) (min_rps : F) (preferred : String)
      (st : State W C F T)
      → AnswersInRange b.request
      → 1 + (n + demand b (request_of b obj rates min_rps preferred st) st) < 2 ^ 63
      → IsHealthy (n + demand b (request_of b obj rates min_rps preferred st) st) st.site
      → IsHealthy n (update_function b obj rates min_rps preferred st).0.site
  unfolding update_function
  update_function-IsHealthy n obj rates min_rps preferred st answers few h =
      let known = lookup obj.name st.functions in
      let fn = or_new obj.name known in
      let r = reading b rates min_rps known fn in
      let (action, count) = decide r fn.scale_down_count in
      act-IsHealthy n action obj (record fn { scale_down_count = count })
        (request_of b obj rates min_rps preferred st) (predicted_rate r) st answers few h
