-- ===== src/Update/Isolated.antt =====
-- `UpdateFunction` of internal/controller/fastfunc_scale.go leaves the items that do not belong to its function.
use fa_st_gshare_autoscaler.Update.Planned.{KeepsElements, reduced_then-All, scale_down-OfAll}
use fa_st_gshare_autoscaler.Update.Released.{shrink_function-Takes}
use fa_st_gshare_autoscaler.Prepare.Untouched.{prepare_configs-KeepsAll}
use fa_st_gshare_autoscaler.Prepare.Sound.{AnswersInRange, IsHealthy}
use fa_st_gshare_autoscaler.Select.Untouched.{get_configs-KeepsAll}
use fa_st_gshare_autoscaler.Select.Sound.{get_configs-AreSound}
use fa_st_gshare_autoscaler.Gpu.Keeps.{KeepsAll, KeepsAll-trans}
use fa_st_gshare_autoscaler.Gpu.Items.{item_on}
use fa_st_gshare_autoscaler.Gpu.Valid.{AreSound, AreSound-weaken}
use fa_st_gshare_autoscaler.Update.{
  Backend, act, demand, demanded, deploy, fast_pods, grow_function, reading, request_of,
  scale_down_fast_func, settle, shrink_function, update_function,
}
use fa_st_gshare_autoscaler.Functions.{FastFunc, State, current_configs, or_new, with_heap}
use fa_st_gshare_autoscaler.Pods.Spec.{cluster_of}
use fa_st_gshare_autoscaler.Pods.{add_fast_pods}
use fa_st_gshare_autoscaler.Api.{FastFuncObject}
use fa_st_gshare_autoscaler.Scale.{Action, decide, predicted_rate, scale_down, scale_up, stay}
use fa_st_gshare_autoscaler.Prepare.{prepare_configs_requirements}
use fa_st_gshare_autoscaler.Select.Pick.{get_configs}
use fa_st_gshare_autoscaler.Select.{Heap}
use fa_st_gshare_autoscaler.Finder.{ResourceRequest}
use fa_st_gshare_autoscaler.Gpu.{AllocationTypes, Config}
use fa_st_gshare_autoscaler.Shelf.Invariant.{found}
use fa_st_gshare_autoscaler.Shelf.{Item}
use fa_st_gshare_autoscaler.Common.{
  int_eq, string_eq, All, Bool, Float, List, Option, String, arith, false, if_cases, length, lookup,
  ltb, none, refl, some, subst, sym, true, ℕ, ℤ, ◌+◌, ◌<◌, ◌^◌, ◌∙◌, ◌≡◌,
}

module _ {F T : Type 0} where
  -- The item belongs to no configuration of the list.
  abbrev pub IsForeign : List (Config F T) → ℕ → ℤ → Type 0
  IsForeign cs i id = All (λ c. c.associated_gpu ≡ i → lookup id c.shelf_items ≡ none) cs

  -- The items on the GPUs that belong to no configuration of the function stay.
  abbrev pub KeepsForeign : FastFunc F T → Heap F T → Heap F T → Type 0
  KeepsForeign fn heap heap' =
      (i : ℕ) (id : ℤ) (it : Item F)
      → IsForeign (current_configs fn) i id
      → item_on heap i id ≡ some it
      → item_on heap' i id ≡ some it

module _ {W C S F T : Type 0} ⦃f : Float F⦄ (b : Backend W C S F T)
    (sorts : KeepsElements b.sort_configs) where
  shrink_function-KeepsForeign :
      (fn : FastFunc F T) (new_rps : F) (st : State W C F T)
      → AreSound 0 st.site.heap
      → KeepsForeign fn st.site.heap (shrink_function b fn new_rps st).site.heap
  shrink_function-KeepsForeign fn new_rps st s i id it foreign e =
      let P : Config F T → Type 0 = λ c. c.associated_gpu ≡ i → lookup id c.shelf_items ≡ none in
      let (w', reduced, removed) = scale_down_fast_func b fn new_rps st.site.world in
      (shrink_function-Takes b fn new_rps st s).kept i id (
        reduced_then-All P reduced removed
          (scale_down-OfAll b sorts P fn new_rps st.site.world foreign))
      ∙ e

module _ {W C S F T : Type 0} ⦃f : Float F⦄ ⦃a : AllocationTypes T⦄ (b : Backend W C S F T)
    (answers : AnswersInRange b.request) where
  settle-heap :
      (fn : FastFunc F T) (cs : List (Config F T)) (st : State W C F T) (r : W × Bool)
      → (settle b fn cs st r).0.site.heap ≡ st.site.heap
  unfolding settle
  settle-heap fn cs st (w, true) = refl
  settle-heap fn cs st (w, false) = refl

  deploy-KeepsAll :
      (obj : FastFuncObject S) (fn : FastFunc F T) (req : ResourceRequest F T)
      (o : Option (List (Config F T))) (st : State W C F T)
      → 1 + demanded b o < 2 ^ 63
      → IsHealthy (demanded b o) st.site
      → KeepsAll st.site.heap (deploy b obj fn req o st).0.site.heap
  unfolding deploy
  deploy-KeepsAll obj fn req none st few h = λ i id it p. p
  deploy-KeepsAll obj fn req (some cs) st few h =
      let (site', prepared) = prepare_configs_requirements b.request req cs st.site in
      subst (KeepsAll st.site.heap)
        (sym (
          settle-heap fn prepared (record st { site = site' })
            (add_fast_pods (cluster_of b.kube) (fast_pods b obj prepared) site'.world)))
        (prepare_configs-KeepsAll b.request req cs st.site answers few h)

  grow_function-KeepsAll :
      (obj : FastFuncObject S) (fn : FastFunc F T) (req : ResourceRequest F T) (st : State W C F T)
      → 1 + demand b req st < 2 ^ 63
      → IsHealthy (demand b req st) st.site
      → KeepsAll st.site.heap (grow_function b obj fn req st).0.site.heap
  unfolding grow_function
  grow_function-KeepsAll obj fn req st few h =
      let (heap', found, drawn) =
        get_configs b.sort_gpus b.new_uuid b.store st.site.nodes req st.site.heap st.drawn in
      let st' : State W C F T = record (with_heap heap' st) { drawn = drawn } in
      KeepsAll-trans st.site.heap heap' (deploy b obj fn req found st').0.site.heap
        (get_configs-KeepsAll b.sort_gpus b.new_uuid b.store st.site.nodes req st.site.heap
          st.drawn)
        (deploy-KeepsAll obj fn req found st' few (record {
          gpus =
              get_configs-AreSound (demand b req st) few b.sort_gpus b.new_uuid b.store
                st.site.nodes req st.site.heap st.drawn h.offers h.gpus;
          offers = h.offers;
        }))

  act-KeepsForeign :
      (action : Action) (obj : FastFuncObject S) (fn : FastFunc F T) (req : ResourceRequest F T)
      (predicted : F) (st : State W C F T)
      → KeepsElements b.sort_configs
      → 1 + demand b req st < 2 ^ 63
      → IsHealthy (demand b req st) st.site
      → KeepsForeign fn st.site.heap (act b action obj fn req predicted st).0.site.heap
  unfolding act
  act-KeepsForeign scale_up obj fn req predicted st sorts few h =
      λ i id it foreign e. grow_function-KeepsAll obj fn req st few h i id it e
  act-KeepsForeign scale_down obj fn req predicted st sorts few h =
      if_cases (λ (r : State W C F T × Bool). KeepsForeign fn st.site.heap r.0.site.heap)
        (ltb 1 (length (current_configs fn))) _ _
        (shrink_function-KeepsForeign b sorts fn predicted st
          (AreSound-weaken (demand b req st) 0 st.site.heap (omega arith) h.gpus))
        (λ i id it foreign e. e)
  act-KeepsForeign stay obj fn req predicted st sorts few h = λ i id it foreign e. e

  -- UpdateFunction, in every branch and whatever the cluster and the nodes answer, leaves every
  -- item on the GPUs that belongs to no configuration of its function before the call, if all
  -- packers are valid with ids for the replicas that the call may demand, the shares of SMs
  -- offered are int64s, and sort.Slice brings no configuration in that was not there.
  pub update_function-KeepsForeign :
      (obj : FastFuncObject S) (rates : F × F × F) (min_rps : F) (preferred : String)
      (st : State W C F T)
      → KeepsElements b.sort_configs
      → 1 + demand b (request_of b obj rates min_rps preferred st) st < 2 ^ 63
      → IsHealthy (demand b (request_of b obj rates min_rps preferred st) st) st.site
      → KeepsForeign
          (or_new obj.name (lookup obj.name st.functions))
          st.site.heap
          (update_function b obj rates min_rps preferred st).0.site.heap
  unfolding update_function current_configs
  update_function-KeepsForeign obj rates min_rps preferred st sorts few h =
      let known = lookup obj.name st.functions in
      let fn = or_new obj.name known in
      let r = reading b rates min_rps known fn in
      let (action, count) = decide r fn.scale_down_count in
      act-KeepsForeign action obj (record fn { scale_down_count = count })
        (request_of b obj rates min_rps preferred st) (predicted_rate r) st sorts few h
